-- ===== src/Base/Maps.antt =====
-- Go maps with numeric keys (addresses, hashes, heights, indices), as association lists.
use padi_chain.Base.Lists.{length}
use padi_chain.Base.Tests.{◌==◌, if◌then◌else◌}
use Prim.Native.Nat.{ℕ, ◌≤◌, ◌<◌}
use mathlib.Core.Path.{◌≡◌, refl}
use mathlib.Core.Bool.{Bool, true, false}
use mathlib.Core.Option.{Option, none, some}
use mathlib.Core.List.{List, [], ◌∷◌}
use native.Mathlib.Omega.{arith}

abbrev pub Dict {ℓ} : Type ℓ → Type ℓ
Dict V = List (ℕ × V)

module _ {ℓ} {V : Type ℓ} where
  abbrev pub lookup : ℕ → Dict V → Option V
  lookup key [] = none
  lookup key ((other, value) ∷ entries) = if key == other then some value else lookup key entries

  -- `_, ok := d[k]`
  abbrev pub contains : ℕ → Dict V → Bool
  contains key entries = elim (lookup key entries) [ none ↦ false | some _ ↦ true ]

  -- `d[key] = v`
  abbrev pub insert : ℕ → V → Dict V → Dict V
  insert key value [] = (key, value) ∷ []
  insert key value (entry ∷ entries) =
      if key == entry.0 then (key, value) ∷ entries else entry ∷ insert key value entries

  -- `delete(d, k)`
  abbrev pub erase : ℕ → Dict V → Dict V
  erase key [] = []
  erase key (entry ∷ entries) =
      if key == entry.0 then erase key entries else entry ∷ erase key entries

  pub lookup-insert :
      (other key : ℕ) (value : V) (entries : Dict V)
      → lookup other (insert key value entries)
        ≡ (if other == key then some value else lookup other entries)
  lookup-insert other key value [] = refl
  lookup-insert other key value (entry ∷ entries) =
      ground (arith, lookup-insert other key value entries)

  pub lookup-erase :
      (other key : ℕ) (entries : Dict V)
      → lookup other (erase key entries) ≡ (if other == key then none else lookup other entries)
  lookup-erase other key [] = ground arith
  lookup-erase other key (entry ∷ entries) = ground (arith, lookup-erase other key entries)

  pub contains-insert :
      (other key : ℕ) (value : V) (entries : Dict V)
      → contains other (insert key value entries)
        ≡ (if other == key then true else contains other entries)
  contains-insert other key value entries = ground (arith, lookup-insert other key value entries)

  pub contains-erase :
      (other key : ℕ) (entries : Dict V)
      → contains other (erase key entries)
        ≡ (if other == key then false else contains other entries)
  contains-erase other key entries = ground (arith, lookup-erase other key entries)

  -- No key twice, as in a Go map.
  abbrev pub Distinct : Dict V → Type ℓ
  Distinct [] = Unit
  Distinct ((key, value) ∷ entries) = (lookup key entries ≡ none) × Distinct entries

  pub insert-Distinct :
      (key : ℕ) (value : V) (entries : Dict V)
      → Distinct entries
      → Distinct (insert key value entries)
  insert-Distinct key value [] h = (refl, tt)
  insert-Distinct key value (entry ∷ entries) h =
      ground (arith, insert-Distinct key value entries h.1, lookup-insert entry.0 key value entries)

  pub erase-Distinct :
      (key : ℕ) (entries : Dict V) → Distinct entries → Distinct (erase key entries)
  erase-Distinct key [] h = h
  erase-Distinct key (entry ∷ entries) h =
      ground (arith, erase-Distinct key entries h.1, lookup-erase entry.0 key entries)

  pub length-erase-le : (key : ℕ) (entries : Dict V) → length (erase key entries) ≤ length entries
  length-erase-le key [] = omega arith
  length-erase-le key (entry ∷ entries) = ground (arith, length-erase-le key entries)

  pub length-erase-lt :
      (key : ℕ) (entries : Dict V)
      → contains key entries ≡ true
      → length (erase key entries) < length entries
  length-erase-lt key [] h = cc
  length-erase-lt key (entry ∷ entries) h =
      ground (arith, length-erase-lt key entries, length-erase-le key entries)

  pub insert-insert :
      (key : ℕ) (new old : V) (entries : Dict V)
      → insert key new (insert key old entries) ≡ insert key new entries
  insert-insert key new old [] = ground arith
  insert-insert key new old (entry ∷ entries) = ground (arith, insert-insert key new old entries)
