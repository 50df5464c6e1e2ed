-- ===== src/State/Revisions.antt =====
-- state/statedb.go: the search of RevertToSnapshot among the revisions.
use padi_chain.Base.{
  ℕ, ◌<◌, ◌≡◌, refl, sym, false, List, [], ◌∷◌, ◌++◌, Option, none, some, leb, All, arith, inl, inr,
  Bool-cases,
}
use padi_chain.State.Objects.{Revision}
use padi_chain.State.Snapshots.{find_revision}

-- What the search found in a later part, as found in the whole.
abbrev pub after_older :
    List Revision → Option (Revision × List Revision) → Option (Revision × List Revision)
after_older older none = none
after_older older (some (r, before)) = some (r, older ++ before)

after_one :
    (x : Revision) (xs : List Revision) (o : Option (Revision × List Revision))
    → elim (after_older xs o) [ none ↦ none | some (found, before) ↦ some (found, x ∷ before) ]
      ≡ after_older (x ∷ xs) o
after_one x xs none = refl
after_one x xs (some (r, before)) = refl

after_nothing : (o : Option (Revision × List Revision)) → after_older [] o ≡ o
after_nothing none = refl
after_nothing (some (r, before)) = refl

leb-lt : {a b : ℕ} → a < b → leb b a ≡ false
leb-lt h = ground arith

pub find_revision-append :
    (id : ℕ) (older newer : List Revision)
    → All (λ r. r.id < id) older
    → find_revision id (older ++ newer) ≡ after_older older (find_revision id newer)
unfolding find_revision
find_revision-append id [] newer h = sym (after_nothing (find_revision id newer))
find_revision-append id (x ∷ xs) newer (below, h) =
    let later = find_revision-append id xs newer h in
    let passed = leb-lt below in rw (passed, later) (after_one x xs (find_revision id newer))

-- The revision found and those before it.
abbrev pub Found {κ} : (Revision → Type κ) → Option (Revision × List Revision) → Type κ
Found P none = Unit
Found P (some (r, before)) = P r × All P before

found_later {κ} :
    (P : Revision → Type κ) (x : Revision) (o : Option (Revision × List Revision))
    → P x
    → Found P o
    → Found P (elim o [ none ↦ none | some (found, before) ↦ some (found, x ∷ before) ])
found_later P x none px h = tt
found_later P x (some (r, before)) px h = (h.0, (px, h.1))

pub find_revision-Found {κ} :
    (P : Revision → Type κ) (id : ℕ) (rs : List Revision) → All P rs → Found P (find_revision id rs)
unfolding find_revision
find_revision-Found P id [] h = tt
find_revision-Found P id (x ∷ xs) (px, h) =
    let rest = find_revision-Found P id xs h in
    elim (Bool-cases (leb id x.id)) [
      | inl here ↦ rw here (px, tt)
      | inr later ↦ rw later (found_later P x (find_revision id xs) px rest)
    ]
