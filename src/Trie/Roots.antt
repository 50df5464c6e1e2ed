-- ===== src/Trie/Roots.antt =====
-- trie/trie.go: Get, Update and Delete, as a map from keys to values.
use padi_chain.Base.{
  ℕ, ◌/◌, ◌%◌, ◌<◌, ◌≡◌, refl, sym, ◌∙◌, Bool, true, false, List, [], ◌∷◌, Option, none, some, ◌==◌,
  if◌then◌else◌, arith, Result, ok, ◌>>=◌, All,
}
use padi_chain.Trie.Nodes.{
  Node, nil, Error, bytes_equal, key_to_nibbles, cached, enough, trie_get, trie_delete, trie_update,
}
use padi_chain.Trie.Paths.{Walk}
use padi_chain.Trie.Trees.{Tree, bare, find, WellAt, Loads}
use padi_chain.Trie.Reading.{cached-Loads, get-Gets}
use padi_chain.Trie.Edits.{Edits}
use padi_chain.Trie.Inserting.{insert-Edits}
use padi_chain.Trie.Deleting.{delete-Edits}

abbrev pub IsBytes : List ℕ → Type 0
IsBytes key = All (λ b. b < 256) key

key_to_nibbles-Walk : (key : List ℕ) → IsBytes key → Walk false (key_to_nibbles key) true
unfolding key_to_nibbles Walk
key_to_nibbles-Walk [] bytes = (refl, omega arith, refl)
key_to_nibbles-Walk (x ∷ key) (byte, bytes) = (
  refl,
  omega (arith, byte),
  (high x byte, omega arith, rw (low x) (key_to_nibbles-Walk key bytes)),
)
  where
    high : (x : ℕ) → x < 256 → (x / 16 == 16) ≡ false
    high x byte = ground (arith, byte)

    low : (x : ℕ) → (x % 16 == 16) ≡ false
    low x = ground arith

-- Two keys have one path only if they are one.
bytes_equal-key_to_nibbles :
    (a b : List ℕ) → bytes_equal (key_to_nibbles a) (key_to_nibbles b) ≡ bytes_equal a b
unfolding key_to_nibbles bytes_equal
bytes_equal-key_to_nibbles [] [] = refl
bytes_equal-key_to_nibbles [] (y ∷ b) = ground arith
bytes_equal-key_to_nibbles (x ∷ a) [] = ground arith
bytes_equal-key_to_nibbles (x ∷ a) (y ∷ b) = ground (arith, bytes_equal-key_to_nibbles a b)

-- What Update makes of the map: an empty value is none.
unfoldable pub with_value : (List ℕ → Option (List ℕ)) → List ℕ → List ℕ → List ℕ → Option (List ℕ)
with_value f key [] k = if bytes_equal k key then none else f k
with_value f key (v ∷ value) k = if bytes_equal k key then some (v ∷ value) else f k

-- The updates of a trie one after the other, the last one first in the list.
unfoldable pub latest : List (List ℕ × List ℕ) → List ℕ → Option (List ℕ)
latest [] k = none
latest ((key, value) ∷ updates) k = with_value (latest updates) key value k

module _ (resolve_hash : ℕ → Result Error Node) where
  unfoldable pub update_all : Node → List (List ℕ × List ℕ) → Result Error Node
  update_all root [] = ok root
  update_all root ((key, value) ∷ updates) =
      update_all root updates >>= λ r. trie_update resolve_hash r key value

  -- A root that stands for a trie with a value under each key as a map has it.
  unfoldable pub Holds : Node → (List ℕ → Option (List ℕ)) → Type 0
  Holds root f =
      (t : Tree) × WellAt false t
      × Loads resolve_hash root t
      × ((key : List ℕ) → IsBytes key → find t (key_to_nibbles key) ≡ f key)

  nil-Holds : Holds nil (λ key. none)
  unfolding Holds WellAt Loads find
  nil-Holds = (bare, tt, refl, λ key bytes. refl)

  -- From a root that holds a map, wherever its nodes lie in the store, Get of a key of bytes ends
  -- without an error with the value under the key, and the root it leaves holds the same map.
  pub trie_get-Holds :
      (root : Node) (f : List ℕ → Option (List ℕ)) (key : List ℕ)
      → Holds root f
      → IsBytes key
      → (after : Node) × (trie_get resolve_hash root key ≡ ok (f key, after)) × Holds after f
  unfolding Holds trie_get
  trie_get-Holds root f key (t, well, loads, holds) bytes =
      let (n, did, is, loads') =
        get-Gets resolve_hash t false (enough resolve_hash (key_to_nibbles key)) root
          (key_to_nibbles key) well loads (key_to_nibbles-Walk key bytes) (omega arith) in
      (
        cached did n root,
        rw (is, holds key bytes) refl,
        (t, well, cached-Loads resolve_hash did n root t loads' loads, holds),
      )

  -- What a change under a path of nibbles does to the map of keys.
  Edits-Holds :
      (f g : List ℕ → Option (List ℕ)) (key : List ℕ) (o : Option (List ℕ)) (t : Tree)
      (result : Result Error (Bool × Node))
      → ((k : List ℕ) → IsBytes k → find t (key_to_nibbles k) ≡ f k)
      → ((k : List ℕ) → g k ≡ (if bytes_equal k key then o else f k))
      → Edits resolve_hash result false t (key_to_nibbles key) o
      → (after : Node) × ((result >>= λ r. ok r.1) ≡ ok after) × Holds after g
  unfolding Holds
  Edits-Holds f g key o t result holds spec (dirty, n, t', is, loads, well, sets, same) = (
    n,
    rw is refl,
    (
      t',
      well,
      loads,
      λ k bytes.
          sets (key_to_nibbles k) (key_to_nibbles-Walk k bytes)
          ∙ (rw (bytes_equal-key_to_nibbles k key, holds k bytes) (sym (spec k))),
    ),
  )

  -- Delete of a key of bytes ends without an error, and takes the key out of the map.
  pub trie_delete-Holds :
      (root : Node) (f : List ℕ → Option (List ℕ)) (key : List ℕ)
      → Holds root f
      → IsBytes key
      → (after : Node) × (trie_delete resolve_hash root key ≡ ok after)
        × Holds after (with_value f key [])
  unfolding Holds trie_delete with_value
  trie_delete-Holds root f key (t, well, loads, holds) bytes =
      Edits-Holds f _ key none t _ holds (λ k. refl)
        (delete-Edits resolve_hash t false _ root (key_to_nibbles key) well loads
          (key_to_nibbles-Walk key bytes) (omega arith))

  -- From a root that holds a map, wherever its nodes lie in the store, Update of a key of bytes ends
  -- without an error, and the root it leaves holds the map with the value under the key, or with
  -- nothing there if the value is empty.
  pub trie_update-Holds :
      (root : Node) (f : List ℕ → Option (List ℕ)) (key value : List ℕ)
      → Holds root f
      → IsBytes key
      → (after : Node) × (trie_update resolve_hash root key value ≡ ok after)
        × Holds after (with_value f key value)
  unfolding Holds trie_update with_value
  trie_update-Holds root f key [] h bytes = trie_delete-Holds root f key h bytes
  trie_update-Holds root f key (v ∷ value) (t, well, loads, holds) bytes =
      Edits-Holds f _ key (some (v ∷ value)) t _ holds (λ k. refl)
        (insert-Edits resolve_hash t false _ root (key_to_nibbles key) (v ∷ value) well loads
          (key_to_nibbles-Walk key bytes) (omega arith))

  -- Any updates of an empty trie succeed, and Get then finds the latest value under each key.
  pub update_all-latest :
      (updates : List (List ℕ × List ℕ))
      → All (λ u. IsBytes u.0) updates
      → (root : Node) × (update_all nil updates ≡ ok root) × Holds root (latest updates)
  unfolding update_all latest
  update_all-latest [] bytes = (nil, refl, nil-Holds)
  update_all-latest ((key, value) ∷ updates) (bytes, rest) =
      let (root, is, h) = update_all-latest updates rest in
      let (after, done, holds) = trie_update-Holds root (latest updates) key value h bytes in
      (after, rw is done, holds)

  -- After any updates of an empty trie, each of which succeeds, Get finds under each key the value
  -- that was stored there last, and nothing where that was empty or none was: keys are lists of bytes.
  pub trie_get-update_all :
      (updates : List (List ℕ × List ℕ)) (key : List ℕ)
      → All (λ u. IsBytes u.0) updates
      → IsBytes key
      → (root : Node) × (after : Node) × (update_all nil updates ≡ ok root)
        × (trie_get resolve_hash root key ≡ ok (latest updates key, after))
  trie_get-update_all updates key all bytes =
      let (root, is, h) = update_all-latest updates all in
      let (after, found, _) = trie_get-Holds root (latest updates) key h bytes in
      (root, after, is, found)
