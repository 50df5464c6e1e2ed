-- ===== src/Trie/Trees.antt =====
-- trie/trie.go: a trie with every node loaded, and when a node stands for one.
use padi_chain.Base.{
  ℕ, ◌≤◌, ◌≡◌, ◌⊎◌, Bool, true, false, List, [], ◌∷◌, Option, none, some, ◌==◌, length, Result, ok,
}
use padi_chain.Trie.Paths.{Walk}
use padi_chain.Trie.Nodes.{Node, nil, value_node, short_node, full_node, hash_node, Error, strip}

pub data Tree : Type 0 where
  bare : Tree
  leaf : List ℕ → Tree
  path : List ℕ → Tree → Tree
  branch : (ℕ → Tree) → Tree

-- The value under a key: the map that a trie stands for.
unfoldable pub find : Tree → List ℕ → Option (List ℕ)
find bare key = none
find (leaf v) key = some v
find (path p t) key = elim (strip p key) [ none ↦ none | some rest ↦ find t rest ]
find (branch children) [] = none
find (branch children) (x ∷ key) = find (children x) key

-- A trie in which a value stands exactly where a terminator leads: `at_end` says whether one has.
unfoldable pub WellAt : Bool → Tree → Type 0
WellAt at_end bare = Unit
WellAt at_end (leaf v) = at_end ≡ true
WellAt at_end (path p t) = (ends : Bool) × (1 ≤ length p) × Walk at_end p ends × WellAt ends t
WellAt at_end (branch children) =
    (at_end ≡ false) × ((x : ℕ) → x ≤ 16 → WellAt (x == 16) (children x))

module _ (resolve_hash : ℕ → Result Error Node) where
  -- A node, or the hash that the store has it under.
  abbrev pub Sees : Node → Node → Type 0
  Sees n m = (n ≡ m) ⊎ ((h : ℕ) × (n ≡ hash_node h) × (resolve_hash h ≡ ok m))

  -- A node stands for a trie, wherever its nodes lie.
  unfoldable pub Loads : Node → Tree → Type 0
  Loads n bare = n ≡ nil
  Loads n (leaf v) = n ≡ value_node v
  Loads n (path p t) = (child : Node) × Sees n (short_node p child) × Loads child t
  Loads n (branch children) =
      (loaded : ℕ → Node) × Sees n (full_node loaded)
      × ((x : ℕ) → x ≤ 16 → Loads (loaded x) (children x))
