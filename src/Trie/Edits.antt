-- ===== src/Trie/Edits.antt =====
-- trie/trie.go: what a change below a node comes to when it is put back.
use padi_chain.Base.{
  ℕ, ◌≤◌, ◌≡◌, inl, inr, refl, ap, ◌∙◌, Bool, true, false, List, ◌∷◌, ◌++◌, Option, ◌==◌, ==_iff,
  length, Result, ok, ◌>>=◌, Bool-cases,
}
use mathlib.Core.Path.{fun_ext}
use padi_chain.Trie.Nodes.{Node, short_node, full_node, Error, changed, set_child}
use padi_chain.Trie.Paths.{Walk}
use padi_chain.Trie.Trees.{Tree, path, branch, WellAt, Loads}
use padi_chain.Trie.Effects.{Sets, Sets-path, replaced, Sets-branch, replaced-WellAt}

module _ (resolve_hash : ℕ → Result Error Node) where
  -- What an operation comes to: a trie with another value, or none, under a key; unchanged if it
  -- says so.
  abbrev pub Edits : Result Error (Bool × Node) → Bool → Tree → List ℕ → Option (List ℕ) → Type 0
  Edits result at_end t key o =
      (dirty : Bool) × (n : Node) × (t' : Tree) × (result ≡ ok (dirty, n))
      × Loads resolve_hash n t'
      × WellAt at_end t'
      × Sets at_end t key o t'
      × (dirty ≡ false → t' ≡ t)

  pub replaced-Loads :
      (loaded : ℕ → Node) (children : ℕ → Tree) (x : ℕ) (n : Node) (t : Tree)
      → ((y : ℕ) → y ≤ 16 → Loads resolve_hash (loaded y) (children y))
      → Loads resolve_hash n t
      → (y : ℕ) → y ≤ 16
      → Loads resolve_hash (set_child loaded x n y) (replaced children x t y)
  unfolding set_child replaced
  replaced-Loads loaded children x n t all new y small = elim (Bool-cases (y == x)) [
    | inl is ↦ rw is new
    | inr other ↦ rw other (all y small)
  ]

  pub replaced_self : (children : ℕ → Tree) (x : ℕ) → replaced children x (children x) ≡ children
  unfolding replaced
  replaced_self children x = fun_ext (λ y. elim (Bool-cases (y == x)) [
    | inl is ↦ rw (is, (==_iff y x).0 is) refl
    | inr other ↦ rw other refl
  ])

  -- What a change below a path comes to, if it is put back behind the path.
  pub Edits-below_path :
      (a m : Bool) (p : List ℕ) (child : Node) (t : Tree) (rest : List ℕ) (o : Option (List ℕ))
      (result : Result Error (Bool × Node))
      → 1 ≤ length p
      → Walk a p m
      → Loads resolve_hash child t
      → WellAt m t
      → Edits result m t rest o
      → Edits
          (result >>= λ r. ok (changed r (short_node p child) (λ new. short_node p new)))
          a
          (path p t)
          (p ++ rest)
          o
  unfolding changed Loads WellAt
  Edits-below_path a m p child t rest o result long leads loads well
        (true, n, t', is, loads', well', sets, same) =
      (
        true,
        short_node p n,
        path p t',
        rw is refl,
        (n, inl refl, loads'),
        (m, long, leads, well'),
        Sets-path a m p t rest o t' leads sets,
        λ no. absurd (cc no),
      )
  Edits-below_path a m p child t rest o result long leads loads well
        (false, n, t', is, loads', well', sets, same) =
      (
        false,
        short_node p child,
        path p t',
        rw is refl,
        (child, inl refl, rw (same refl) loads),
        (m, long, leads, well'),
        Sets-path a m p t rest o t' leads sets,
        λ no. ap (path p) (same refl),
      )

  pub Edits-below_branch :
      (loaded : ℕ → Node) (children : ℕ → Tree) (x : ℕ) (rest : List ℕ) (o : Option (List ℕ))
      (result : Result Error (Bool × Node))
      → ((y : ℕ) → y ≤ 16 → Loads resolve_hash (loaded y) (children y))
      → ((y : ℕ) → y ≤ 16 → WellAt (y == 16) (children y))
      → Edits result (x == 16) (children x) rest o
      → Edits
          (result >>= λ r.
            ok (changed r (full_node loaded) (λ new. full_node (set_child loaded x new))))
          false
          (branch children)
          (x ∷ rest)
          o
  unfolding changed Loads WellAt
  Edits-below_branch loaded children x rest o result loads well
        (true, n, t', is, loads', well', sets, same) =
      (
        true,
        full_node (set_child loaded x n),
        branch (replaced children x t'),
        rw is refl,
        (set_child loaded x n, inl refl, replaced-Loads loaded children x n t' loads loads'),
        (refl, replaced-WellAt children x t' well well'),
        Sets-branch children x rest o t' sets,
        λ no. absurd (cc no),
      )
  Edits-below_branch loaded children x rest o result loads well
        (false, n, t', is, loads', well', sets, same) =
      let unchanged = ap (replaced children x) (same refl) ∙ replaced_self children x in
      (
        false,
        full_node loaded,
        branch (replaced children x t'),
        rw is refl,
        rw unchanged (loaded, inl refl, loads),
        (refl, replaced-WellAt children x t' well well'),
        Sets-branch children x rest o t' sets,
        λ no. ap branch unchanged,
      )

  -- A hash costs one call more, and what changes takes its place.
  pub Edits-seen :
      (m : Node) (a : Bool) (t : Tree) (key : List ℕ) (o : Option (List ℕ))
      (result : Result Error (Bool × Node))
      → Loads resolve_hash m t
      → Edits result a t key o
      → Edits (result >>= λ r. ok (changed r m (λ new. new))) a t key o
  unfolding changed
  Edits-seen m a t key o result loads (true, n, t', is, loads', well', sets, same) =
      (true, n, t', rw is refl, loads', well', sets, same)
  Edits-seen m a t key o result loads (false, n, t', is, loads', well', sets, same) =
      (false, m, t', rw is refl, rw (same refl) loads, well', sets, same)
