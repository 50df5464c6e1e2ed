-- ===== src/Trie/Reading.antt =====
-- trie/trie.go: Get finds what the trie holds, and keeps standing for it.
use padi_chain.Base.{
  ℕ, zero, suc, ◌+◌, ◌*◌, ◌≤◌, ◌≡◌, inl, inr, refl, ap, Bool, true, false, List, [], ◌∷◌, some,
  ◌==◌, ==_iff, if◌then◌else◌, arith, length, length-append, Result, ok, Bool-cases, Option-cases,
}
use mathlib.Core.Path.{subst}
use padi_chain.Trie.Nodes.{
  Node, nil, value_node, short_node, full_node, Error, strip, cached, set_child, get,
}
use padi_chain.Trie.Paths.{Walk, Walk-append_inv, strip-eq-some}
use padi_chain.Trie.Trees.{Tree, bare, leaf, path, branch, find, WellAt, Sees, Loads}

module _ (resolve_hash : ℕ → Result Error Node) where
  abbrev pub Gets : ℕ → Node → List ℕ → Tree → Type 0
  Gets fuel n key t =
      (found : Node) × (did : Bool) × (get resolve_hash fuel n key ≡ ok (find t key, found, did))
      × Loads resolve_hash found t

  pub cached-Loads :
      (did : Bool) (a n : Node) (t : Tree)
      → Loads resolve_hash a t
      → Loads resolve_hash n t
      → Loads resolve_hash (cached did a n) t
  unfolding cached
  cached-Loads true a n t ha hn = ha
  cached-Loads false a n t ha hn = hn

  pub set_child-Loads :
      (loaded : ℕ → Node) (children : ℕ → Tree) (x : ℕ) (n : Node) (t : Tree)
      → ((y : ℕ) → y ≤ 16 → Loads resolve_hash (loaded y) (children y))
      → Loads resolve_hash n t
      → (y : ℕ) → y ≤ 16
      → Loads resolve_hash (set_child loaded x n y) (if y == x then t else children y)
  unfolding set_child
  set_child-Loads loaded children x n t all new y small = elim (Bool-cases (y == x)) [
    | inl is ↦ rw is new
    | inr other ↦ rw other (all y small)
  ]

  -- A hash costs one call more.
  get_seen :
      {n m : Node} (key : List ℕ) (t : Tree) (need fuel : ℕ)
      → Sees resolve_hash n m
      → ((f : ℕ) → need ≤ f → Gets f m key t)
      → suc need ≤ fuel
      → Gets fuel n key t
  unfolding get
  get_seen key t need zero sees k enough = absurd (omega (arith, enough))
  get_seen key t need (suc f) (inl e) k enough = rw e (k (suc f) (omega (arith, enough)))
  get_seen key t need (suc f) (inr (h, e, resolved)) k enough =
      let (found, did, is, loads) = k f (omega (arith, enough)) in
      (found, true, rw (e, get, resolved, is) refl, loads)

  get_short :
      (f : ℕ) (p : List ℕ) (child : Node) (key : List ℕ) (t : Tree)
      → Loads resolve_hash child t
      → ((rest : List ℕ) → strip p key ≡ some rest → Gets f child rest t)
      → Gets (suc f) (short_node p child) key (path p t)
  unfolding get find Loads
  get_short f p child key t loads k = elim (Option-cases (strip p key)) [
    | inl parts ↦ (short_node p child, false, rw (get, find, parts) refl, (child, inl refl, loads))
    | inr (rest, follows) ↦
        let (found, did, is, kept) = k rest follows in
        (
          cached did (short_node p found) (short_node p child),
          did,
          rw (get, find, follows, is) refl,
          cached-Loads did _ _ (path p t) (found, inl refl, kept) (child, inl refl, loads),
        )
  ]

  get_full :
      (f : ℕ) (loaded : ℕ → Node) (x : ℕ) (key : List ℕ) (children : ℕ → Tree)
      → ((y : ℕ) → y ≤ 16 → Loads resolve_hash (loaded y) (children y))
      → Gets f (loaded x) key (children x)
      → Gets (suc f) (full_node loaded) (x ∷ key) (branch children)
  unfolding get find Loads
  get_full f loaded x key children all (found, did, is, kept) = (
    cached did (full_node (set_child loaded x found)) (full_node loaded),
    did,
    rw (get, is) refl,
    cached-Loads did _ _ (branch children)
        (
          set_child loaded x found,
          inl refl,
          λ y small.
              same_child x children y _
                (set_child-Loads loaded children x found (children x) all kept y small),
        )
        (loaded, inl refl, all),
  )
    where
      same_child :
          (x : ℕ) (children : ℕ → Tree) (y : ℕ) (n : Node)
          → Loads resolve_hash n (if y == x then children x else children y)
          → Loads resolve_hash n (children y)
      same_child x children y n h = elim (Bool-cases (y == x)) [
        | inl is ↦ rw ((==_iff y x).0 is) (rw is at h)
        | inr other ↦ rw other at h
      ]

  -- Enough for a key below a node, and what Get then does there.
  abbrev Below : Bool → Node → Tree → Type 0
  Below ends child t =
      (f : ℕ) (rest : List ℕ) → Walk ends rest true → 2 * length rest + 2 ≤ f → Gets f child rest t

  get_path :
      (p : List ℕ) (t : Tree) (at_end ends : Bool) (f : ℕ) (child : Node) (key : List ℕ)
      → 1 ≤ length p
      → Walk at_end p ends
      → Loads resolve_hash child t
      → Below ends child t
      → Walk at_end key true
      → 2 * length key + 1 ≤ f
      → Gets f (short_node p child) key (path p t)
  get_path p t at_end ends zero child key long leads loads below walk much =
      absurd (omega (arith, much))
  get_path p t at_end ends (suc f) child key long leads loads below walk much =
      get_short f p child key t loads (λ rest follows.
        let is = strip-eq-some p key follows in
        below f rest
          (Walk-append_inv at_end p rest ends true leads (subst (λ k. Walk at_end k true) is walk))
          (omega (arith, long, much, ap length is, length-append p rest)))

  get_branch :
      (children : ℕ → Tree) (f : ℕ) (loaded : ℕ → Node) (x : ℕ) (key : List ℕ)
      → ((y : ℕ) → y ≤ 16 → Loads resolve_hash (loaded y) (children y))
      → Below (x == 16) (loaded x) (children x)
      → Walk (x == 16) key true
      → 2 * length key + 3 ≤ f
      → Gets f (full_node loaded) (x ∷ key) (branch children)
  get_branch children zero loaded x key loads below walk much = absurd (omega (arith, much))
  get_branch children (suc f) loaded x key loads below walk much =
      get_full f loaded x key children loads (below f key walk (omega (arith, much)))

  -- Get needs two calls for each nibble, and one more for what stands at the end, or its hash.
  pub get-Gets :
      (t : Tree) (at_end : Bool) (fuel : ℕ) (n : Node) (key : List ℕ)
      → WellAt at_end t
      → Loads resolve_hash n t
      → Walk at_end key true
      → 2 * length key + 2 ≤ fuel
      → Gets fuel n key t
  unfolding get find Loads WellAt Walk
  get-Gets bare at_end zero n key well loads walk enough = absurd (omega (arith, enough))
  get-Gets bare at_end (suc f) n key well loads walk enough = rw loads (nil, false, refl, refl)
  get-Gets (leaf v) at_end zero n key well loads walk enough = absurd (omega (arith, enough))
  get-Gets (leaf v) at_end (suc f) n key well loads walk enough =
      rw loads (value_node v, false, refl, refl)
  get-Gets (path p t) at_end fuel n key (ends, long, leads, well) (child, sees, loads) walk enough =
      get_seen key (path p t) (2 * length key + 1) fuel sees
        (λ f much.
          get_path p t at_end ends f child key long leads loads
            (λ g rest w m. get-Gets t ends g child rest well loads w m) walk much)
        (omega (arith, enough))
  get-Gets (branch children) at_end fuel n [] (open_here, well) loads walk enough =
      absurd (cc (open_here, walk))
  get-Gets (branch children) at_end fuel n (x ∷ key) (open_here, well) (loaded, sees, loads)
        (_, small, walk) enough =
      get_seen (x ∷ key) (branch children) (2 * length key + 3) fuel sees
        (λ f much.
          get_branch children f loaded x key loads
            (λ g rest w m.
              get-Gets (children x) (x == 16) g (loaded x) rest (well x small) (loads x small) w m)
            walk much)
        (omega (arith, enough))
