-- ===== src/Trie/Deleting.antt =====
-- trie/trie.go: delete takes a key out of a trie, and leaves it a trie.
use padi_chain.Base.{
  ℕ, zero, suc, ◌+◌, ◌*◌, ◌≤◌, ◌≡◌, inl, inr, refl, sym, ap, ◌∙◌, Bool, true, false, List, [], ◌∷◌,
  ◌++◌, none, ◌==◌, append-nil, if◌then◌else◌, arith, length, length-append, Result, ok, ◌>>=◌,
}
use mathlib.Core.Path.{subst}
use padi_chain.Trie.Nodes.{
  Node, nil, short_node, full_node, Error, changed, set_child, join, only_child, shrink,
  common_prefix, delete,
}
use padi_chain.Trie.Paths.{Walk, Walk-append_inv, StartsApart, common_prefix-StartsApart}
use padi_chain.Trie.Trees.{Tree, bare, leaf, path, branch, find, WellAt, Sees, Loads}
use padi_chain.Trie.Effects.{
  Sets-Same, Sets-path, replaced, Sets-branch, replaced-WellAt, Sets-absent, strip_apart, Sets-cut,
  Sets-leaf,
}
use padi_chain.Trie.Edits.{Edits, Edits-seen, replaced-Loads, replaced_self}
use padi_chain.Trie.Shrinking.{join-StandsFor, shrink-StandsFor}

module _ (resolve_hash : ℕ → Result Error Node) where
  abbrev Deletes : ℕ → Node → List ℕ → Bool → Tree → Type 0
  Deletes fuel n key at_end t =
      Edits resolve_hash (delete resolve_hash fuel n key) at_end t key none

  delete_seen :
      {n m : Node} (key : List ℕ) (a : Bool) (t : Tree) (need fuel : ℕ)
      → Sees resolve_hash n m
      → Loads resolve_hash m t
      → ((f : ℕ) → need ≤ f → Deletes f m key a t)
      → suc need ≤ fuel
      → Deletes fuel n key a t
  unfolding delete
  delete_seen key a t need zero sees loads k enough = absurd (omega (arith, enough))
  delete_seen key a t need (suc f) (inl e) loads k enough = rw e (k (suc f) (omega (arith, enough)))
  delete_seen {m = m} key a t need (suc f) (inr (h, e, resolved)) loads k enough =
      let done = Edits-seen resolve_hash m a t key none _ loads (k f (omega (arith, enough))) in
      rw (e, delete, resolved) done

  -- What delete does at a short node, by how the paths part.
  delete_apart :
      (f : ℕ) (p : List ℕ) (child : Node) (key : List ℕ) {s pt rest : List ℕ} {i : ℕ}
      → common_prefix p key ≡ (s, i ∷ pt, rest)
      → delete resolve_hash (suc f) (short_node p child) key ≡ ok (false, short_node p child)
  unfolding delete
  delete_apart f p child key is = rw (delete, is) refl

  delete_all :
      (f : ℕ) (p : List ℕ) (child : Node) (key : List ℕ) {s : List ℕ}
      → common_prefix p key ≡ (s, [], [])
      → delete resolve_hash (suc f) (short_node p child) key ≡ ok (true, nil)
  unfolding delete
  delete_all f p child key is = rw (delete, is, is) refl

  delete_shared :
      (f : ℕ) (p : List ℕ) (child : Node) (key : List ℕ) {s rest : List ℕ} {j : ℕ}
      → common_prefix p key ≡ (s, [], j ∷ rest)
      → delete resolve_hash (suc f) (short_node p child) key ≡ (
          delete resolve_hash f child (j ∷ rest) >>= λ r.
          ok (changed r (short_node p child) (join p)))
  unfolding delete
  delete_shared f p child key is = rw (delete, is, is) refl

  -- What is left below a path goes back behind it.
  joined_below_path :
      (a m : Bool) (p : List ℕ) (child : Node) (t : Tree) (rest : List ℕ)
      (result : Result Error (Bool × Node))
      → 1 ≤ length p
      → Walk a p m
      → Loads resolve_hash child t
      → WellAt m t
      → Edits resolve_hash result m t rest none
      → Edits resolve_hash
          (result >>= λ r. ok (changed r (short_node p child) (join p)))
          a
          (path p t)
          (p ++ rest)
          none
  unfolding changed Loads WellAt
  joined_below_path a m p child t rest result long leads loads well
        (true, n, t', is, loads', well', sets, same) =
      let (u, stands, right, holds) =
        join-StandsFor resolve_hash p n t' a m long leads loads' well' in
      (
        true,
        join p n,
        u,
        rw is refl,
        stands,
        right,
        Sets-Same a (path p t) (p ++ rest) none (path p t') (path p t) u
            (Sets-path a m p t rest none t' leads sets) (λ k w. refl) holds,
        λ no. absurd (cc no),
      )
  joined_below_path a m p child t rest result long leads loads well
        (false, n, t', is, loads', well', sets, same) =
      (
        false,
        short_node p child,
        path p t',
        rw is refl,
        (child, inl refl, rw (same refl) loads),
        (m, long, leads, well'),
        Sets-path a m p t rest none t' leads sets,
        λ no. ap (path p) (same refl),
      )

  -- A branch below which a child changed is shrunk.
  shrunk_branch :
      (loaded : ℕ → Node) (children : ℕ → Tree) (x : ℕ) (rest : List ℕ)
      (result : Result Error (Bool × Node))
      → ((y : ℕ) → y ≤ 16 → Loads resolve_hash (loaded y) (children y))
      → ((y : ℕ) → y ≤ 16 → WellAt (y == 16) (children y))
      → Edits resolve_hash result (x == 16) (children x) rest none
      → Edits resolve_hash
          (result >>= λ r.
            (if r.0
              then (shrink resolve_hash
                    (set_child loaded x r.1)
                    (only_child 17 (set_child loaded x r.1) none)
                  >>= λ n. ok (true, n))
              else ok (false, full_node loaded)))
          false
          (branch children)
          (x ∷ rest)
          none
  unfolding Loads WellAt
  shrunk_branch loaded children x rest result loads well
        (true, n, t', is, loads', well', sets, same) =
      let (m, shrunk, (u, stands, right, holds)) =
        shrink-StandsFor resolve_hash (set_child loaded x n) (replaced children x t')
          (replaced-Loads resolve_hash loaded children x n t' loads loads')
          (replaced-WellAt children x t' well well') in
      (
        true,
        m,
        u,
        rw (is, shrunk) refl,
        stands,
        right,
        Sets-Same false (branch children) (x ∷ rest) none (branch (replaced children x t'))
            (branch children) u (Sets-branch children x rest none t' sets) (λ k w. refl) holds,
        λ no. absurd (cc no),
      )
  shrunk_branch loaded children x rest result loads well
        (false, n, t', is, loads', well', sets, same) =
      let unchanged =
        ap (replaced children x) (same refl) ∙ replaced_self resolve_hash children x in
      (
        false,
        full_node loaded,
        branch (replaced children x t'),
        rw is refl,
        rw unchanged (loaded, inl refl, loads),
        (refl, replaced-WellAt children x t' well well'),
        Sets-branch children x rest none t' sets,
        λ no. ap branch unchanged,
      )

  abbrev Below : Bool → Node → Tree → Type 0
  Below ends child t =
      (f : ℕ) (rest : List ℕ)
      → Walk ends rest true
      → 2 * length rest + 2 ≤ f
      → Deletes f child rest ends t

  delete_short :
      (p : List ℕ) (t : Tree) (a ends : Bool) (f : ℕ) (child : Node) (key : List ℕ)
      → 1 ≤ length p
      → Walk a p ends
      → WellAt ends t
      → Loads resolve_hash child t
      → Below ends child t
      → Walk a key true
      → 2 * length key ≤ f
      → (r : List ℕ × List ℕ × List ℕ) → common_prefix p key ≡ r
      → p ≡ r.0 ++ r.1
      → key ≡ r.0 ++ r.2
      → StartsApart r.1 r.2
      → Deletes (suc f) (short_node p child) key a (path p t)
  unfolding Walk Loads WellAt find
  delete_short p t a ends f child key long leads well loads below walk much (s, i ∷ pt, rest) is ep
        ek apart =
      (
        false,
        short_node p child,
        path p t,
        delete_apart f p child key is,
        (child, inl refl, loads),
        (ends, long, leads, well),
        Sets-absent a (path p t) key
            (rw (ep, ek, find, strip_apart s (i ∷ pt) rest (omega arith) apart) refl),
        λ no. refl,
      )
  delete_short p t a ends f child key long leads well loads below walk much (s, [], []) is ep ek
        apart =
      let same = ek ∙ sym ep in
      (
        true,
        nil,
        bare,
        delete_all f p child key is,
        refl,
        tt,
        rw same (Sets-cut a p t (subst (λ k. Walk a k true) same walk)),
        λ no. absurd (cc no),
      )
  delete_short p t a ends f child key long leads well loads below walk much (s, [], j ∷ rest) is ep
        ek apart =
      let whole = ep ∙ append-nil s in
      let here = ek ∙ ap (λ q. q ++ j ∷ rest) (sym whole) in
      let on =
        Walk-append_inv a p (j ∷ rest) ends true leads (subst (λ k. Walk a k true) here walk) in
      let size = ap length here ∙ length-append p (j ∷ rest) in
      rw (delete_shared f p child key is, here)
        (joined_below_path a ends p child t (j ∷ rest) _ long leads loads well
          (below f (j ∷ rest) on (omega (arith, long, much, size))))

  delete_path :
      (p : List ℕ) (t : Tree) (a ends : Bool) (fuel : ℕ) (child : Node) (key : List ℕ)
      → 1 ≤ length p
      → Walk a p ends
      → WellAt ends t
      → Loads resolve_hash child t
      → Below ends child t
      → Walk a key true
      → 2 * length key + 1 ≤ fuel
      → Deletes fuel (short_node p child) key a (path p t)
  delete_path p t a ends zero child key long leads well loads below walk much =
      absurd (omega (arith, much))
  delete_path p t a ends (suc f) child key long leads well loads below walk much =
      let (ep, ek, apart) = common_prefix-StartsApart p key in
      delete_short p t a ends f child key long leads well loads below walk (omega (arith, much))
        (common_prefix p key) refl ep ek apart

  delete_full :
      (children : ℕ → Tree) (f : ℕ) (loaded : ℕ → Node) (x : ℕ) (key : List ℕ)
      → ((y : ℕ) → y ≤ 16 → Loads resolve_hash (loaded y) (children y))
      → ((y : ℕ) → y ≤ 16 → WellAt (y == 16) (children y))
      → Below (x == 16) (loaded x) (children x)
      → Walk (x == 16) key true
      → 2 * length key + 3 ≤ f
      → Deletes f (full_node loaded) (x ∷ key) false (branch children)
  unfolding delete
  delete_full children zero loaded x key loads well below walk much = absurd (omega (arith, much))
  delete_full children (suc f) loaded x key loads well below walk much =
      shrunk_branch loaded children x key _ loads well (below f key walk (omega (arith, much)))

  -- Delete needs two calls for each nibble, as Get does.
  pub delete-Edits :
      (t : Tree) (a : Bool) (fuel : ℕ) (n : Node) (key : List ℕ)
      → WellAt a t
      → Loads resolve_hash n t
      → Walk a key true
      → 2 * length key + 2 ≤ fuel
      → Edits resolve_hash (delete resolve_hash fuel n key) a t key none
  unfolding Loads WellAt Walk delete find
  delete-Edits t a zero n key well loads walk enough = absurd (omega (arith, enough))
  delete-Edits bare a (suc f) n key well loads walk enough =
      rw loads (false, nil, bare, refl, refl, tt, Sets-absent a bare key refl, λ no. refl)
  delete-Edits (leaf u) a (suc f) n (x ∷ key) well loads walk enough = absurd (cc (well, walk.0))
  delete-Edits (leaf u) a (suc f) n [] well loads walk enough =
      rw (loads, well)
        (true, nil, bare, refl, refl, tt, Sets-leaf u none bare refl, λ no. absurd (cc no))
  delete-Edits (path p t) a fuel n key (ends, long, leads, well) (child, sees, loads) walk enough =
      delete_seen key a (path p t) (2 * length key + 1) fuel sees (child, inl refl, loads)
        (λ f much.
          delete_path p t a ends f child key long leads well loads
            (λ g rest w m. delete-Edits t ends g child rest well loads w m) walk
            (omega (arith, much)))
        (omega (arith, enough))
  delete-Edits (branch children) a fuel n [] (open_here, well) loads walk enough =
      absurd (cc (open_here, walk))
  delete-Edits (branch children) a fuel n (x ∷ key) (open_here, well) (loaded, sees, loads)
        (_, small, walk) enough =
      rw open_here (
        delete_seen (x ∷ key) false (branch children) (2 * length key + 3) fuel sees
          (loaded, inl refl, loads)
          (λ f much.
            delete_full children f loaded x key loads well
              (λ g rest w m.
                delete-Edits (children x) (x == 16) g (loaded x) rest (well x small) (loads x small)
                  w m)
              walk much)
          (omega (arith, enough)))
