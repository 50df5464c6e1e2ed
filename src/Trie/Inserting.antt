-- ===== src/Trie/Inserting.antt =====
-- trie/trie.go: insert changes a trie under its key, and leaves it a trie.
use padi_chain.Base.{
  ℕ, zero, suc, ◌+◌, ◌*◌, ◌≤◌, ◌≡◌, inl, inr, refl, sym, ap, ◌∙◌, Bool, true, false, not, List, [],
  ◌∷◌, ◌++◌, some, ◌==◌, ==_iff, append-nil, arith, length, length-append, Result, ok, ◌>>=◌,
  Bool-cases,
}
use mathlib.Core.Path.{subst}
use padi_chain.Trie.Nodes.{
  Node, nil, value_node, short_node, full_node, Error, changed, set_child, no_children, extension,
  overwrites, bytes_equal, common_prefix, insert,
}
use padi_chain.Trie.Paths.{
  Walk, Walk-append_inv, Walk-append_split, Walk-unique, bytes_equal_eq, StartsApart,
  common_prefix-StartsApart,
}
use padi_chain.Trie.Trees.{Tree, bare, leaf, path, branch, find, WellAt, Sees, Loads}
use padi_chain.Trie.Effects.{
  Sets-Same, Walk-nil, wrap, find-wrap, wrap-WellAt, find-path-path, Sets-path, Sets-single, parted,
  Sets-parted, Sets-leaf,
}
use padi_chain.Trie.Edits.{Edits, Edits-below_path, Edits-below_branch, Edits-seen}

module _ (resolve_hash : ℕ → Result Error Node) where
  abbrev Inserts : ℕ → Node → List ℕ → List ℕ → Bool → Tree → Type 0
  Inserts fuel n key v at_end t =
      Edits resolve_hash (insert resolve_hash fuel n key (value_node v)) at_end t key (some v)

  insert_seen :
      {n m : Node} (x : ℕ) (key v : List ℕ) (a : Bool) (t : Tree) (need fuel : ℕ)
      → Sees resolve_hash n m
      → Loads resolve_hash m t
      → ((f : ℕ) → need ≤ f → Inserts f m (x ∷ key) v a t)
      → suc need ≤ fuel
      → Inserts fuel n (x ∷ key) v a t
  unfolding insert
  insert_seen x key v a t need zero sees loads k enough = absurd (omega (arith, enough))
  insert_seen x key v a t need (suc f) (inl e) loads k enough =
      rw e (k (suc f) (omega (arith, enough)))
  insert_seen {m = m} x key v a t need (suc f) (inr (h, e, resolved)) loads k enough =
      let done =
        Edits-seen resolve_hash m a t (x ∷ key) (some v) _ loads (k f (omega (arith, enough))) in
      rw (e, insert, resolved) done

  -- Into no node.
  insert-nil :
      (f : ℕ) (key : List ℕ) (value : Node)
      → insert resolve_hash (suc f) nil key value ≡ ok (true, extension key value)
  unfolding insert extension overwrites
  insert-nil f [] value = refl
  insert-nil f (x ∷ key) value = refl

  extension-Loads :
      (key : List ℕ) (n : Node) (t : Tree)
      → Loads resolve_hash n t
      → Loads resolve_hash (extension key n) (wrap key t)
  unfolding extension wrap Loads
  extension-Loads [] n t loads = loads
  extension-Loads (x ∷ key) n t loads = (n, inl refl, loads)

  insert_bare :
      (f : ℕ) (key v : List ℕ) (a : Bool) → Walk a key true → Inserts (suc f) nil key v a bare
  unfolding WellAt Loads
  insert_bare f key v a walk = (
    true,
    extension key (value_node v),
    wrap key (leaf v),
    insert-nil f key (value_node v),
    extension-Loads key (value_node v) (leaf v) refl,
    wrap-WellAt a true key (leaf v) walk refl,
    (λ k w. find-wrap key (leaf v) k ∙ Sets-single a key v walk k w),
    λ no. absurd (cc no),
  )

  not-false : (b : Bool) → not b ≡ false → b ≡ true
  not-false true h = refl
  not-false false h = absurd (cc h)

  insert_leaf :
      (f : ℕ) (u key v : List ℕ)
      → Walk true key true
      → Inserts (suc f) (value_node u) key v true (leaf u)
  unfolding insert overwrites Loads WellAt find
  insert_leaf f u (x ∷ key) v walk = absurd (cc (Walk-nil (x ∷ key) walk))
  insert_leaf f u [] v walk = (
    not (bytes_equal u v),
    value_node v,
    leaf v,
    refl,
    refl,
    refl,
    Sets-leaf u (some v) (leaf v) refl,
    λ same. ap leaf (sym (bytes_equal_eq u v (not-false (bytes_equal u v) same))),
  )

  parted-Loads :
      (i : ℕ) (n : Node) (t : Tree) (j : ℕ) (m : Node) (u : Tree)
      → Loads resolve_hash n t
      → Loads resolve_hash m u
      → (y : ℕ)
      → Loads resolve_hash (set_child (set_child no_children i n) j m y) (parted i t j u y)
  unfolding set_child parted no_children Loads
  parted-Loads i n t j m u first second y = elim (Bool-cases (y == j)) [
    | inl same ↦ rw same second
    | inr other ↦
        rw other
          (elim (Bool-cases (y == i)) [ inl same ↦ rw same first | inr another ↦ rw another refl ])
  ]

  parted-WellAt :
      (i : ℕ) (t : Tree) (j : ℕ) (u : Tree)
      → WellAt (i == 16) t
      → WellAt (j == 16) u
      → (y : ℕ) → WellAt (y == 16) (parted i t j u y)
  unfolding parted WellAt
  parted-WellAt i t j u first second y = elim (Bool-cases (y == j)) [
    | inl same ↦ rw same (rw ((==_iff y j).0 same) second)
    | inr other ↦ rw other (elim (Bool-cases (y == i)) [
      | inl same ↦ rw same (rw ((==_iff y i).0 same) first)
      | inr another ↦ rw another tt
    ])
  ]

  -- Two paths part: the branch, behind what they share.
  split_path :
      (s : List ℕ) (i : ℕ) (p : List ℕ) (child : Node) (j : ℕ) (rest v : List ℕ) (a m ends : Bool)
      (t : Tree)
      → (i == j) ≡ false
      → Walk a s m
      → Walk m (i ∷ p) ends
      → Walk m (j ∷ rest) true
      → Loads resolve_hash child t
      → WellAt ends t
      → Edits resolve_hash
          (ok (
            true,
            extension s (
                full_node (
                  set_child
                    (set_child no_children i (extension p child))
                    j
                    (extension rest (value_node v)))),
          ))
          a
          (path (s ++ i ∷ p) t)
          (s ++ j ∷ rest)
          (some v)
  unfolding Walk WellAt Loads
  split_path s i p child j rest v a m ends t apart leads (open_here, _, old) (_, _, new) loads
        well =
      let u = branch (parted i (wrap p t) j (wrap rest (leaf v))) in
      (
        true,
        _,
        wrap s u,
        refl,
        extension-Loads s _ u (
          _,
          inl refl,
          λ y small.
              parted-Loads i (extension p child) (wrap p t) j (extension rest (value_node v))
                (wrap rest (leaf v)) (extension-Loads p child t loads)
                (extension-Loads rest (value_node v) (leaf v) refl) y,
        ),
        wrap-WellAt a m s u leads (
          open_here,
          λ y small.
              parted-WellAt i (wrap p t) j (wrap rest (leaf v)) (wrap-WellAt _ ends p t old well)
                (wrap-WellAt _ true rest (leaf v) new refl) y,
        ),
        Sets-Same a (path s (path (i ∷ p) t)) (s ++ j ∷ rest) (some v) (path s u)
            (path (s ++ i ∷ p) t) (wrap s u)
            (Sets-path a m s (path (i ∷ p) t) (j ∷ rest) (some v) u leads
              (rw open_here (Sets-parted i p t j rest v apart new)))
            (λ k walk. find-path-path s (i ∷ p) t k) (λ k walk. find-wrap s u k),
        λ no. absurd (cc no),
      )

  abbrev Below : Bool → Node → Tree → List ℕ → Type 0
  Below ends child t v =
      (f : ℕ) (rest : List ℕ)
      → Walk ends rest true
      → 2 * length rest + 2 ≤ f
      → Inserts f child rest v ends t

  insert_shared :
      (f : ℕ) (p : List ℕ) (child : Node) (x : ℕ) (key : List ℕ) (value : Node) {s rest : List ℕ}
      → common_prefix p (x ∷ key) ≡ (s, [], rest)
      → insert resolve_hash (suc f) (short_node p child) (x ∷ key) value ≡ (
          insert resolve_hash f child rest value >>= λ r.
          ok (changed r (short_node p child) (λ new. short_node p new)))
  unfolding insert
  insert_shared f p child x key value is = rw (insert, is, is) refl

  insert_apart :
      (f : ℕ) (p : List ℕ) (child : Node) (x : ℕ) (key : List ℕ) (value : Node) {s pt kt : List ℕ}
      {i j : ℕ}
      → common_prefix p (x ∷ key) ≡ (s, i ∷ pt, j ∷ kt)
      → insert resolve_hash (suc (suc f)) (short_node p child) (x ∷ key) value
        ≡ ok (
          true,
          extension s (
              full_node
                (set_child (set_child no_children i (extension pt child)) j (extension kt value))),
        )
  unfolding insert
  insert_apart f p child x key value {pt = pt} {kt = kt} is =
      rw (insert, is, is, insert-nil f pt child, insert-nil f kt value, is) refl

  insert_short :
      (p : List ℕ) (t : Tree) (a ends : Bool) (f : ℕ) (child : Node) (x : ℕ) (key v : List ℕ)
      → 1 ≤ length p
      → Walk a p ends
      → WellAt ends t
      → Loads resolve_hash child t
      → Below ends child t v
      → Walk a (x ∷ key) true
      → 2 * length (x ∷ key) ≤ f
      → (r : List ℕ × List ℕ × List ℕ) → common_prefix p (x ∷ key) ≡ r
      → p ≡ r.0 ++ r.1
      → x ∷ key ≡ r.0 ++ r.2
      → StartsApart r.1 r.2
      → Inserts (suc f) (short_node p child) (x ∷ key) v a (path p t)
  unfolding Walk
  insert_short p t a ends f child x key v long leads well loads below walk much (s, [], rest) is ep
        ek apart =
      let whole = ep ∙ append-nil s in
      let here = ek ∙ ap (λ q. q ++ rest) (sym whole) in
      let on = Walk-append_inv a p rest ends true leads (subst (λ k. Walk a k true) here walk) in
      let size = ap length here ∙ length-append p rest in
      rw (insert_shared f p child x key (value_node v) is, here)
        (Edits-below_path resolve_hash a ends p child t rest (some v) _ long leads loads well
          (below f rest on (omega (arith, long, much, size))))
  insert_short p t a ends f child x key v long leads well loads below walk much (s, i ∷ pt, []) is
        ep ek apart =
      let (m, first, second) =
        Walk-append_split a s (i ∷ pt) ends (subst (λ q. Walk a q ends) ep leads) in
      let all = subst (λ k. Walk a k true) (ek ∙ append-nil s) walk in
      absurd (cc (second.0, Walk-unique a s m true first all))
  insert_short p t a ends zero child x key v long leads well loads below walk much
        (s, i ∷ pt, j ∷ kt) is ep ek apart =
      absurd (omega (arith, much))
  insert_short p t a ends (suc f) child x key v long leads well loads below walk much
        (s, i ∷ pt, j ∷ kt) is ep ek apart =
      let (m, first, second) =
        Walk-append_split a s (i ∷ pt) ends (subst (λ q. Walk a q ends) ep leads) in
      let third = Walk-append_inv a s (j ∷ kt) m true first (subst (λ k. Walk a k true) ek walk) in
      rw (insert_apart f p child x key (value_node v) is, ep, ek)
        (split_path s i pt child j kt v a m ends t apart first second third loads well)

  insert_full :
      (children : ℕ → Tree) (f : ℕ) (loaded : ℕ → Node) (x : ℕ) (key v : List ℕ)
      → ((y : ℕ) → y ≤ 16 → Loads resolve_hash (loaded y) (children y))
      → ((y : ℕ) → y ≤ 16 → WellAt (y == 16) (children y))
      → Below (x == 16) (loaded x) (children x) v
      → Walk (x == 16) key true
      → 2 * length key + 3 ≤ f
      → Inserts f (full_node loaded) (x ∷ key) v false (branch children)
  unfolding insert
  insert_full children zero loaded x key v loads well below walk much = absurd (omega (arith, much))
  insert_full children (suc f) loaded x key v loads well below walk much =
      Edits-below_branch resolve_hash loaded children x key (some v) _ loads well
        (below f key walk (omega (arith, much)))

  insert_path :
      (p : List ℕ) (t : Tree) (a ends : Bool) (fuel : ℕ) (child : Node) (x : ℕ) (key v : List ℕ)
      → 1 ≤ length p
      → Walk a p ends
      → WellAt ends t
      → Loads resolve_hash child t
      → Below ends child t v
      → Walk a (x ∷ key) true
      → 2 * length (x ∷ key) + 1 ≤ fuel
      → Inserts fuel (short_node p child) (x ∷ key) v a (path p t)
  insert_path p t a ends zero child x key v long leads well loads below walk much =
      absurd (omega (arith, much))
  insert_path p t a ends (suc f) child x key v long leads well loads below walk much =
      let (ep, ek, apart) = common_prefix-StartsApart p (x ∷ key) in
      insert_short p t a ends f child x key v long leads well loads below walk (omega (arith, much))
        (common_prefix p (x ∷ key)) refl ep ek apart

  -- Insert needs two calls for each nibble, as Get does.
  pub insert-Edits :
      (t : Tree) (a : Bool) (fuel : ℕ) (n : Node) (key v : List ℕ)
      → WellAt a t
      → Loads resolve_hash n t
      → Walk a key true
      → 2 * length key + 2 ≤ fuel
      → Edits resolve_hash (insert resolve_hash fuel n key (value_node v)) a t key (some v)
  unfolding Loads WellAt Walk
  insert-Edits t a zero n key v well loads walk enough = absurd (omega (arith, enough))
  insert-Edits bare a (suc f) n key v well loads walk enough = rw loads (insert_bare f key v a walk)
  insert-Edits (leaf u) a (suc f) n key v well loads walk enough =
      rw (loads, well) (insert_leaf f u key v (subst (λ b. Walk b key true) well walk))
  insert-Edits (path [] t) a fuel n [] v (ends, long, leads, well) loads walk enough =
      absurd (omega (arith, long))
  insert-Edits (path (y ∷ p) t) a fuel n [] v (ends, long, leads, well) loads walk enough =
      absurd (cc (leads.0, walk))
  insert-Edits (path p t) a fuel n (x ∷ key) v (ends, long, leads, well) (child, sees, loads) walk
        enough =
      insert_seen x key v a (path p t) (2 * length key + 3) fuel sees (child, inl refl, loads)
        (λ f much.
          insert_path p t a ends f child x key v long leads well loads
            (λ g rest w m. insert-Edits t ends g child rest v well loads w m) walk
            (omega (arith, much)))
        (omega (arith, enough))
  insert-Edits (branch children) a fuel n [] v (open_here, well) loads walk enough =
      absurd (cc (open_here, walk))
  insert-Edits (branch children) a fuel n (x ∷ key) v (open_here, well) (loaded, sees, loads)
        (_, small, walk) enough =
      rw open_here (
        insert_seen x key v false (branch children) (2 * length key + 3) fuel sees
          (loaded, inl refl, loads)
          (λ f much.
            insert_full children f loaded x key v loads well
              (λ g rest w m.
                insert-Edits (children x) (x == 16) g (loaded x) rest v (well x small)
                  (loads x small) w m)
              walk much)
          (omega (arith, enough)))
