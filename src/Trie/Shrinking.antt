-- ===== src/Trie/Shrinking.antt =====
-- trie/trie.go: short nodes in a row become one, and a branch with one child left a short node.
use padi_chain.Base.{
  ℕ, zero, suc, ◌≤◌, ◌<◌, ◌≡◌, inl, inr, refl, sym, ◌∙◌, Bool, true, false, List, [], ◌∷◌, ◌++◌,
  none, some, ◌==◌, ==_iff, arith, length, length-append, Result, ok, ◌>>=◌, Bool-cases,
  Option-cases,
}
use mathlib.Core.Path.{subst}
use padi_chain.Trie.Nodes.{
  Node, nil, value_node, short_node, full_node, hash_node, Error, join, is_nil, only_child, resolve,
  shrink, pull_up, strip,
}
use padi_chain.Trie.Paths.{Walk, Walk-append}
use padi_chain.Trie.Trees.{Tree, bare, leaf, path, branch, find, WellAt, Sees, Loads}
use padi_chain.Trie.Effects.{Same, find-path-path, reversed}

module _ (resolve_hash : ℕ → Result Error Node) where
  -- A node that is one trie, in place of another that holds the same.
  abbrev pub StandsFor : Node → Bool → Tree → Type 0
  StandsFor n a t = (u : Tree) × Loads resolve_hash n u × WellAt a u × Same a t u

  -- Two short nodes in a row become one.
  pub join-StandsFor :
      (p : List ℕ) (n : Node) (t : Tree) (a m : Bool)
      → 1 ≤ length p
      → Walk a p m
      → Loads resolve_hash n t
      → WellAt m t
      → StandsFor (join p n) a (path p t)
  unfolding join Loads WellAt
  join-StandsFor p n bare a m long leads loads well =
      (path p bare, rw loads (nil, inl refl, refl), (m, long, leads, tt), λ k w. refl)
  join-StandsFor p n (leaf v) a m long leads loads well = (
    path p (leaf v),
    rw loads (value_node v, inl refl, refl),
    (m, long, leads, well),
    λ k w. refl,
  )
  join-StandsFor p n (path q t) a m long leads (child, inl is, loads) (ends, _, on, well) = (
    path (p ++ q) t,
    rw is (child, inl refl, loads),
    (ends, omega (arith, long, length-append p q), Walk-append a p q m ends leads on, well),
    λ k w. sym (find-path-path p q t k),
  )
  join-StandsFor p n (path q t) a m long leads (child, inr (h, is, resolved), loads) well = (
    path p (path q t),
    rw is (hash_node h, inl refl, (child, inr (h, refl, resolved), loads)),
    (m, long, leads, well),
    λ k w. refl,
  )
  join-StandsFor p n (branch children) a m long leads (loaded, inl is, loads) well = (
    path p (branch children),
    rw is (full_node loaded, inl refl, (loaded, inl refl, loads)),
    (m, long, leads, well),
    λ k w. refl,
  )
  join-StandsFor p n (branch children) a m long leads (loaded, inr (h, is, resolved), loads) well =
      (
        path p (branch children),
        rw is (hash_node h, inl refl, (loaded, inr (h, refl, resolved), loads)),
        (m, long, leads, well),
        λ k w. refl,
      )

  -- No node is one where a trie holds something.
  nil_bare : (t : Tree) → Loads resolve_hash nil t → t ≡ bare
  unfolding Loads
  nil_bare bare loads = refl
  nil_bare (leaf v) loads = absurd (cc loads)
  nil_bare (path p t) (child, inl is, loads) = absurd (cc is)
  nil_bare (path p t) (child, inr (h, is, _), loads) = absurd (cc is)
  nil_bare (branch children) (loaded, inl is, loads) = absurd (cc is)
  nil_bare (branch children) (loaded, inr (h, is, _), loads) = absurd (cc is)

  is_nil_eq : (n : Node) → is_nil n ≡ true → n ≡ nil
  unfolding is_nil
  is_nil_eq nil h = refl
  is_nil_eq (value_node v) h = absurd (cc h)
  is_nil_eq (short_node p n) h = absurd (cc h)
  is_nil_eq (full_node c) h = absurd (cc h)
  is_nil_eq (hash_node n) h = absurd (cc h)

  -- What the loop over the children finds: the one that is there is the only one.
  only_child_more :
      (k : ℕ) (children : ℕ → Node) (i j : ℕ)
      → only_child k children (some i) ≡ some j
      → (i ≡ j) × ((y : ℕ) → y < k → children y ≡ nil)
  unfolding only_child
  only_child_more zero children i j found =
      (ground (arith, found), λ y small. absurd (omega (arith, small)))
  only_child_more (suc k) children i j found = elim (Bool-cases (is_nil (children k))) [
    | inl there ↦
        let (same, below) = only_child_more k children i j (rw there at found) in
        (
          same,
          λ y small. elim (Bool-cases (y == k)) [
            | inl is ↦ rw ((==_iff y k).0 is) (is_nil_eq (children k) there)
            | inr other ↦ below y (ground (arith, other, small))
          ],
        )
    | inr gone ↦ absurd (cc (rw gone at found))
  ]

  only_child_one :
      (k : ℕ) (children : ℕ → Node) (j : ℕ)
      → only_child k children none ≡ some j
      → (j < k) × ((y : ℕ) → y < k → (y == j) ≡ false → children y ≡ nil)
  unfolding only_child
  only_child_one zero children j found = absurd (cc found)
  only_child_one (suc k) children j found = elim (Bool-cases (is_nil (children k))) [
    | inl there ↦
        let (inside, below) = only_child_one k children j (rw there at found) in
        (
          omega (arith, inside),
          λ y small apart. elim (Bool-cases (y == k)) [
            | inl is ↦ rw ((==_iff y k).0 is) (is_nil_eq (children k) there)
            | inr other ↦ below y (ground (arith, other, small)) apart
          ],
        )
    | inr here ↦
        let (same, below) = only_child_more k children k j (rw here at found) in
        (omega (arith, same), λ y small apart. below y (ground (arith, same, small, apart)))
  ]

  -- The child that is left, behind its nibble.
  pull_up-StandsFor :
      (i : ℕ) (n : Node) (t : Tree)
      → i ≤ 16
      → Loads resolve_hash n t
      → WellAt (i == 16) t
      → (m : Node) × ((resolve resolve_hash n >>= λ child. ok (pull_up i child n)) ≡ ok m)
        × StandsFor m false (path (i ∷ []) t)
  unfolding resolve pull_up Loads WellAt Walk
  pull_up-StandsFor i n bare small loads well = (
    short_node (i ∷ []) nil,
    rw loads refl,
    (
      path (i ∷ []) bare,
      (nil, inl refl, refl),
      (_, omega arith, (refl, small, refl), tt),
      λ k w. refl,
    ),
  )
  pull_up-StandsFor i n (leaf v) small loads well = (
    short_node (i ∷ []) (value_node v),
    rw loads refl,
    (
      path (i ∷ []) (leaf v),
      (value_node v, inl refl, refl),
      (_, omega arith, (refl, small, refl), well),
      λ k w. refl,
    ),
  )
  pull_up-StandsFor i n (path p t) small (child, sees, loads) (ends, long, leads, well) = (
    short_node (i ∷ p) child,
    pulled sees,
    (
      path (i ∷ p) t,
      (child, inl refl, loads),
      (ends, omega arith, (refl, small, leads), well),
      λ k w. sym (find-path-path (i ∷ []) p t k),
    ),
  )
    where
      pulled :
          Sees resolve_hash n (short_node p child)
          → (resolve resolve_hash n >>= λ child. ok (pull_up i child n))
            ≡ ok (short_node (i ∷ p) child)
      pulled (inl is) = rw is refl
      pulled (inr (h, is, resolved)) = rw (is, resolve, resolved) refl
  pull_up-StandsFor i n (branch children) small (loaded, sees, loads) well = (
    short_node (i ∷ []) n,
    pulled sees,
    (
      path (i ∷ []) (branch children),
      (n, inl refl, (loaded, sees, loads)),
      (_, omega arith, (refl, small, refl), well),
      λ k w. refl,
    ),
  )
    where
      pulled :
          Sees resolve_hash n (full_node loaded)
          → (resolve resolve_hash n >>= λ child. ok (pull_up i child n))
            ≡ ok (short_node (i ∷ []) n)
      pulled (inl is) = rw is refl
      pulled (inr (h, is, resolved)) = rw (is, resolve, resolved) refl

  -- A branch whose other children are empty holds what its one child does.
  one_child-Same :
      (children : ℕ → Tree) (i : ℕ)
      → ((y : ℕ) → y ≤ 16 → (y == i) ≡ false → children y ≡ bare)
      → Same false (branch children) (path (i ∷ []) (children i))
  unfolding find strip Walk
  one_child-Same children i others [] walk = absurd (cc walk)
  one_child-Same children i others (y ∷ k) (_, small, walk) = elim (Bool-cases (y == i)) [
    | inl same ↦ rw ((==_iff y i).0 same, find, strip, (==_iff i i).1 refl) refl
    | inr apart ↦ rw (find, strip, reversed i y apart, others y small apart) refl
  ]

  pub shrink-StandsFor :
      (loaded : ℕ → Node) (children : ℕ → Tree)
      → ((y : ℕ) → y ≤ 16 → Loads resolve_hash (loaded y) (children y))
      → ((y : ℕ) → y ≤ 16 → WellAt (y == 16) (children y))
      → (m : Node) × (shrink resolve_hash loaded (only_child 17 loaded none) ≡ ok m)
        × StandsFor m false (branch children)
  unfolding shrink Loads WellAt Walk
  shrink-StandsFor loaded children loads well = elim (Option-cases (only_child 17 loaded none)) [
    | inl more ↦ (
      full_node loaded,
      rw more refl,
      (branch children, (loaded, inl refl, loads), (refl, well), λ k w. refl),
    )
    | inr (i, one) ↦
        let (inside, gone) = only_child_one 17 loaded i one in
        let small : i ≤ 16 = omega (arith, inside) in
        let same = one_child-Same children i (λ y le apart. nil_bare (children y) (
          subst (λ n. Loads resolve_hash n (children y)) (gone y (omega (arith, le)) apart)
            (loads y le))) in
        elim (Bool-cases (i == 16)) [
          | inl last ↦
              let is = (==_iff i 16).0 last in
              (
                short_node (16 ∷ []) (loaded 16),
                rw (one, shrink, last) refl,
                (
                  path (16 ∷ []) (children 16),
                  (loaded 16, inl refl, loads 16 (omega arith)),
                  (_, omega arith, (refl, omega arith, refl), well 16 (omega arith)),
                  subst (λ j. Same false (branch children) (path (j ∷ []) (children j))) is same,
                ),
              )
          | inr inner ↦
              let (m, pulled, (u, loads', well', same')) =
                pull_up-StandsFor i (loaded i) (children i) small (loads i small) (well i small) in
              (m, rw (one, shrink, inner) pulled, (u, loads', well', λ k w. same' k w ∙ same k w))
        ]
  ]
