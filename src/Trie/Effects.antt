-- ===== src/Trie/Effects.antt =====
-- trie/trie.go: what a change of a trie does to what it holds, part by part.
use padi_chain.Base.{
  ℕ, ◌≤◌, ◌≡◌, inl, inr, refl, ap, ◌∙◌, Bool, true, false, List, [], ◌∷◌, ◌++◌, Option, none, some,
  ◌==◌, ==_iff, append-nil, if◌then◌else◌, arith, length, Bool-cases, Option-cases,
}
use mathlib.Core.Path.{subst}
use padi_chain.Trie.Nodes.{strip, bytes_equal}
use padi_chain.Trie.Paths.{
  Walk, Walk-append_inv, strip-append, strip-eq-some, bytes_equal_self, bytes_equal_eq,
  bytes_equal-append, StartsApart,
}
use padi_chain.Trie.Trees.{Tree, bare, leaf, path, branch, find, WellAt}

-- Under one key a trie holds another value, or none; under the others it holds what it held.
abbrev pub Sets : Bool → Tree → List ℕ → Option (List ℕ) → Tree → Type 0
Sets at_end t key o t' =
    (k : List ℕ) → Walk at_end k true → find t' k ≡ (if bytes_equal k key then o else find t k)

-- Two tries that hold the same.
abbrev pub Same : Bool → Tree → Tree → Type 0
Same at_end t t' = (k : List ℕ) → Walk at_end k true → find t' k ≡ find t k

pub Sets-Same :
    (a : Bool) (t : Tree) (key : List ℕ) (o : Option (List ℕ)) (t' u u' : Tree)
    → Sets a t key o t'
    → Same a u t
    → Same a t' u'
    → Sets a u key o u'
Sets-Same a t key o t' u u' sets before after k walk =
    after k walk ∙ (sets k walk ∙ ap (λ f. if bytes_equal k key then o else f) (before k walk))

-- No key is longer than one that a walk ends with.
pub Walk-nil : (k : List ℕ) → Walk true k true → k ≡ []
unfolding Walk
Walk-nil [] walk = refl
Walk-nil (x ∷ k) walk = absurd (cc walk.0)

-- A path of no nibbles is left out.
unfoldable pub wrap : List ℕ → Tree → Tree
wrap [] t = t
wrap (x ∷ p) t = path (x ∷ p) t

pub find-wrap : (p : List ℕ) (t : Tree) (k : List ℕ) → find (wrap p t) k ≡ find (path p t) k
unfolding find wrap strip
find-wrap [] t k = refl
find-wrap (x ∷ p) t k = refl

pub wrap-WellAt :
    (a m : Bool) (p : List ℕ) (t : Tree) → Walk a p m → WellAt m t → WellAt a (wrap p t)
unfolding wrap Walk WellAt
wrap-WellAt a m [] t leads well = rw leads well
wrap-WellAt a m (x ∷ p) t leads well = (m, omega arith, leads, well)

pub find-path-path :
    (p q : List ℕ) (t : Tree) (k : List ℕ) → find (path p (path q t)) k ≡ find (path (p ++ q) t) k
unfolding find strip
find-path-path [] q t k = refl
find-path-path (x ∷ p) q t [] = refl
find-path-path (x ∷ p) q t (y ∷ k) = elim (Bool-cases (x == y)) [
  | inl same ↦ rw (find, strip, same) (find-path-path p q t k)
  | inr other ↦ rw (find, strip, other) refl
]

pub Sets-path :
    (a m : Bool) (p : List ℕ) (t : Tree) (rest : List ℕ) (o : Option (List ℕ)) (t' : Tree)
    → Walk a p m
    → Sets m t rest o t'
    → Sets a (path p t) (p ++ rest) o (path p t')
unfolding find
Sets-path a m p t rest o t' leads sets k walk = elim (Option-cases (strip p k)) [
  | inl parts ↦ elim (Bool-cases (bytes_equal k (p ++ rest))) [
    | inl same ↦ absurd (cc (parts, strip-append p rest, bytes_equal_eq k (p ++ rest) same))
    | inr other ↦ rw (find, parts, other) refl
  ]
  | inr (r, follows) ↦
      let is = strip-eq-some p k follows in
      rw (find, follows, is, bytes_equal-append p r rest)
        (sets r (Walk-append_inv a p r m true leads (subst (λ l. Walk a l true) is walk)))
]

-- The branch with another trie at a nibble.
unfoldable pub replaced : (ℕ → Tree) → ℕ → Tree → ℕ → Tree
replaced children x t y = if y == x then t else children y

pub Sets-branch :
    (children : ℕ → Tree) (x : ℕ) (rest : List ℕ) (o : Option (List ℕ)) (t' : Tree)
    → Sets (x == 16) (children x) rest o t'
    → Sets false (branch children) (x ∷ rest) o (branch (replaced children x t'))
unfolding find Walk bytes_equal replaced
Sets-branch children x rest o t' sets [] walk = absurd (cc walk)
Sets-branch children x rest o t' sets (y ∷ k) (_, small, walk) = elim (Bool-cases (y == x)) [
  | inl same ↦
      let is = (==_iff y x).0 same in
      rw (find, bytes_equal, replaced, same, is)
        (sets k (subst (λ z. Walk (z == 16) k true) is walk))
  | inr other ↦ rw (find, bytes_equal, replaced, other) refl
]

pub replaced-WellAt :
    (children : ℕ → Tree) (x : ℕ) (t' : Tree)
    → ((y : ℕ) → y ≤ 16 → WellAt (y == 16) (children y))
    → WellAt (x == 16) t'
    → (y : ℕ) → y ≤ 16
    → WellAt (y == 16) (replaced children x t' y)
unfolding replaced
replaced-WellAt children x t' all well y small = elim (Bool-cases (y == x)) [
  | inl same ↦ rw same (rw ((==_iff y x).0 same) well)
  | inr other ↦ rw other (all y small)
]

-- A trie with one value.
pub Sets-single :
    (a : Bool) (key v : List ℕ) → Walk a key true → Sets a bare key (some v) (path key (leaf v))
unfolding find
Sets-single a key v leads k walk = elim (Option-cases (strip key k)) [
  | inl parts ↦ elim (Bool-cases (bytes_equal k key)) [
    | inl same ↦ absurd (cc (parts, strip-append key [], append-nil key, bytes_equal_eq k key same))
    | inr other ↦ rw (find, parts, other) refl
  ]
  | inr (r, follows) ↦
      let is = strip-eq-some key k follows in
      let done =
        Walk-nil r (Walk-append_inv a key r true true leads (subst (λ l. Walk a l true) is walk)) in
      rw (find, follows, is, done, append-nil key, bytes_equal_self key) refl
]

-- Where two paths start apart, a branch stands before what is left of them.
unfoldable pub parted : ℕ → Tree → ℕ → Tree → ℕ → Tree
parted i t j u y = if y == j then u else (if y == i then t else bare)

pub reversed : (i y : ℕ) → (y == i) ≡ false → (i == y) ≡ false
reversed i y h = ground (arith, h)

pub Sets-parted :
    (i : ℕ) (p : List ℕ) (t : Tree) (j : ℕ) (rest v : List ℕ)
    → (i == j) ≡ false
    → Walk (j == 16) rest true
    → Sets false
        (path (i ∷ p) t)
        (j ∷ rest)
        (some v)
        (branch (parted i (wrap p t) j (wrap rest (leaf v))))
unfolding find Walk bytes_equal parted strip
Sets-parted i p t j rest v apart leads [] walk = absurd (cc walk)
Sets-parted i p t j rest v apart leads (y ∷ k) (_, small, walk) = elim (Bool-cases (y == j)) [
  | inl same ↦
      let is = (==_iff y j).0 same in
      rw (find, bytes_equal, parted, same, is, find, strip, apart, find-wrap rest (leaf v) k)
        (Sets-single (j == 16) rest v leads k (subst (λ z. Walk (z == 16) k true) is walk))
  | inr other ↦ elim (Bool-cases (y == i)) [
    | inl same ↦
        let is = (==_iff y i).0 same in
        rw
          (
            find,
            bytes_equal,
            parted,
            other,
            same,
            find-wrap p t k,
            is,
            find,
            strip,
            (==_iff i i).1 refl,
          )
          refl
    | inr another ↦
        rw (find, bytes_equal, parted, other, another, find, strip, reversed i y another) refl
  ]
]

-- A key that a trie does not hold is one to delete already.
pub Sets-absent : (a : Bool) (t : Tree) (key : List ℕ) → find t key ≡ none → Sets a t key none t
Sets-absent a t key nothing k walk = elim (Bool-cases (bytes_equal k key)) [
  | inl same ↦ rw (same, bytes_equal_eq k key same) nothing
  | inr other ↦ rw other refl
]

-- A path that starts apart from a key does not lead to it.
pub strip_apart :
    (s p rest : List ℕ) → 1 ≤ length p → StartsApart p rest → strip (s ++ p) (s ++ rest) ≡ none
unfolding strip
strip_apart [] [] rest long apart = absurd (omega (arith, long))
strip_apart [] (x ∷ p) [] long apart = refl
strip_apart [] (x ∷ p) (y ∷ rest) long apart = rw apart refl
strip_apart (z ∷ s) p rest long apart = ground (arith, strip_apart s p rest long apart)

-- What a path leads to alone goes with the path.
pub Sets-cut : (a : Bool) (p : List ℕ) (t : Tree) → Walk a p true → Sets a (path p t) p none bare
unfolding find
Sets-cut a p t leads k walk = elim (Option-cases (strip p k)) [
  | inl parts ↦
      rw (find, parts)
        (elim (Bool-cases (bytes_equal k p)) [
          | inl same ↦ rw same refl
          | inr other ↦ rw other refl
        ])
  | inr (r, follows) ↦
      let is = strip-eq-some p k follows in
      let done =
        Walk-nil r (Walk-append_inv a p r true true leads (subst (λ l. Walk a l true) is walk)) in
      rw (find, follows, is, done, append-nil p, bytes_equal_self p) refl
]

pub Sets-leaf :
    (u : List ℕ) (o : Option (List ℕ)) (t' : Tree) → find t' [] ≡ o → Sets true (leaf u) [] o t'
unfolding bytes_equal
Sets-leaf u o t' holds k walk = rw (Walk-nil k walk) holds
