-- ===== src/Trie/Paths.antt =====
-- trie/trie.go: keys as nibbles behind which a terminator stands, and their comparison.
use padi_chain.Base.{
  ℕ, ◌≤◌, ◌≡◌, inl, inr, refl, sym, ap, ◌∙◌, Bool, true, false, List, [], ◌∷◌, ◌++◌, some, ◌==◌,
  ==_iff, arith, Bool-cases,
}
use padi_chain.Trie.Nodes.{strip, bytes_equal, common_prefix}

-- A path of nibbles, from behind a terminator or not to behind one or not; nothing follows one.
unfoldable pub Walk : Bool → List ℕ → Bool → Type 0
Walk at_end [] ends = at_end ≡ ends
Walk at_end (x ∷ p) ends = (at_end ≡ false) × (x ≤ 16) × Walk (x == 16) p ends

pub Walk-append :
    (a : Bool) (p q : List ℕ) (m c : Bool) → Walk a p m → Walk m q c → Walk a (p ++ q) c
unfolding Walk
Walk-append a [] q m c first second = rw first second
Walk-append a (x ∷ p) q m c (open_here, small, rest) second =
    (open_here, small, Walk-append (x == 16) p q m c rest second)

-- Behind a path that a walk starts with, the walk goes on.
pub Walk-append_inv :
    (a : Bool) (p q : List ℕ) (m c : Bool) → Walk a p m → Walk a (p ++ q) c → Walk m q c
unfolding Walk
Walk-append_inv a [] q m c first whole = rw⁻¹ first whole
Walk-append_inv a (x ∷ p) q m c first whole = Walk-append_inv (x == 16) p q m c first.2 whole.2

-- A walk splits at any place.
pub Walk-append_split :
    (a : Bool) (p q : List ℕ) (c : Bool) → Walk a (p ++ q) c → (m : Bool) × Walk a p m × Walk m q c
unfolding Walk
Walk-append_split a [] q c whole = (a, refl, whole)
Walk-append_split a (x ∷ p) q c whole =
    let (m, first, second) = Walk-append_split (x == 16) p q c whole.2 in
    (m, (whole.0, whole.1, first), second)

pub Walk-unique : (a : Bool) (p : List ℕ) (m n : Bool) → Walk a p m → Walk a p n → m ≡ n
unfolding Walk
Walk-unique a [] m n first second = sym first ∙ second
Walk-unique a (x ∷ p) m n first second = Walk-unique (x == 16) p m n first.2 second.2

pub bytes_equal_self : (a : List ℕ) → bytes_equal a a ≡ true
unfolding bytes_equal
bytes_equal_self [] = refl
bytes_equal_self (x ∷ a) = ground (arith, bytes_equal_self a)

pub bytes_equal_eq : (a b : List ℕ) → bytes_equal a b ≡ true → a ≡ b
unfolding bytes_equal
bytes_equal_eq [] [] h = refl
bytes_equal_eq [] (y ∷ b) h = absurd (cc h)
bytes_equal_eq (x ∷ a) [] h = absurd (cc h)
bytes_equal_eq (x ∷ a) (y ∷ b) h = ground (arith, bytes_equal_eq a b, h)

pub bytes_equal-append : (s a b : List ℕ) → bytes_equal (s ++ a) (s ++ b) ≡ bytes_equal a b
unfolding bytes_equal
bytes_equal-append [] a b = refl
bytes_equal-append (x ∷ s) a b = ground (arith, bytes_equal-append s a b)

pub strip-append : (p rest : List ℕ) → strip p (p ++ rest) ≡ some rest
unfolding strip
strip-append [] rest = refl
strip-append (x ∷ p) rest = ground (arith, strip-append p rest)

pub strip-eq-some : (p key : List ℕ) {rest : List ℕ} → strip p key ≡ some rest → key ≡ p ++ rest
unfolding strip
strip-eq-some [] key h = cc h
strip-eq-some (x ∷ p) [] h = absurd (cc h)
strip-eq-some (x ∷ p) (y ∷ key) {rest} h = ground (arith, strip-eq-some p key {rest = rest}, h)

-- What commonPrefixLen finds: a shared path, and rests that start apart.
abbrev pub StartsApart : List ℕ → List ℕ → Type 0
StartsApart [] b = Unit
StartsApart (x ∷ a) [] = Unit
StartsApart (x ∷ a) (y ∷ b) = (x == y) ≡ false

pub common_prefix-StartsApart :
    (a b : List ℕ)
    → let r = common_prefix a b in (a ≡ r.0 ++ r.1) × (b ≡ r.0 ++ r.2) × StartsApart r.1 r.2
unfolding common_prefix
common_prefix-StartsApart [] b = (refl, refl, tt)
common_prefix-StartsApart (x ∷ a) [] = (refl, refl, tt)
common_prefix-StartsApart (x ∷ a) (y ∷ b) =
    let (ea, eb, apart) = common_prefix-StartsApart a b in
    elim (Bool-cases (x == y)) [
      | inl same ↦
          rw same (ap (λ t. x ∷ t) ea, rw ((==_iff x y).0 same) (ap (λ t. y ∷ t) eb), apart)
      | inr other ↦ rw other (refl, refl, other)
    ]
