-- ===== src/Trie/Compact.antt =====
-- trie/trie.go: the hex-prefix encoding of a path of nibbles, and its decoding.
use Prim.Native.Nat.{bit_and, bit_or}
use padi_chain.Base.{
  ℕ, zero, suc, ◌+◌, ◌*◌, ◌/◌, ◌%◌, ◌<◌, ◌≡◌, refl, ap, ap₂, ◌∙◌, Bool, true, false, ◌&&◌, List, [],
  ◌∷◌, ◌++◌, if◌then◌else◌, arith, length, ltb, ◌==◌, ==_iff, Result, ok, err, panic, ◌>>=◌, All,
}
use padi_chain.Base.{every_below, every_below_sound}
use padi_chain.Trie.Nodes.{Error, invalid_node, key_to_nibbles}

-- `x<<4 | y`
unfoldable pub pack : ℕ → ℕ → ℕ
pack x y = bit_or ((x * 16) % 256) y

-- Whether the terminator is last, and what stands before it.
unfoldable pub split_terminator : List ℕ → Bool × List ℕ
split_terminator [] = (false, [])
split_terminator (x ∷ []) = if x == 16 then (true, []) else (false, x ∷ [])
split_terminator (x ∷ y ∷ nibbles) =
    let (terminated, rest) = split_terminator (y ∷ nibbles) in (terminated, x ∷ rest)

-- The loop over pairs of nibbles, with its panic where one has no second.
unfoldable pub pack_pairs : List ℕ → Result Error (List ℕ)
pack_pairs [] = ok []
pack_pairs (x ∷ []) = panic
pack_pairs (x ∷ y ∷ nibbles) = pack_pairs nibbles >>= λ packed. ok (pack x y ∷ packed)

unfoldable pub unpack_pairs : List ℕ → List ℕ
unpack_pairs [] = []
unpack_pairs (c ∷ bytes) = (c / 16) ∷ bit_and c 15 ∷ unpack_pairs bytes

-- The first byte of a path, and the rest.
unfoldable pub pack_path : ℕ → List ℕ → Result Error (List ℕ)
pack_path flags nibbles =
    if length nibbles % 2 == 1
    then elim nibbles [
      | [] ↦ panic
      | x ∷ rest ↦ pack_pairs rest >>= λ packed. ok (pack flags x ∷ packed)
    ]
    else (pack_pairs nibbles >>= λ packed. ok ((flags * 16) % 256 ∷ packed))

unfoldable pub hex_prefix_encode : List ℕ → Result Error (List ℕ)
hex_prefix_encode path =
    let (terminated, nibbles) = split_terminator path in
    pack_path (2 * (if terminated then 1 else 0) + length nibbles % 2) nibbles

unfoldable pub hex_prefix_decode : List ℕ → Result Error (List ℕ)
hex_prefix_decode [] = err invalid_node
hex_prefix_decode (b ∷ bytes) =
    if ltb 3 (b / 16)
    then err invalid_node
    else ok (
        (if bit_and (b / 16) 1 == 0 then [] else bit_and b 15 ∷ [])
        ++ (unpack_pairs bytes ++ (if bit_and (b / 16) 2 == 0 then [] else 16 ∷ [])))

abbrev pub AllNibbles : List ℕ → Type 0
AllNibbles nibbles = All (λ x. x < 16) nibbles

abbrev pub end_of : Bool → List ℕ
end_of true = 16 ∷ []
end_of false = []

pack_table :
    every_below 16 (λ x. every_below 16 (λ y. (pack x y / 16 == x) && (bit_and (pack x y) 15 == y)))
    ≡ true
unfolding every_below pack
pack_table = refl

both : (a b : Bool) → (a && b) ≡ true → (a ≡ true) × (b ≡ true)
both a b h = ground (arith, h)

unpack-pack : (x y : ℕ) → x < 16 → y < 16 → (pack x y / 16 ≡ x) × (bit_and (pack x y) 15 ≡ y)
unpack-pack x y hx hy =
    let row =
      every_below_sound 16
        (λ x. every_below 16 (λ y. (pack x y / 16 == x) && (bit_and (pack x y) 15 == y))) x
        pack_table hx in
    let (high, low) =
      both _ _ (
        every_below_sound 16 (λ y. (pack x y / 16 == x) && (bit_and (pack x y) 15 == y)) y row
          hy) in
    ((==_iff _ _).0 high, (==_iff _ _).0 low)

split_terminator-append :
    (nibbles : List ℕ) (terminated : Bool)
    → AllNibbles nibbles
    → split_terminator (nibbles ++ end_of terminated) ≡ (terminated, nibbles)
unfolding split_terminator
split_terminator-append [] true small = refl
split_terminator-append [] false small = refl
split_terminator-append (x ∷ []) true small = refl
split_terminator-append (x ∷ []) false (small, _) = ground (arith, small)
split_terminator-append (x ∷ y ∷ nibbles) terminated (small, rest) =
    rw (split_terminator-append (y ∷ nibbles) terminated rest) refl

unpack_pairs-pack_pairs :
    (nibbles : List ℕ)
    → AllNibbles nibbles
    → length nibbles % 2 ≡ 0
    → (packed : List ℕ) × (pack_pairs nibbles ≡ ok packed) × (unpack_pairs packed ≡ nibbles)
unfolding pack_pairs unpack_pairs
unpack_pairs-pack_pairs [] small even = ([], refl, refl)
unpack_pairs-pack_pairs (x ∷ []) small even = absurd (omega (arith, even))
unpack_pairs-pack_pairs (x ∷ y ∷ nibbles) (hx, (hy, small)) even =
    let (packed, is, back) = unpack_pairs-pack_pairs nibbles small (omega (arith, even)) in
    let (high, low) = unpack-pack x y hx hy in
    (pack x y ∷ packed, rw is refl, rw (high, low, back) refl)

abbrev end_by : ℕ → List ℕ
end_by flags = if bit_and flags 2 == 0 then [] else 16 ∷ []

odd_back :
    (flags x : ℕ) (rest packed : List ℕ)
    → flags < 4
    → x < 16
    → (bit_and flags 1 == 0) ≡ false
    → unpack_pairs packed ≡ rest
    → hex_prefix_decode (pack flags x ∷ packed) ≡ ok (x ∷ rest ++ end_by flags)
unfolding hex_prefix_decode
odd_back flags x rest packed small hx odd back =
    let (high, low) = unpack-pack flags x (omega (arith, small)) hx in
    rw (high, low, odd, back, small_flags flags small) refl
  where
    small_flags : (flags : ℕ) → flags < 4 → ltb 3 flags ≡ false
    small_flags flags small = ground (arith, small)

even_back :
    (flags : ℕ) (rest packed : List ℕ)
    → flags < 4
    → (bit_and flags 1 == 0) ≡ true
    → unpack_pairs packed ≡ rest
    → hex_prefix_decode ((flags * 16) % 256 ∷ packed) ≡ ok (rest ++ end_by flags)
unfolding hex_prefix_decode
even_back flags rest packed small even back =
    rw (shifted flags small, even, back, small_flags flags small) refl
  where
    shifted : (flags : ℕ) → flags < 4 → (flags * 16) % 256 / 16 ≡ flags
    shifted flags small = omega (arith, small)

    small_flags : (flags : ℕ) → flags < 4 → ltb 3 flags ≡ false
    small_flags flags small = ground (arith, small)

-- The flags of a path of odd length, and of one of even length.
abbrev Back : ℕ → List ℕ → Bool → Type 0
Back flags nibbles terminated =
    (packed : List ℕ) × (pack_path flags nibbles ≡ ok packed)
    × (hex_prefix_decode packed ≡ ok (nibbles ++ end_of terminated))

pack_path_odd :
    (flags x : ℕ) (rest packed : List ℕ)
    → length (x ∷ rest) % 2 ≡ 1
    → pack_pairs rest ≡ ok packed
    → pack_path flags (x ∷ rest) ≡ ok (pack flags x ∷ packed)
unfolding pack_path
pack_path_odd flags x rest packed parity is = rw (parity, is) refl

pack_path_even :
    (flags : ℕ) (nibbles packed : List ℕ)
    → length nibbles % 2 ≡ 0
    → pack_pairs nibbles ≡ ok packed
    → pack_path flags nibbles ≡ ok ((flags * 16) % 256 ∷ packed)
unfolding pack_path
pack_path_even flags nibbles packed parity is = rw (parity, is) refl

odd_path :
    (flags : ℕ) (nibbles : List ℕ) (terminated : Bool)
    → flags < 4
    → (bit_and flags 1 == 0) ≡ false
    → end_by flags ≡ end_of terminated
    → AllNibbles nibbles
    → length nibbles % 2 ≡ 1
    → Back flags nibbles terminated
odd_path flags [] terminated small odd ends nibble parity = absurd (omega (arith, parity))
odd_path flags (x ∷ rest) terminated small odd ends (hx, nibble) parity =
    let (packed, is, back) = unpack_pairs-pack_pairs rest nibble (omega (arith, parity)) in
    (
      pack flags x ∷ packed,
      pack_path_odd flags x rest packed parity is,
      odd_back flags x rest packed small hx odd back ∙ ap (λ e. ok (x ∷ rest ++ e)) ends,
    )

even_path :
    (flags : ℕ) (nibbles : List ℕ) (terminated : Bool)
    → flags < 4
    → (bit_and flags 1 == 0) ≡ true
    → end_by flags ≡ end_of terminated
    → AllNibbles nibbles
    → length nibbles % 2 ≡ 0
    → Back flags nibbles terminated
even_path flags nibbles terminated small even ends nibble parity =
    let (packed, is, back) = unpack_pairs-pack_pairs nibbles nibble parity in
    (
      (flags * 16) % 256 ∷ packed,
      pack_path_even flags nibbles packed parity is,
      even_back flags nibbles packed small even back ∙ ap (λ e. ok (nibbles ++ e)) ends,
    )

-- Every path of nibbles, with a terminator at its end or without one, is encoded without an index out of
-- range, and decodes from its encoding.
pub hex_prefix_decode-hex_prefix_encode :
    (nibbles : List ℕ) (terminated : Bool)
    → AllNibbles nibbles
    → (bytes : List ℕ) × (hex_prefix_encode (nibbles ++ end_of terminated) ≡ ok bytes)
      × (hex_prefix_decode bytes ≡ ok (nibbles ++ end_of terminated))
unfolding hex_prefix_encode
hex_prefix_decode-hex_prefix_encode nibbles terminated small =
    rw (split_terminator-append nibbles terminated small)
      (by_parity nibbles terminated (length nibbles % 2) refl (omega arith) small)
  where
    by_parity :
        (nibbles : List ℕ) (terminated : Bool) (odd : ℕ)
        → length nibbles % 2 ≡ odd
        → odd < 2
        → AllNibbles nibbles
        → Back (2 * (if terminated then 1 else 0) + odd) nibbles terminated
    by_parity nibbles true zero is less small =
        even_path 2 nibbles true (omega arith) refl refl small is
    by_parity nibbles false zero is less small =
        even_path 0 nibbles false (omega arith) refl refl small is
    by_parity nibbles true (suc zero) is less small =
        odd_path 3 nibbles true (omega arith) refl refl small is
    by_parity nibbles false (suc zero) is less small =
        odd_path 1 nibbles false (omega arith) refl refl small is
    by_parity nibbles terminated (suc (suc odd)) is less small = absurd (omega (arith, less))

-- nibblesToKey: a nibble without a second is dropped.
unfoldable pub join_pairs : List ℕ → List ℕ
join_pairs [] = []
join_pairs (x ∷ []) = []
join_pairs (x ∷ y ∷ nibbles) = pack x y ∷ join_pairs nibbles

unfoldable pub nibbles_to_key : List ℕ → List ℕ
nibbles_to_key nibbles = join_pairs (split_terminator nibbles).1

-- The nibbles of a key, without the terminator.
pairs_of : List ℕ → List ℕ
pairs_of [] = []
pairs_of (x ∷ key) = (x / 16) ∷ (x % 16) ∷ pairs_of key

pairs-terminated : (key : List ℕ) → key_to_nibbles key ≡ pairs_of key ++ end_of true
unfolding key_to_nibbles pairs_of
pairs-terminated [] = refl
pairs-terminated (x ∷ key) = ap (λ t. (x / 16) ∷ (x % 16) ∷ t) (pairs-terminated key)

pairs-AllNibbles : (key : List ℕ) → All (λ b. b < 256) key → AllNibbles (pairs_of key)
unfolding pairs_of
pairs-AllNibbles [] bytes = tt
pairs-AllNibbles (x ∷ key) (byte, bytes) =
    (omega (arith, byte), (omega arith, pairs-AllNibbles key bytes))

byte_table : every_below 256 (λ x. pack (x / 16) (x % 16) == x) ≡ true
unfolding every_below pack
byte_table = refl

join_pairs-pairs : (key : List ℕ) → All (λ b. b < 256) key → join_pairs (pairs_of key) ≡ key
unfolding join_pairs pairs_of
join_pairs-pairs [] bytes = refl
join_pairs-pairs (x ∷ key) (byte, bytes) =
    ap₂ (λ y t. y ∷ t)
      ((==_iff _ _).0 (every_below_sound 256 (λ y. pack (y / 16) (y % 16) == y) x byte_table byte))
      (join_pairs-pairs key bytes)

-- A key of bytes comes back from its nibbles.
pub nibbles_to_key-key_to_nibbles :
    (key : List ℕ) → All (λ b. b < 256) key → nibbles_to_key (key_to_nibbles key) ≡ key
unfolding nibbles_to_key
nibbles_to_key-key_to_nibbles key bytes =
    rw
      (
        pairs-terminated key,
        split_terminator-append (pairs_of key) true (pairs-AllNibbles key bytes),
      )
      (join_pairs-pairs key bytes)
