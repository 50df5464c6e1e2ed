-- ===== src/Rlp/Header.antt =====
-- Headers: what write_header writes, Kind and peekLength read back, and the other way round.
use padi_chain.Base.{
  ℕ, suc, ◌+◌, ◌-◌, ◌%◌, ◌^◌, ◌≤◌, ◌<◌, ◌≡◌, refl, sym, ap, ◌∙◌, List, [], ◌∷◌, ◌++◌, false, arith,
  ltb, ◌>>=◌, ◌⊎◌, lt→ltb, ge→ltb, if◌then◌else◌, length, length-append, take, drop, take_append,
  take-append-drop, All, All-take, ok, Bool-cases, inl, inr, length-take,
}
use padi_chain.Rlp.Uint.{
  max_int, IsByte, Leads, put_uint, shift_in, byte_len, put_uint-Leads, length-put_uint,
  byte_len-put_uint, shift_in-put_uint, put_uint-shift_in,
}
use padi_chain.Rlp.Encode.{write_header}
use padi_chain.Rlp.Stream.{string, list, first_is_zero, peek_length, kind, header_size}

shift_in_nonempty : (l : List ℕ) → 0 < shift_in 0 l → 0 < length l
unfolding shift_in
shift_in_nonempty [] h = h
shift_in_nonempty (x ∷ l) h = omega arith

put_uint_nonempty : (n : ℕ) → 0 < n → n < 2 ^ 64 → 0 < length (put_uint n)
put_uint_nonempty n h l = shift_in_nonempty (put_uint n) (omega (arith, shift_in-put_uint n l))

Leads-first :
    (a b : List ℕ) → Leads a → 0 < length a → first_is_zero (take (length a) (a ++ b)) ≡ false
Leads-first [] b l h = absurd (omega arith)
Leads-first (x ∷ a) b l h = ground arith

-- The long form of a length that needs it is read back.
peek_length-put_uint :
    (n : ℕ) (rest : List ℕ)
    → 56 ≤ n
    → n ≤ max_int
    → peek_length (put_uint n ++ rest) (length (put_uint n)) ≡ ok n
unfolding peek_length
peek_length-put_uint n rest lo hi = ground (
  arith,
  take_append (put_uint n) rest,
  length-append (put_uint n) rest,
  length-put_uint n,
  shift_in-put_uint n (omega arith),
  Leads-first (put_uint n) rest (put_uint-Leads n (omega arith))
      (put_uint_nonempty n (omega arith) (omega arith)),
)

canonical_digits :
    (t : List ℕ)
    → All IsByte t
    → 0 < length t
    → length t ≤ 8
    → first_is_zero t ≡ false
    → t ≡ put_uint (shift_in 0 t)
canonical_digits [] b h l e = absurd (omega arith)
canonical_digits (c ∷ raw) b h l e = sym (put_uint-shift_in c raw (ground arith) b (omega arith))

-- What `peekLength` accepts is the minimal big-endian form of the length.
peek_length-canonical :
    (after : List ℕ) (l size : ℕ)
    → All IsByte after
    → 0 < l
    → peek_length after l ≡ ok size
    → (56 ≤ size) × (size ≤ max_int) × (l ≤ length after) × (take l after ≡ put_uint size)
unfolding peek_length
peek_length-canonical after l size b pos e =
    ground (arith, length-take l after, canonical_digits (take l after) (All-take IsByte l after b))

write_header_short :
    (n offset : ℕ) → n < 56 → offset ≤ 0xc0 → write_header [] n offset ≡ (offset + n) ∷ []
unfolding write_header
write_header_short n offset h o = ground arith

write_header_long :
    (n offset : ℕ)
    → 56 ≤ n
    → n ≤ max_int
    → offset ≤ 0xc0
    → write_header [] n offset ≡ (offset + 55 + length (put_uint n)) ∷ put_uint n
unfolding write_header
write_header_long n offset lo hi o =
    let small : n % 2 ^ 64 ≡ n = omega arith in rw small (ground (arith, length-put_uint n))

pub length-write_header :
    (n offset : ℕ)
    → n ≤ max_int
    → offset ≤ 0xc0
    → length (write_header [] n offset) ≡ (if ltb n 56 then 1 else 1 + byte_len n)
length-write_header n offset h o = elim (Bool-cases (ltb n 56)) [
  | inl short ↦ rw (short, write_header_short n offset (ground arith) o) refl
  | inr long ↦
      rw (long, write_header_long n offset (ground arith) h o) (omega (arith, byte_len-put_uint n))
]

kind_long_string :
    (l : ℕ) (after : List ℕ)
    → 0 < l
    → l ≤ 8
    → kind ((0x80 + 55 + l) ∷ after) ≡ (do size ← peek_length after l; ok (string, size))
unfolding kind
kind_long_string l after lo hi =
    let e : 0x80 + 55 + l - 0xb7 ≡ l = omega arith in rw e (ground arith)

kind_long_list :
    (l : ℕ) (after : List ℕ)
    → 0 < l
    → l ≤ 8
    → kind ((0xc0 + 55 + l) ∷ after) ≡ (do size ← peek_length after l; ok (list, size))
unfolding kind
kind_long_list l after lo hi = let e : 0xc0 + 55 + l - 0xf7 ≡ l = omega arith in rw e (ground arith)

module _ (n : ℕ) (rest : List ℕ) (h : n ≤ max_int) where
  pub kind-write_header_string : kind (write_header [] n 0x80 ++ rest) ≡ ok (string, n)
  kind-write_header_string = elim (Bool-cases (ltb n 56)) [
    | inl short ↦
        rw (write_header_short n 0x80 (ground arith) (omega arith)) (unfold kind in ground arith)
    | inr long ↦
        let pos = put_uint_nonempty n (ground arith) (omega arith) in
        rw (write_header_long n 0x80 (ground arith) h (omega arith)) (
          rw
            (
              kind_long_string _ (put_uint n ++ rest) pos (length-put_uint n),
              peek_length-put_uint n rest (ground arith) h,
            )
            refl)
  ]

  pub kind-write_header_list : kind (write_header [] n 0xc0 ++ rest) ≡ ok (list, n)
  kind-write_header_list = elim (Bool-cases (ltb n 56)) [
    | inl short ↦
        rw (write_header_short n 0xc0 (ground arith) (omega arith)) (unfold kind in ground arith)
    | inr long ↦
        let pos = put_uint_nonempty n (ground arith) (omega arith) in
        rw (write_header_long n 0xc0 (ground arith) h (omega arith)) (
          rw
            (
              kind_long_list _ (put_uint n ++ rest) pos (length-put_uint n),
              peek_length-put_uint n rest (ground arith) h,
            )
            refl)
  ]

-- A long header that `peekLength` accepts is the one that `writeHeader` writes.
long_canonical :
    (b offset l size : ℕ) (after : List ℕ)
    → All IsByte after
    → 0 < l
    → offset ≤ 0xc0
    → b ≡ offset + 55 + l
    → peek_length after l ≡ ok size
    → (56 ≤ size)
      × (size ≤ max_int)
      × (b ∷ after ≡ write_header [] size offset ++ drop (1 + byte_len size) (b ∷ after))
long_canonical b offset l size after bytes pos o eb e =
    let c = peek_length-canonical after l size bytes pos e in
    let len : length (put_uint size) ≡ l = ground (arith, c, length-take l after) in
    let head : b ≡ offset + 55 + length (put_uint size) = omega (arith, len) in
    let skip : 1 + byte_len size ≡ suc l = omega (arith, len, byte_len-put_uint size) in
    let split : after ≡ put_uint size ++ drop l after =
      sym (take-append-drop l after) ∙ ap (λ t. t ++ drop l after) c.3 in
    (c.0, c.1, rw (skip, write_header_long size offset c.0 c.1 o) (cong_cons head split))
  where
    cong_cons : {x y : ℕ} {p q : List ℕ} → x ≡ y → p ≡ q → x ∷ p ≡ y ∷ q
    cong_cons h k = cc

-- How `Kind` comes to answer a string, and a list: the short form or the long one.
kind_string_cases :
    (b size : ℕ) (after : List ℕ)
    → kind (b ∷ after) ≡ ok (string, size)
    → ((size < 56) × (b ≡ 0x80 + size))
      ⊎ ((0 < b - 0xb7) × (b ≡ 0x80 + 55 + (b - 0xb7)) × (peek_length after (b - 0xb7) ≡ ok size))
unfolding kind
kind_string_cases b size after e = ground arith

kind_list_cases :
    (b size : ℕ) (after : List ℕ)
    → b < 256
    → kind (b ∷ after) ≡ ok (list, size)
    → ((size < 56) × (b ≡ 0xc0 + size))
      ⊎ ((0 < b - 0xf7) × (b ≡ 0xc0 + 55 + (b - 0xf7)) × (peek_length after (b - 0xf7) ≡ ok size))
unfolding kind
kind_list_cases b size after h e = ground arith

short_canonical :
    (b offset size : ℕ) (after : List ℕ)
    → size < 56
    → offset ≤ 0xc0
    → b ≡ offset + size
    → b ∷ after ≡ write_header [] size offset ++ drop 1 (b ∷ after)
short_canonical b offset size after h o e = rw (write_header_short size offset h o) (cc e)

module _ (size : ℕ) where
  pub kind-canonical_string :
      (s : List ℕ)
      → All IsByte s
      → kind s ≡ ok (string, size)
      → (size ≤ max_int) × (s ≡ write_header [] size 0x80 ++ drop (header_size string size) s)
  unfolding header_size
  kind-canonical_string [] bytes e = unfold kind in cc
  kind-canonical_string (b ∷ after) bytes e = elim (kind_string_cases b size after e) [
    | inl (h, eb) ↦
        (omega arith, rw (lt→ltb size 56 h) (short_canonical b 0x80 size after h (omega arith) eb))
    | inr (pos, eb, p) ↦
        let c = long_canonical b 0x80 _ size after bytes.1 pos (omega arith) eb p in
        (c.1, rw (ge→ltb size 56 c.0) c.2)
  ]

  pub kind-canonical_list :
      (s : List ℕ)
      → All IsByte s
      → kind s ≡ ok (list, size)
      → (size ≤ max_int) × (s ≡ write_header [] size 0xc0 ++ drop (header_size list size) s)
  unfolding header_size
  kind-canonical_list [] bytes e = unfold kind in cc
  kind-canonical_list (b ∷ after) bytes e = elim (kind_list_cases b size after bytes.0 e) [
    | inl (h, eb) ↦
        (omega arith, rw (lt→ltb size 56 h) (short_canonical b 0xc0 size after h (omega arith) eb))
    | inr (pos, eb, p) ↦
        let c = long_canonical b 0xc0 _ size after bytes.1 pos (omega arith) eb p in
        (c.1, rw (ge→ltb size 56 c.0) c.2)
  ]
