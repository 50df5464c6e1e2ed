-- ===== src/Rlp/Splitting.antt =====
-- Split and Raw on any input: what they return, and where Raw panics.
use padi_chain.Base.{
  ℕ, zero, suc, ◌+◌, ◌-◌, ◌^◌, ◌≤◌, ◌<◌, ◌≡◌, sym, ap, ◌∙◌, List, [], ◌∷◌, ◌++◌, ◌≢◌, arith, ltb,
  length, take, drop, take-append-drop, concat, concat-append, All, append_assoc, append-nil, ok,
  panic, >>=-eq-ok, Bool-cases, inl, inr,
}
use padi_chain.Rlp.Uint.{
  max_int, IsByte, put_uint, byte_len-put_uint, length-put_uint, put_uint-lt, pow_more,
}
use padi_chain.Rlp.Encode.{write_header, encode_list}
use padi_chain.Rlp.Stream.{
  Kind, byte, string, list, kind, header_size, raw, raw_of, item_length, enter_list, split_loop,
  split,
}
use padi_chain.Rlp.Header.{kind-write_header_string, kind-write_header_list}
use padi_chain.Rlp.Lists.{encode_list-concat, enter_list-canonical}

raw_of_partition :
    (s item rest : List ℕ) (p : Kind × ℕ) → raw_of s p ≡ ok (item, rest) → s ≡ item ++ rest
raw_of_partition s item rest (k, size) e =
    let total = item_length k size in
    let ei : item ≡ take total s = ground arith in
    let er : rest ≡ drop total s = ground arith in rw (ei, er) (sym (take-append-drop total s))

-- Raw cuts the input in two and loses nothing.
raw_partition : (s item rest : List ℕ) → raw s ≡ ok (item, rest) → s ≡ item ++ rest
unfolding raw
raw_partition s item rest e =
    let (p, ek, f) = >>=-eq-ok (kind s) (raw_of s) e in raw_of_partition s item rest p f

split_loop-concat :
    (fuel : ℕ) (inner : List ℕ) (out items : List (List ℕ))
    → split_loop fuel inner out ≡ ok items
    → concat items ≡ concat out ++ inner
unfolding split_loop
split_loop-concat fuel [] out items e =
    let same : items ≡ out = ground arith in rw same (sym (append-nil (concat out)))
split_loop-concat zero (b ∷ inner) out items e = cc
split_loop-concat (suc fuel) (b ∷ inner) out items e =
    let ((item, rest), er, f) =
      >>=-eq-ok (raw (b ∷ inner)) (λ p. split_loop fuel p.1 (out ++ (p.0 ∷ []))) e in
    split_loop-concat fuel rest (out ++ (item ∷ [])) items f
    ∙ ap (λ t. t ++ rest) (concat-append out (item ∷ []))
    ∙ append_assoc (concat out) (concat (item ∷ [])) rest
    ∙ ap (λ t. concat out ++ t)
        (ap (λ t. t ++ rest) (append-nil item) ∙ sym (raw_partition (b ∷ inner) item rest er))

-- What Split accepts is the list encoding of the items that it returns, and what followed the list.
pub split-canonical :
    (s : List ℕ) (items : List (List ℕ))
    → All IsByte s
    → split s ≡ ok items
    → (rest : List ℕ) × (s ≡ encode_list items ++ rest)
unfolding split
split-canonical s items h e =
    let ((inner, rest), ei, f) = >>=-eq-ok (enter_list s) (λ p. split_loop (length p.0) p.0 []) e in
    let payload = split_loop-concat (length inner) inner [] items f in
    (
      rest,
      rw
          (
            encode_list-concat items,
            payload,
            append_assoc (write_header [] (length inner) 0xc0) inner rest,
          )
          (enter_list-canonical s inner rest h ei),
    )

full : (l : ℕ) → l ≤ 8 → 2 ^ 56 < 256 ^ l → l ≡ 8
full l h e = elim (Bool-cases (ltb l 8)) [
  | inl small ↦
      let top : (7 - l) + l ≡ 7 = ground arith in
      let room : 256 ^ l ≤ 256 ^ 7 = rw top at (pow_more (7 - l) l) in absurd (omega arith)
  | inr big ↦ ground arith
]

long_length : (n : ℕ) → 2 ^ 56 ≤ n → n < 2 ^ 64 → length (put_uint n) ≡ 8
long_length n lo hi =
    full (length (put_uint n)) (length-put_uint n) (omega (arith, put_uint-lt n hi))

-- A string or list header that announces a payload within nine bytes of the largest int makes
-- Raw panic: the total wraps to a negative int, which passes the length test.
pub raw_panics :
    (n : ℕ) (rest : List ℕ)
    → max_int - 9 < n
    → n ≤ max_int
    → (raw (write_header [] n 0x80 ++ rest) ≡ panic)
      × (raw (write_header [] n 0xc0 ++ rest) ≡ panic)
unfolding raw header_size
raw_panics n rest lo hi =
    let eight = long_length n (omega arith) (omega arith) in
    (
      rw (kind-write_header_string n rest hi) (ground (arith, byte_len-put_uint n, eight)),
      rw (kind-write_header_list n rest hi) (ground (arith, byte_len-put_uint n, eight)),
    )

total_in_range :
    (s : List ℕ) (k : Kind) (size : ℕ) → size ≤ max_int - 9 → raw_of s (k, size) ≢ panic
unfolding header_size
total_in_range s byte size h = ground arith
total_in_range s string size h = ground (arith, byte_len-put_uint size, length-put_uint size)
total_in_range s list size h = ground (arith, byte_len-put_uint size, length-put_uint size)

-- Raw panics on no other input: where it panics, the announced payload is within nine bytes of
-- the largest int.
pub raw_panic_only :
    (s : List ℕ) {k : Kind} {size : ℕ} → kind s ≡ ok (k, size) → size ≤ max_int - 9 → raw s ≢ panic
unfolding raw header_size
raw_panic_only s {k} {size} e h = rw e (total_in_range s k size h)
