-- ===== src/Rlp/Integers.antt =====
-- Integers on the wire: putUint under writeBytes, and Stream.Uint.
use padi_chain.Base.{
  ℕ, ◌^◌, ◌≤◌, ◌<◌, ◌≡◌, refl, List, [], ◌∷◌, ◌++◌, false, arith, length, All, All-append_inv, ok,
  >>=-eq-ok, Bool-cases, inl, inr,
}
use padi_chain.Rlp.Uint.{
  IsByte, Leads, put_uint, shift_in, put_uint-Leads, length-put_uint, shift_in-put_uint,
  put_uint-shift_in, shift_in-lt,
}
use padi_chain.Rlp.Encode.{is_single, write_header, write_bytes, encode_bytes}
use padi_chain.Rlp.Stream.{bytes, uint, uint_of, first_is_zero}
use padi_chain.Rlp.Strings.{bytes-encode_bytes, bytes-canonical}

Leads-first_is_zero : (b : List ℕ) → Leads b → first_is_zero b ≡ false
Leads-first_is_zero [] h = refl
Leads-first_is_zero (x ∷ b) h = ground arith

-- Every uint64 is read back from its encoding, with what follows it left over.
pub uint-put_uint :
    (v : ℕ) (rest : List ℕ) → v < 2 ^ 64 → uint (encode_bytes (put_uint v) ++ rest) ≡ ok (v, rest)
unfolding uint
uint-put_uint v rest h =
    rw (bytes-encode_bytes (put_uint v) rest (omega (arith, length-put_uint v))) (
      ground (
        arith,
        length-put_uint v,
        Leads-first_is_zero (put_uint v) (put_uint-Leads v h),
        shift_in-put_uint v h,
      ))

payload-IsByte : (b : List ℕ) → All IsByte (encode_bytes b) → All IsByte b
unfolding encode_bytes write_bytes
payload-IsByte b h = elim (Bool-cases (is_single b)) [
  | inl one ↦ rw one at h
  | inr multi ↦ (All-append_inv IsByte (write_header [] (length b) 0x80) b (rw multi at h)).1
]

canonical_payload :
    (b : List ℕ)
    → All IsByte b
    → length b ≤ 8
    → first_is_zero b ≡ false
    → put_uint (shift_in 0 b) ≡ b
unfolding shift_in put_uint
canonical_payload [] h l e = refl
canonical_payload (c ∷ b) h l e = put_uint-shift_in c b (ground arith) h (omega arith)

-- Whatever `Uint` accepts is the encoding of the uint64 that it returns, which has no other.
pub uint-canonical :
    (s : List ℕ) (v : ℕ) (rest : List ℕ)
    → All IsByte s
    → uint s ≡ ok (v, rest)
    → (s ≡ encode_bytes (put_uint v) ++ rest) × (v < 2 ^ 64)
unfolding uint
uint-canonical s v rest h e =
    let ((b, rest'), eb, f) = >>=-eq-ok (bytes s) (λ p. uint_of p) e in
    let short : length b ≤ 8 = ground arith in
    let lead : first_is_zero b ≡ false = ground arith in
    let ev : v ≡ shift_in 0 b = ground arith in
    let er : rest ≡ rest' = ground arith in
    let c = (bytes-canonical s b rest' h eb).0 in
    let hb = payload-IsByte b (All-append_inv IsByte (encode_bytes b) rest' (rw c at h)).0 in
    (rw (ev, er, canonical_payload b hb short lead) c, omega (arith, shift_in-lt b hb short, ev))
