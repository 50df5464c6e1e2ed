-- ===== src/Attest/Binding.antt =====
-- What a signed message binds: the bytes determine every field that went into them.
use padi_chain.Base.{
  ℕ, zero, suc, ◌+◌, ◌-◌, ◌*◌, ◌/◌, ◌%◌, ◌^◌, ◌≤◌, ◌<◌, ◌≡◌, ◌≢◌, refl, sym, ap, ◌∙◌, List, [], ◌∷◌,
  ◌++◌, arith, ltb, length, length-append, concat, All, map, Bool-cases, inl, inr, ok,
}
use padi_chain.Rlp.Uint.{
  max_int, put_uint, byte_len-put_uint, digits_of, digits_of_fuel, length-digits_of,
  length-put_uint, shift_in, shift_in-put_uint, value_of, value_of-append, value_of-digits_of,
}
use padi_chain.Rlp.Encode.{encode_bytes, write_bytes, write_header, is_single, encode_list}
use padi_chain.Rlp.Stream.{bytes, split}
use padi_chain.Rlp.Header.{length-write_header}
use padi_chain.Rlp.Strings.{bytes-encode_bytes}
use padi_chain.Rlp.Lists.{IsItem, encode_bytes-IsItem, split-encode_list}
use padi_chain.Attest.Message.{codes, fixed_bytes, big_bytes, attestation_message, randao_message}

pub encode_bytes-injective :
    (a b : List ℕ)
    → length a ≤ max_int
    → length b ≤ max_int
    → encode_bytes a ≡ encode_bytes b
    → a ≡ b
encode_bytes-injective a b ha hb e =
    let p = bytes-encode_bytes a [] ha in
    let q = bytes-encode_bytes b [] hb in
    let same : bytes (encode_bytes a ++ []) ≡ ok (b, []) = ap (λ t. bytes (t ++ [])) e ∙ q in
    ground (arith, p, same)

pub length-fixed_bytes : (k v : ℕ) → length (fixed_bytes k v) ≡ k
unfolding fixed_bytes
length-fixed_bytes zero v = refl
length-fixed_bytes (suc k) v = omega (
  arith,
  length-append (fixed_bytes k (v / 256)) ((v % 256) ∷ []),
  length-fixed_bytes k (v / 256),
)

pub value_of-fixed_bytes : (k v : ℕ) → v < 256 ^ k → value_of 0 (fixed_bytes k v) ≡ v
unfolding fixed_bytes value_of
value_of-fixed_bytes zero v h = omega arith
value_of-fixed_bytes (suc k) v h = ground (
  arith,
  value_of-append 0 (fixed_bytes k (v / 256)) ((v % 256) ∷ []),
  value_of-fixed_bytes k (v / 256),
)

lt_pow : (n : ℕ) → n < 256 ^ n
lt_pow zero = omega arith
lt_pow (suc n) = omega (arith, lt_pow n)

big_bytes_injective : (a b : ℕ) → big_bytes a ≡ big_bytes b → a ≡ b
unfolding big_bytes
big_bytes_injective a b e =
    sym (value_of-digits_of a a (lt_pow a)) ∙ ap (value_of 0) e ∙ value_of-digits_of b b (lt_pow b)

length-big_bytes : (n : ℕ) → n < 2 ^ 256 → length (big_bytes n) ≤ 32
unfolding big_bytes
length-big_bytes n h = elim (Bool-cases (ltb n 32)) [
  | inl small ↦ let h32 : n < 32 = ground arith in omega (arith, length-digits_of n n)
  | inr large ↦
      let split : (n - 32) + 32 ≡ n = ground arith in
      let same : digits_of n n ≡ digits_of 32 n =
        ap (λ t. digits_of t n) (sym split) ∙ digits_of_fuel (n - 32) 32 n (omega arith) in
      rw same (length-digits_of 32 n)
]

-- An item of at most 64 payload bytes.
small-IsItem : (b : List ℕ) → length b ≤ 64 → IsItem (encode_bytes b)
small-IsItem b h = encode_bytes-IsItem b (omega arith)

length-encode_bytes : (b : List ℕ) → length b ≤ 64 → length (encode_bytes b) ≤ 73
unfolding encode_bytes write_bytes
length-encode_bytes b h = elim (Bool-cases (is_single b)) [
  | inl one ↦ rw one (omega arith)
  | inr multi ↦
      let n = length b in
      rw multi (
        ground (
          arith,
          length-append (write_header [] n 0x80) b,
          length-write_header n 0x80,
          byte_len-put_uint n,
          length-put_uint n,
        ))
]

-- Short fields can be told apart again.
fields_injective :
    (items items' : List (List ℕ))
    → All IsItem items
    → All IsItem items'
    → length (concat items) ≤ max_int
    → length (concat items') ≤ max_int
    → encode_list items ≡ encode_list items'
    → items ≡ items'
fields_injective items items' h h' l l' e =
    let p = split-encode_list items [] h l in
    let q = split-encode_list items' [] h' l' in
    let same : split (encode_list items ++ []) ≡ ok items' = ap (λ t. split (t ++ [])) e ∙ q in
    ground (arith, p, same)

abbrev pub IsShort : List ℕ → Type 0
IsShort b = length b ≤ 64

items-IsItem : (fields : List (List ℕ)) → All IsShort fields → All IsItem (map encode_bytes fields)
items-IsItem [] h = tt
items-IsItem (b ∷ fields) h = (small-IsItem b h.0, items-IsItem fields h.1)

items_length :
    (fields : List (List ℕ))
    → All IsShort fields
    → length (concat (map encode_bytes fields)) ≤ 73 * length fields
items_length [] h = omega arith
items_length (b ∷ fields) h = omega (
  arith,
  items_length fields h.1,
  length-encode_bytes b h.0,
  length-append (encode_bytes b) (concat (map encode_bytes fields)),
)

map_injective :
    (fs gs : List (List ℕ))
    → All IsShort fs
    → All IsShort gs
    → map encode_bytes fs ≡ map encode_bytes gs
    → fs ≡ gs
map_injective [] [] hf hg e = refl
map_injective [] (g ∷ gs) hf hg e = cc
map_injective (f ∷ fs) [] hf hg e = cc
map_injective (f ∷ fs) (g ∷ gs) hf hg e =
    let first : f ≡ g = encode_bytes-injective f g (omega arith) (omega arith) (cc) in
    let later : fs ≡ gs = map_injective fs gs hf.1 hg.1 (cc) in cc (first, later)

-- An encoded list of short strings determines the strings.
pub fields_determined :
    (fs gs : List (List ℕ))
    → All IsShort fs
    → All IsShort gs
    → length fs ≤ 8
    → length gs ≤ 8
    → encode_list (map encode_bytes fs) ≡ encode_list (map encode_bytes gs)
    → fs ≡ gs
fields_determined fs gs hf hg lf lg e = map_injective fs gs hf hg (
    fields_injective (map encode_bytes fs) (map encode_bytes gs) (items-IsItem fs hf)
      (items-IsItem gs hg) (omega (arith, items_length fs hf)) (omega (arith, items_length gs hg))
      e)

put_uint_injective : (a b : ℕ) → a < 2 ^ 64 → b < 2 ^ 64 → put_uint a ≡ put_uint b → a ≡ b
put_uint_injective a b ha hb e =
    sym (shift_in-put_uint a ha) ∙ ap (shift_in 0) e ∙ shift_in-put_uint b hb

fixed_bytes_injective :
    (k a b : ℕ) → a < 256 ^ k → b < 256 ^ k → fixed_bytes k a ≡ fixed_bytes k b → a ≡ b
fixed_bytes_injective k a b ha hb e =
    sym (value_of-fixed_bytes k a ha) ∙ ap (value_of 0) e ∙ value_of-fixed_bytes k b hb

attestation_fields : ℕ → ℕ → ℕ → List (List ℕ)
attestation_fields chain_id number block_hash =
    codes "padi-chain/attestation/bls/v1"
    ∷ big_bytes chain_id
    ∷ put_uint number
    ∷ fixed_bytes 32 block_hash
    ∷ []

attestation_fields-IsShort :
    (chain_id number block_hash : ℕ)
    → chain_id < 2 ^ 256
    → All IsShort (attestation_fields chain_id number block_hash)
unfolding attestation_fields
attestation_fields-IsShort c n h hc =
    omega (arith, length-big_bytes c hc, length-put_uint n, length-fixed_bytes 32 h)

-- Two votes with the same signed bytes are for the same block, height and chain.
pub attestation_message_binds :
    (c c' n n' h h' : ℕ)
    → c < 2 ^ 256
    → c' < 2 ^ 256
    → n < 2 ^ 64
    → n' < 2 ^ 64
    → h < 2 ^ 256
    → h' < 2 ^ 256
    → attestation_message c n h ≡ attestation_message c' n' h'
    → (c ≡ c') × (n ≡ n') × (h ≡ h')
unfolding attestation_message attestation_fields
attestation_message_binds c c' n n' h h' hc hc' hn hn' hh hh' e =
    let same =
      fields_determined (attestation_fields c n h) (attestation_fields c' n' h')
        (attestation_fields-IsShort c n h hc) (attestation_fields-IsShort c' n' h' hc')
        (omega arith) (omega arith) e in
    (
      big_bytes_injective c c' (cc same),
      put_uint_injective n n' hn hn' (cc same),
      fixed_bytes_injective 32 h h' (omega arith) (omega arith) (cc same),
    )

-- No attestation is signed with the bytes of a RANDAO reveal.
pub randao_message_distinct :
    (c c' n h epoch : ℕ)
    → c < 2 ^ 256
    → c' < 2 ^ 256
    → attestation_message c n h ≢ randao_message c' epoch
unfolding attestation_message randao_message attestation_fields
randao_message_distinct c c' n h epoch hc hc' e =
    let fields : List (List ℕ) =
      codes "padi-chain/randao/v1" ∷ big_bytes c' ∷ put_uint epoch ∷ [] in
    let same =
      fields_determined (attestation_fields c n h) fields (attestation_fields-IsShort c n h hc)
        (omega (arith, length-big_bytes c' hc', length-put_uint epoch)) (omega arith) (omega arith)
        e in
    cc same
