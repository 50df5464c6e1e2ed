-- ===== src/Rlp/Strings.antt =====
-- Byte strings: EncodeBytes and Stream.Bytes are inverse to one another.
use padi_chain.Base.{
  ℕ, ◌+◌, ◌%◌, ◌^◌, ◌≤◌, ◌≡◌, refl, sym, ap, ap₂, ◌∙◌, List, [], ◌∷◌, ◌++◌, true, false, ◌&&◌,
  arith, ltb, ◌==◌, length, length-append, take, drop, take_append, drop_append, take-append-drop,
  All, append_assoc, ok, ◌>>=◌, >>=-eq-ok, Bool-cases, inl, inr, length-drop, length-take,
}
use padi_chain.Rlp.Uint.{max_int, IsByte, byte_len-put_uint, length-put_uint}
use padi_chain.Rlp.Encode.{write_header, write_bytes, encode_bytes, is_single}
use padi_chain.Rlp.Stream.{
  Kind, byte, string, list, kind, header_size, bytes, bytes_of, first_below_0x80,
}
use padi_chain.Rlp.Header.{length-write_header, kind-write_header_string, kind-canonical_string}

header_size-le : (n : ℕ) → header_size string n ≤ 9
unfolding header_size
header_size-le n = ground (arith, byte_len-put_uint n, length-put_uint n)

length-string_header :
    (n : ℕ) → n ≤ max_int → length (write_header [] n 0x80) ≡ header_size string n
unfolding header_size
length-string_header n h = length-write_header n 0x80 h (omega arith)

single_test : (b rest : List ℕ) → ((length b == 1) && first_below_0x80 (b ++ rest)) ≡ is_single b
single_test [] rest = refl
single_test (x ∷ []) rest = refl
single_test (x ∷ y ∷ b) rest = ground arith

single_read :
    (b rest : List ℕ)
    → is_single b ≡ true
    → (kind (b ++ rest) >>= bytes_of (b ++ rest)) ≡ ok (b, rest)
unfolding kind
single_read [] rest h = cc
single_read (x ∷ []) rest h = rw h refl
single_read (x ∷ y ∷ b) rest h = cc

-- `bytes_of` on a string whose header is `hdr` and whose payload is `b`.
bytes_of_string :
    (hdr b rest : List ℕ)
    → length b ≤ max_int
    → length hdr ≡ header_size string (length b)
    → is_single b ≡ false
    → bytes_of (hdr ++ (b ++ rest)) (string, length b) ≡ ok (b, rest)
bytes_of_string hdr b rest l e multi =
    let room : (length hdr + length b) % 2 ^ 64 ≤ length (hdr ++ (b ++ rest)) =
      omega (
        arith,
        header_size-le (length b),
        length-append hdr (b ++ rest),
        length-append b rest,
        e,
      ) in
    rw (← e) (
      rw
        (
          drop_append hdr (b ++ rest),
          take_append b rest,
          drop_append b rest,
          single_test b rest,
          multi,
        )
        (ground arith))

-- A byte string is read back from its encoding, with what follows it left over.
pub bytes-encode_bytes :
    (b rest : List ℕ) → length b ≤ max_int → bytes (encode_bytes b ++ rest) ≡ ok (b, rest)
unfolding bytes encode_bytes write_bytes
bytes-encode_bytes b rest l = elim (Bool-cases (is_single b)) [
  | inl one ↦ rw one (single_read b rest one)
  | inr multi ↦
      let hdr = write_header [] (length b) 0x80 in
      rw (multi, append_assoc hdr b rest, kind-write_header_string (length b) (b ++ rest) l)
        (bytes_of_string hdr b rest l (length-string_header (length b) l) multi)
]

bytes_of_string-canonical :
    (s b rest : List ℕ) (size : ℕ)
    → size ≤ max_int
    → s ≡ write_header [] size 0x80 ++ drop (header_size string size) s
    → bytes_of s (string, size) ≡ ok (b, rest)
    → (s ≡ encode_bytes b ++ rest) × (length b ≤ max_int)
unfolding encode_bytes write_bytes
bytes_of_string-canonical s b rest size small eq e =
    let hdr = header_size string size in
    let payload = drop hdr s in
    let room : (hdr + size) % 2 ^ 64 ≤ length s = ground arith in
    let multi : ((size == 1) && first_below_0x80 payload) ≡ false = ground arith in
    let eb : b ≡ take size payload = ground arith in
    let er : rest ≡ drop size payload = ground arith in
    let len : length b ≡ size =
      ap length eb
      ∙ omega (arith, length-take size payload, length-drop hdr s, header_size-le size) in
    let whole : payload ≡ b ++ rest =
      sym (take-append-drop size payload) ∙ ap₂ (λ x y. x ++ y) (sym eb) (sym er) in
    let single : is_single b ≡ false = sym (single_test b rest) ∙ rw (← whole, len) multi in
    (
      rw (single, len, append_assoc (write_header [] size 0x80) b rest)
          (eq ∙ ap (λ t. write_header [] size 0x80 ++ t) whole),
      omega (arith, len),
    )

byte_canonical :
    (x : ℕ) (after b rest : List ℕ) (size : ℕ)
    → kind (x ∷ after) ≡ ok (byte, size)
    → bytes_of (x ∷ after) (byte, size) ≡ ok (b, rest)
    → (x ∷ after ≡ encode_bytes b ++ rest) × (length b ≤ max_int)
unfolding kind encode_bytes write_bytes
byte_canonical x after b rest size k e =
    let eb : b ≡ x ∷ [] = ground arith in
    let er : rest ≡ after = ground arith in
    let low : ltb x 0x80 ≡ true = ground arith in rw (eb, er, low) (refl, omega arith)

bytes_canonical_cases :
    (s b rest : List ℕ) (k : Kind) (size : ℕ)
    → All IsByte s
    → kind s ≡ ok (k, size)
    → bytes_of s (k, size) ≡ ok (b, rest)
    → (s ≡ encode_bytes b ++ rest) × (length b ≤ max_int)
bytes_canonical_cases [] b rest byte size h k e = unfold kind in cc
bytes_canonical_cases (x ∷ after) b rest byte size h k e = byte_canonical x after b rest size k e
bytes_canonical_cases s b rest string size h k e =
    let c = kind-canonical_string size s h k in bytes_of_string-canonical s b rest size c.0 c.1 e
bytes_canonical_cases s b rest list size h k e = cc

-- Whatever `Bytes` accepts is the encoding of what it returns: there is one encoding only.
pub bytes-canonical :
    (s b rest : List ℕ)
    → All IsByte s
    → bytes s ≡ ok (b, rest)
    → (s ≡ encode_bytes b ++ rest) × (length b ≤ max_int)
unfolding bytes
bytes-canonical s b rest h e =
    let ((k, size), ek, f) = >>=-eq-ok (kind s) (bytes_of s) e in
    bytes_canonical_cases s b rest k size h ek f
