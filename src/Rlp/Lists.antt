-- ===== src/Rlp/Lists.antt =====
-- Lists: EncodeList, Stream.List, Stream.Raw and Split.
use padi_chain.Base.{
  ℕ, zero, suc, ◌+◌, ◌-◌, ◌%◌, ◌^◌, ◌≤◌, ◌<◌, ◌≡◌, refl, sym, ap, ap₂, ◌∙◌, List, [], ◌∷◌, ◌++◌,
  true, arith, length, length-append, take, drop, take_append, drop_append, take-append-drop,
  concat, All, append_assoc, append-nil, ok, >>=-eq-ok, Bool-cases, inl, inr, length-drop,
  length-take,
}
use padi_chain.Rlp.Uint.{max_int, IsByte, byte_len-put_uint, length-put_uint}
use padi_chain.Rlp.Encode.{
  write_header, write_list_header, write_bytes, encode_bytes, is_single, total_length, write_items,
  encode_list,
}
use padi_chain.Rlp.Stream.{
  Kind, byte, string, list, kind, header_size, raw, raw_of, item_length, enter_list, list_of,
  split_loop, split,
}
use padi_chain.Rlp.Header.{
  length-write_header, kind-write_header_string, kind-write_header_list, kind-canonical_list,
}

write_items-concat :
    (buf : List ℕ) (items : List (List ℕ)) → write_items buf items ≡ buf ++ concat items
unfolding write_items
write_items-concat buf [] = sym (append-nil buf)
write_items-concat buf (item ∷ items) =
    write_items-concat (buf ++ item) items ∙ append_assoc buf item (concat items)

total_length-concat : (items : List (List ℕ)) → total_length items ≡ length (concat items)
unfolding total_length
total_length-concat [] = refl
total_length-concat (item ∷ items) =
    omega (arith, total_length-concat items, length-append item (concat items))

-- A list is a header over the concatenation of its items.
pub encode_list-concat :
    (items : List (List ℕ))
    → encode_list items ≡ write_header [] (length (concat items)) 0xc0 ++ concat items
unfolding encode_list write_list_header
encode_list-concat items = rw (write_items-concat, total_length-concat) refl

list_header_size-le : (n : ℕ) → header_size list n ≤ 9
unfolding header_size
list_header_size-le n = ground (arith, byte_len-put_uint n, length-put_uint n)

length-list_header : (n : ℕ) → n ≤ max_int → length (write_header [] n 0xc0) ≡ header_size list n
unfolding header_size
length-list_header n h = length-write_header n 0xc0 h (omega arith)

-- List returns the payload of an encoded list, and leaves what follows it.
pub enter_list-encode_list :
    (items : List (List ℕ)) (rest : List ℕ)
    → length (concat items) ≤ max_int
    → enter_list (encode_list items ++ rest) ≡ ok (concat items, rest)
unfolding enter_list
enter_list-encode_list items rest l =
    let p = concat items in
    let hdr = write_header [] (length p) 0xc0 in
    let e = length-list_header (length p) l in
    let room : (length hdr + length p) % 2 ^ 64 ≤ length (hdr ++ (p ++ rest)) = omega (
      arith,
      list_header_size-le (length p),
      length-append hdr (p ++ rest),
      length-append p rest,
      e,
    ) in
    rw
      (
        encode_list-concat items,
        append_assoc hdr p rest,
        kind-write_header_list (length p) (p ++ rest) l,
        ← e,
      )
      (rw (drop_append hdr (p ++ rest), take_append p rest, drop_append p rest) (ground arith))

list_canonical_cases :
    (s inner rest : List ℕ) (k : Kind) (size : ℕ)
    → All IsByte s
    → kind s ≡ ok (k, size)
    → list_of s (k, size) ≡ ok (inner, rest)
    → s ≡ write_header [] (length inner) 0xc0 ++ (inner ++ rest)
list_canonical_cases s inner rest byte size h k e = cc
list_canonical_cases s inner rest string size h k e = cc
list_canonical_cases s inner rest list size h k e =
    let (small, eq) = kind-canonical_list size s h k in
    let hdr = header_size list size in
    let payload = drop hdr s in
    let room : (hdr + size) % 2 ^ 64 ≤ length s = ground arith in
    let eb : inner ≡ take size payload = ground arith in
    let er : rest ≡ drop size payload = ground arith in
    let len : length inner ≡ size =
      ap length eb
      ∙ omega (arith, length-take size payload, length-drop hdr s, list_header_size-le size) in
    let whole : payload ≡ inner ++ rest =
      sym (take-append-drop size payload) ∙ ap₂ (λ x y. x ++ y) (sym eb) (sym er) in
    rw len (eq ∙ ap (λ t. write_header [] size 0xc0 ++ t) whole)

-- Whatever `List` accepts is a minimal header over the payload that it returns.
pub enter_list-canonical :
    (s inner rest : List ℕ)
    → All IsByte s
    → enter_list s ≡ ok (inner, rest)
    → s ≡ write_header [] (length inner) 0xc0 ++ (inner ++ rest)
unfolding enter_list
enter_list-canonical s inner rest h e =
    let ((k, size), ek, f) = >>=-eq-ok (kind s) (list_of s) e in
    list_canonical_cases s inner rest k size h ek f

-- An item that `Raw` takes whole, whatever follows it.
abbrev pub IsItem : List ℕ → Type 0
IsItem item = (rest : List ℕ) → raw (item ++ rest) ≡ ok (item, rest)

raw_of_take :
    (item rest : List ℕ) (k : Kind) (size : ℕ)
    → item_length k size ≡ length item
    → length item ≤ max_int
    → raw_of (item ++ rest) (k, size) ≡ ok (item, rest)
raw_of_take item rest k size e h =
    rw (e, take_append item rest, drop_append item rest) (ground (arith, length-append item rest))

string_item :
    (b rest : List ℕ)
    → length b ≤ max_int - 9
    → let item = write_header [] (length b) 0x80 ++ b in raw (item ++ rest) ≡ ok (item, rest)
unfolding raw
string_item b rest h =
    let n = length b in
    let hdr = write_header [] n 0x80 in
    let kinds : kind ((hdr ++ b) ++ rest) ≡ ok (string, n) =
      rw (append_assoc hdr b rest) (kind-write_header_string n (b ++ rest) (omega arith)) in
    let len : length hdr ≡ header_size string n =
      unfold header_size in length-write_header n 0x80 (omega arith) (omega arith) in
    let small : header_size string n ≤ 9 = unfold header_size in list_header_size-le n in
    let whole = length-append hdr b in
    rw kinds (
      raw_of_take (hdr ++ b) rest string n (omega (arith, len, whole))
        (omega (arith, len, whole, small)))

single_item : (b rest : List ℕ) → is_single b ≡ true → raw (b ++ rest) ≡ ok (b, rest)
unfolding raw kind
single_item [] rest h = cc
single_item (x ∷ []) rest h = rw h (ground arith)
single_item (x ∷ y ∷ b) rest h = cc

-- An encoded byte string is one item.
pub encode_bytes-IsItem : (b : List ℕ) → length b ≤ max_int - 9 → IsItem (encode_bytes b)
unfolding encode_bytes write_bytes
encode_bytes-IsItem b h rest = elim (Bool-cases (is_single b)) [
  | inl one ↦ rw one (single_item b rest one)
  | inr multi ↦ rw multi (string_item b rest h)
]

-- An encoded list is one item.
pub encode_list-IsItem :
    (items : List (List ℕ)) → length (concat items) ≤ max_int - 9 → IsItem (encode_list items)
unfolding raw
encode_list-IsItem items h rest =
    let b = concat items in
    let n = length b in
    let hdr = write_header [] n 0xc0 in
    let kinds : kind ((hdr ++ b) ++ rest) ≡ ok (list, n) =
      rw (append_assoc hdr b rest) (kind-write_header_list n (b ++ rest) (omega arith)) in
    let len = length-list_header n (omega arith) in
    let whole = length-append hdr b in
    rw (encode_list-concat items) (
      rw kinds (
        raw_of_take (hdr ++ b) rest list n (omega (arith, len, whole))
          (omega (arith, len, whole, list_header_size-le n))))

IsItem-nonempty : (item : List ℕ) → IsItem item → 0 < length item
IsItem-nonempty [] h = unfold raw kind in cc (h [])
IsItem-nonempty (x ∷ item) h = omega arith

-- One round of Split takes one item.
split_loop_step :
    (fuel : ℕ) (item rest : List ℕ) (out : List (List ℕ))
    → IsItem item
    → split_loop (suc fuel) (item ++ rest) out ≡ split_loop fuel rest (out ++ (item ∷ []))
unfolding split_loop
split_loop_step fuel [] rest out h = absurd (omega (arith, IsItem-nonempty [] h))
split_loop_step fuel (x ∷ item) rest out h = rw (h rest) refl

split_loop-items :
    (items : List (List ℕ)) (fuel : ℕ) (out : List (List ℕ))
    → All IsItem items
    → length (concat items) ≤ fuel
    → split_loop fuel (concat items) out ≡ ok (out ++ items)
split_loop-items [] fuel out h f = unfold split_loop in rw (append-nil out) refl
split_loop-items (item ∷ items) zero out h f =
    absurd (omega (arith, IsItem-nonempty item h.0, length-append item (concat items)))
split_loop-items (item ∷ items) (suc fuel) out h f =
    split_loop_step fuel item (concat items) out h.0
    ∙ split_loop-items items fuel (out ++ (item ∷ [])) h.1
        (omega (arith, IsItem-nonempty item h.0, length-append item (concat items)))
    ∙ ap ok (append_assoc out (item ∷ []) items)

-- Split returns the items that EncodeList was given, each of them whole.
pub split-encode_list :
    (items : List (List ℕ)) (rest : List ℕ)
    → All IsItem items
    → length (concat items) ≤ max_int
    → split (encode_list items ++ rest) ≡ ok items
unfolding split
split-encode_list items rest h l =
    rw (enter_list-encode_list items rest l)
      (split_loop-items items (length (concat items)) [] h (omega arith))
