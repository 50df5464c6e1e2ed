-- ===== src/Rlp/Encode.antt =====
-- rlp/encode.go: the byte-string and list writers. The pooled buffer is the list written so far.
use padi_chain.Base.{ℕ, ◌+◌, ◌%◌, ◌^◌, Bool, false, List, [], ◌∷◌, ◌++◌, ltb, if◌then◌else◌, length}
use padi_chain.Rlp.Uint.{put_uint}

-- `const EmptyString` and `const EmptyList`.
abbrev pub empty_string : ℕ
empty_string = 0x80

abbrev pub empty_list : ℕ
empty_list = 0xc0

-- `byte(n)` and `uint64(n)` keep the low bits.
abbrev pub to_byte : ℕ → ℕ
to_byte n = n % 256

-- writeHeader; `len` is Go's `length`.
unfoldable pub write_header : List ℕ → ℕ → ℕ → List ℕ
write_header buf len offset =
    if ltb len 56
    then buf ++ (to_byte (offset + to_byte len) ∷ [])
    else (let len_bytes = put_uint (len % 2 ^ 64) in
        (buf ++ (to_byte (offset + 55 + to_byte (length len_bytes)) ∷ [])) ++ len_bytes)

unfoldable pub write_list_header : List ℕ → ℕ → List ℕ
write_list_header buf payload_len = write_header buf payload_len 0xc0

-- `len(b) == 1 && b[0] < 0x80`
abbrev pub is_single : List ℕ → Bool
is_single [] = false
is_single (x ∷ []) = ltb x 0x80
is_single (x ∷ y ∷ b) = false

unfoldable pub write_bytes : List ℕ → List ℕ → List ℕ
write_bytes buf b = if is_single b then buf ++ b else write_header buf (length b) 0x80 ++ b

-- EncodeBytes
unfoldable pub encode_bytes : List ℕ → List ℕ
encode_bytes b = write_bytes [] b

-- `for _, it := range items { total += len(it) }`
unfoldable pub total_length : List (List ℕ) → ℕ
total_length [] = 0
total_length (item ∷ items) = length item + total_length items

-- `for _, it := range items { buf.Write(it) }`
unfoldable pub write_items : List ℕ → List (List ℕ) → List ℕ
write_items buf [] = buf
write_items buf (item ∷ items) = write_items (buf ++ item) items

-- EncodeList
unfoldable pub encode_list : List (List ℕ) → List ℕ
encode_list items = write_items (write_list_header [] (total_length items)) items
