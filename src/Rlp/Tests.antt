-- ===== src/Rlp/Tests.antt =====
-- Runs of the codec on inputs that the Go tests use, and the theorems at concrete inputs.
use padi_chain.Base.{
  ℕ, ◌^◌, ◌<◌, ◌≤◌, ◌≡◌, refl, List, [], ◌∷◌, ◌++◌, arith, length, ok, err, panic, replicate,
}
use padi_chain.Rlp.Uint.{max_int, put_uint, put_uint_loop, shift_in}
use padi_chain.Rlp.Encode.{
  write_header, write_bytes, encode_bytes, encode_list, write_items, write_list_header,
  total_length,
}
use padi_chain.Rlp.Stream.{
  kind, header_size, bytes, raw, enter_list, uint, split, split_loop, canon_size, canon_int, string,
}
use padi_chain.Rlp.Strings.{bytes-canonical}
use padi_chain.Rlp.Integers.{uint-canonical}
use padi_chain.Rlp.Lists.{encode_bytes-IsItem, split-encode_list}
use padi_chain.Rlp.Splitting.{split-canonical, raw_panics}

abbrev dog : List ℕ
dog = 0x64 ∷ 0x6f ∷ 0x67 ∷ []

abbrev cat : List ℕ
cat = 0x63 ∷ 0x61 ∷ 0x74 ∷ []

encode_dog : encode_bytes dog ≡ 0x83 ∷ dog
unfolding encode_bytes write_bytes write_header
encode_dog = refl

encode_1024 : encode_bytes (put_uint 1024) ≡ 0x82 ∷ 0x04 ∷ 0x00 ∷ []
unfolding encode_bytes write_bytes write_header put_uint put_uint_loop
encode_1024 = refl

encode_of_strings :
    encode_list (encode_bytes cat ∷ encode_bytes dog ∷ [])
    ≡ 0xc8 ∷ 0x83 ∷ 0x63 ∷ 0x61 ∷ 0x74 ∷ 0x83 ∷ dog
unfolding encode_list write_list_header write_items total_length encode_bytes write_bytes
    write_header
encode_of_strings = refl

encode_long : length (encode_bytes (replicate 60 0x61)) ≡ 62
unfolding encode_bytes write_bytes write_header put_uint put_uint_loop
encode_long = refl

-- A single low byte behind a prefix is refused, and so is a padded integer.
bytes_padded : bytes (0x81 ∷ 0x05 ∷ []) ≡ err canon_size
unfolding bytes kind header_size
bytes_padded = refl

uint_padded : uint (0x82 ∷ 0x00 ∷ 0x05 ∷ []) ≡ err canon_int
unfolding uint bytes kind header_size
uint_padded = refl

bytes_of_string : bytes (0x83 ∷ 0x64 ∷ 0x6f ∷ 0x67 ∷ 9 ∷ []) ≡ ok (dog, 9 ∷ [])
unfolding bytes kind header_size
bytes_of_string = refl

uint_1024 : uint (0x82 ∷ 0x04 ∷ 0x00 ∷ []) ≡ ok (1024, [])
unfolding uint bytes kind header_size shift_in
uint_1024 = refl

split_of_strings :
    split (0xc8 ∷ 0x83 ∷ 0x63 ∷ 0x61 ∷ 0x74 ∷ 0x83 ∷ dog) ≡ ok ((0x83 ∷ cat) ∷ (0x83 ∷ dog) ∷ [])
unfolding split split_loop enter_list raw kind header_size
split_of_strings = refl

bytes-canonical_example :
    (0x83 ∷ 0x64 ∷ 0x6f ∷ 0x67 ∷ 9 ∷ [] ≡ encode_bytes dog ++ (9 ∷ [])) × (length dog ≤ max_int)
bytes-canonical_example =
    bytes-canonical (0x83 ∷ 0x64 ∷ 0x6f ∷ 0x67 ∷ 9 ∷ []) dog (9 ∷ []) (omega arith) bytes_of_string

uint-canonical_example :
    (0x82 ∷ 0x04 ∷ 0x00 ∷ [] ≡ encode_bytes (put_uint 1024) ++ []) × (1024 < 2 ^ 64)
uint-canonical_example = uint-canonical (0x82 ∷ 0x04 ∷ 0x00 ∷ []) 1024 [] (omega arith) uint_1024

split-encode_list_example :
    split (encode_list (encode_bytes cat ∷ encode_bytes dog ∷ []) ++ (1 ∷ []))
    ≡ ok (encode_bytes cat ∷ encode_bytes dog ∷ [])
unfolding encode_bytes write_bytes write_header
split-encode_list_example =
    split-encode_list (encode_bytes cat ∷ encode_bytes dog ∷ []) (1 ∷ [])
      (encode_bytes-IsItem cat (omega arith), (encode_bytes-IsItem dog (omega arith), tt))
      (omega arith)

split-canonical_example :
    (rest : List ℕ) × (0xc8 ∷ 0x83 ∷ 0x63 ∷ 0x61 ∷ 0x74 ∷ 0x83 ∷ dog
      ≡ encode_list ((0x83 ∷ cat) ∷ (0x83 ∷ dog) ∷ []) ++ rest)
split-canonical_example =
    split-canonical (0xc8 ∷ 0x83 ∷ 0x63 ∷ 0x61 ∷ 0x74 ∷ 0x83 ∷ dog)
      ((0x83 ∷ cat) ∷ (0x83 ∷ dog) ∷ []) (omega arith) split_of_strings

raw_panics_example :
    (raw (write_header [] max_int 0x80 ++ (1 ∷ [])) ≡ panic)
    × (raw (write_header [] max_int 0xc0 ++ (1 ∷ [])) ≡ panic)
raw_panics_example = raw_panics max_int (1 ∷ []) (omega arith) (omega arith)

kind_of_string : kind (0x83 ∷ dog) ≡ ok (string, 3)
unfolding kind
kind_of_string = refl
