-- ===== src/Rlp/Stream.antt =====
-- rlp/decode.go: Stream. The cursor `data, pos` is kept as `data[pos:]`, the bytes that remain: no
-- method looks back. A method returns its result and the stream that it leaves; on an error the
-- stream is where it was.
use padi_chain.Base.{
  ℕ, zero, suc, ◌+◌, ◌-◌, ◌%◌, ◌^◌, Bool, true, false, ◌&&◌, List, [], ◌∷◌, ◌++◌, ltb, leb, ◌==◌,
  if◌then◌else◌, length, take, drop, Result, ok, err, panic, ◌>>=◌, ◌>>◌,
}
use padi_chain.Rlp.Uint.{max_int, shift_in, byte_len}

-- The package's error values that these methods return.
pub data Error : Type 0 where
  unexpected_eof expected_string expected_list canon_int canon_size oversized_length : Error
  trailing_data value_too_large : Error

pub data Kind : Type 0 where
  byte string list : Kind

abbrev pub Outcome : Type 0 → Type 0
Outcome A = Result Error A

abbrev pub guard : Bool → Error → Outcome (Unit {0})
guard true e = ok tt
guard false e = err e

abbrev pub first_is_zero : List ℕ → Bool
first_is_zero [] = false
first_is_zero (x ∷ raw) = x == 0

-- peekLength; `after` is what follows the prefix byte, so Remaining() is `suc (length after)`.
unfoldable pub peek_length : List ℕ → ℕ → Outcome ℕ
peek_length after len_of_len = do
  guard (leb len_of_len 8) oversized_length
  guard (leb (1 + len_of_len) (suc (length after))) unexpected_eof
  let raw = take len_of_len after
  guard (if first_is_zero raw then false else true) canon_size
  let size = shift_in 0 raw
  guard (leb 56 size) canon_size
  guard (leb size max_int) oversized_length
  ok size

-- Stream.Kind
unfoldable pub kind : List ℕ → Outcome (Kind × ℕ)
kind [] = err unexpected_eof
kind (b ∷ after) =
    if ltb b 0x80
    then ok (byte, 1)
    else if ltb b 0xb8
    then ok (string, b - 0x80)
    else if ltb b 0xc0
    then (do size ← peek_length after (b - 0xb7); ok (string, size))
    else if ltb b 0xf8
    then ok (list, b - 0xc0)
    else (do size ← peek_length after (b - 0xf7); ok (list, size))

-- headerSize
unfoldable pub header_size : Kind → ℕ → ℕ
header_size byte size = 0
header_size string size = if ltb size 56 then 1 else 1 + byte_len size
header_size list size = if ltb size 56 then 1 else 1 + byte_len size

abbrev pub first_below_0x80 : List ℕ → Bool
first_below_0x80 [] = false
first_below_0x80 (x ∷ b) = ltb x 0x80

-- `uint64(s.Remaining()) < uint64(hdr)+size` and the slice between header and end.
abbrev pub fits : List ℕ → ℕ → ℕ → Bool
fits s hdr size = leb ((hdr + size) % 2 ^ 64) (length s)

abbrev pub bytes_of : List ℕ → Kind × ℕ → Outcome (List ℕ × List ℕ)
bytes_of s (list, size) = err expected_string
bytes_of s (byte, size) = ok (take 1 s, drop 1 s)
bytes_of s (string, size) = do
  let hdr = header_size string size
  guard (fits s hdr size) unexpected_eof
  let payload = drop hdr s
  guard (if (size == 1) && first_below_0x80 payload then false else true) canon_size
  ok (take size payload, drop size payload)

-- Stream.Bytes
unfoldable pub bytes : List ℕ → Outcome (List ℕ × List ℕ)
bytes s = kind s >>= bytes_of s

abbrev pub item_length : Kind → ℕ → ℕ
item_length byte size = 1
item_length string size = header_size string size + size
item_length list size = header_size list size + size

-- `total` is a signed 64-bit int: past 2^63 - 1 it is negative, so it passes the test
-- against Remaining() and the slice expression `s.data[s.pos : s.pos+total]` panics.
abbrev pub raw_of : List ℕ → Kind × ℕ → Outcome (List ℕ × List ℕ)
raw_of s (k, size) =
    let total = item_length k size in
    if ltb max_int total
    then panic
    else if ltb (length s) total
    then err unexpected_eof
    else ok (take total s, drop total s)

-- Stream.Raw
unfoldable pub raw : List ℕ → Outcome (List ℕ × List ℕ)
raw s = kind s >>= raw_of s

abbrev pub list_of : List ℕ → Kind × ℕ → Outcome (List ℕ × List ℕ)
list_of s (byte, size) = err expected_list
list_of s (string, size) = err expected_list
list_of s (list, size) = do
  let hdr = header_size list size
  guard (fits s hdr size) unexpected_eof
  let payload = drop hdr s
  ok (take size payload, drop size payload)

-- Stream.List: the stream over the elements, and the stream behind the list.
unfoldable pub enter_list : List ℕ → Outcome (List ℕ × List ℕ)
enter_list s = kind s >>= list_of s

abbrev pub uint_of : List ℕ × List ℕ → Outcome (ℕ × List ℕ)
uint_of (b, rest) = do
  guard (leb (length b) 8) value_too_large
  guard (if first_is_zero b then false else true) canon_int
  ok (shift_in 0 b, rest)

-- Stream.Uint
unfoldable pub uint : List ℕ → Outcome (ℕ × List ℕ)
uint s = bytes s >>= uint_of

-- The loop of Split: `fuel` bounds the items, each of which takes a byte at least.
unfoldable pub split_loop : ℕ → List ℕ → List (List ℕ) → Outcome (List (List ℕ))
split_loop fuel [] out = ok out
split_loop zero (b ∷ inner) out = panic
split_loop (suc fuel) (b ∷ inner) out = do
  (item, inner') ← raw (b ∷ inner)
  split_loop fuel inner' (out ++ (item ∷ []))

-- Split
unfoldable pub split : List ℕ → Outcome (List (List ℕ))
split s = do (inner, _) ← enter_list s; split_loop (length inner) inner []

-- Decode into a []byte and into a uint64: the top-level item, with nothing behind it.
unfoldable pub decode_bytes : List ℕ → Outcome (List ℕ)
decode_bytes s = do (b, rest) ← bytes s; guard (length rest == 0) trailing_data; ok b

unfoldable pub decode_uint : List ℕ → Outcome ℕ
decode_uint s = do (v, rest) ← uint s; guard (length rest == 0) trailing_data; ok v
