-- ===== src/Rlp/Uint.antt =====
-- Big-endian integers: putUint of rlp/encode.go, byteLen and the shift loops of rlp/decode.go.
use padi_chain.Base.{
  ℕ, zero, suc, ◌+◌, ◌-◌, ◌*◌, ◌/◌, ◌%◌, ◌^◌, ◌≤◌, ◌<◌, ◌≡◌, refl, sym, ◌∙◌, ap, List, [], ◌∷◌,
  ◌++◌, arith, ltb, ◌==◌, if◌then◌else◌, Bool-cases, inl, inr, length, length-append, All,
  All-append, append_assoc, append-nil,
}
use native.Mathlib.Nat.{add-zero, zero-add, add_comm}
use native.Mathlib.Numerals.{add-one}

abbrev pub IsByte : ℕ → Type 0
IsByte b = b < 256

abbrev pub max_int : ℕ
max_int = 2 ^ 63 - 1

-- The loop of putUint over `tmp [8]byte`; the fuel is the room left in `tmp`, `out` is `tmp[i:]`.
unfoldable pub put_uint_loop : ℕ → ℕ → List ℕ → List ℕ
put_uint_loop zero v out = out
put_uint_loop (suc f) v out =
    let rest = put_uint_loop f (v / 256) ((v % 256) ∷ out) in if v == 0 then out else rest

unfoldable pub put_uint : ℕ → List ℕ
unfolding put_uint_loop
put_uint v = if v == 0 then [] else put_uint_loop 8 v []

-- `n := 0; for v > 0 { n++; v >>= 8 }`. A uint64 has at most 8 rounds.
unfoldable pub byte_len_loop : ℕ → ℕ → ℕ → ℕ
byte_len_loop zero v n = n
byte_len_loop (suc f) v n =
    let rest = byte_len_loop f (v / 256) (n + 1) in if ltb 0 v then rest else n

unfoldable pub byte_len : ℕ → ℕ
unfolding byte_len_loop
byte_len v = byte_len_loop 8 v 0

-- `for _, c := range raw { v = v<<8 | uint64(c) }`. The low byte of `v<<8` is clear, so `|` adds.
unfoldable pub shift_in : ℕ → List ℕ → ℕ
shift_in v [] = v
shift_in v (c ∷ raw) = shift_in (v * 256 % 2 ^ 64 + c) raw

-- The digits of a number below 256 ^ k, lowest last, with none for zero.
pub digits_of : ℕ → ℕ → List ℕ
digits_of zero v = []
digits_of (suc k) v =
    let rest = digits_of k (v / 256) in if v == 0 then [] else rest ++ ((v % 256) ∷ [])

-- The value of a list of digits.
unfoldable pub value_of : ℕ → List ℕ → ℕ
value_of v [] = v
value_of v (c ∷ raw) = value_of (v * 256 + c) raw

put_uint_loop-digits : (k v : ℕ) (out : List ℕ) → put_uint_loop k v out ≡ digits_of k v ++ out
unfolding put_uint_loop digits_of
put_uint_loop-digits zero v out = refl
put_uint_loop-digits (suc k) v out = ground (
  arith,
  put_uint_loop-digits k (v / 256) ((v % 256) ∷ out),
  append_assoc (digits_of k (v / 256)) ((v % 256) ∷ []) out,
)

pub put_uint-digits : (v : ℕ) → put_uint v ≡ digits_of 8 v
unfolding put_uint digits_of
put_uint-digits v = ground (arith, put_uint_loop-digits 8 v [], append-nil (digits_of 8 v))

pub value_of-append : (v : ℕ) (a b : List ℕ) → value_of v (a ++ b) ≡ value_of (value_of v a) b
unfolding value_of
value_of-append v [] b = refl
value_of-append v (c ∷ a) b = value_of-append (v * 256 + c) a b

pow_step : (k : ℕ) → 256 ^ suc k ≡ 256 * 256 ^ k
pow_step k = omega arith

quotient_lt : (k v : ℕ) → v < 256 ^ suc k → v / 256 < 256 ^ k
quotient_lt k v h = omega (arith, pow_step k)

pub value_of-digits_of : (k v : ℕ) → v < 256 ^ k → value_of 0 (digits_of k v) ≡ v
unfolding digits_of value_of
value_of-digits_of zero v h = omega arith
value_of-digits_of (suc k) v h = ground (
  arith,
  value_of-digits_of k (v / 256) (quotient_lt k v h),
  value_of-append 0 (digits_of k (v / 256)) ((v % 256) ∷ []),
)

pub digits_of-IsByte : (k v : ℕ) → All IsByte (digits_of k v)
unfolding digits_of
digits_of-IsByte zero v = tt
digits_of-IsByte (suc k) v = ground (
  arith,
  All-append IsByte (digits_of k (v / 256)) ((v % 256) ∷ []) (digits_of-IsByte k (v / 256))
      (omega arith, tt),
)

pub length-digits_of : (k v : ℕ) → length (digits_of k v) ≤ k
unfolding digits_of
length-digits_of zero v = omega arith
length-digits_of (suc k) v =
    ground
      (arith, length-digits_of k (v / 256), length-append (digits_of k (v / 256)) ((v % 256) ∷ []))

byte_len_loop-digits : (k v n : ℕ) → byte_len_loop k v n ≡ n + length (digits_of k v)
unfolding byte_len_loop digits_of
byte_len_loop-digits zero v n = omega arith
byte_len_loop-digits (suc k) v n = ground (
  arith,
  byte_len_loop-digits k (v / 256) (n + 1),
  length-append (digits_of k (v / 256)) ((v % 256) ∷ []),
)

digits_of_more : (k v : ℕ) → v < 256 ^ k → digits_of (suc k) v ≡ digits_of k v
unfolding digits_of
digits_of_more zero v h = ground arith
digits_of_more (suc k) v h = ground (arith, digits_of_more k (v / 256) (quotient_lt k v h))

digits_of_push :
    (k v c : ℕ) → 0 < v → c < 256 → digits_of (suc k) (v * 256 + c) ≡ digits_of k v ++ (c ∷ [])
unfolding digits_of
digits_of_push k v c h b = ground arith

digits_of-value_of :
    (raw : List ℕ) (k v : ℕ)
    → 0 < v
    → All IsByte raw
    → digits_of (k + length raw) (value_of v raw) ≡ digits_of k v ++ raw
unfolding value_of
digits_of-value_of [] k v h b =
    rw (append-nil (digits_of k v)) (ap (λ t. digits_of t v) (add-zero k))
digits_of-value_of (c ∷ raw) k v h b =
    let shift : k + suc (length raw) ≡ suc k + length raw = omega arith in
    rw shift (
      digits_of-value_of raw (suc k) (v * 256 + c) (omega arith) b.1
      ∙ ap (λ t. t ++ raw) (digits_of_push k v c h b.0)
      ∙ append_assoc (digits_of k v) (c ∷ []) raw)

mul_mono : (a b p : ℕ) → a ≤ b → a * p ≤ b * p
mul_mono a b p h = grind arith

pub value_of-lt :
    (raw : List ℕ) (v : ℕ) → All IsByte raw → value_of v raw < (v + 1) * 256 ^ length raw
unfolding value_of
value_of-lt [] v b = omega arith
value_of-lt (c ∷ raw) v b =
    let scaled : value_of (v * 256 + c) raw < (v + 1) * (256 * 256 ^ length raw) = omega (
      arith,
      value_of-lt raw (v * 256 + c) b.1,
      mul_mono (v * 256 + c + 1) ((v + 1) * 256) (256 ^ length raw) (omega arith),
    ) in
    rw (pow_step (length raw)) scaled

-- No digit string with a leading zero.
abbrev pub Leads : List ℕ → Type 0
Leads [] = Unit {0}
Leads (c ∷ raw) = 0 < c

Leads-append : (a : List ℕ) (c : ℕ) → (a ≡ [] → 0 < c) → Leads a → Leads (a ++ (c ∷ []))
Leads-append [] c h l = h refl
Leads-append (x ∷ a) c h l = l

digits_of_nil : (k v : ℕ) → v < 256 ^ k → digits_of k v ≡ [] → v ≡ 0
unfolding value_of
digits_of_nil k v h e = sym (value_of-digits_of k v h) ∙ ap (value_of 0) e

pub digits_of-Leads : (k v : ℕ) → v < 256 ^ k → Leads (digits_of k v)
unfolding digits_of
digits_of-Leads zero v h = tt
digits_of-Leads (suc k) v h = elim (Bool-cases (v == 0)) [
  | inl z ↦ rw z tt
  | inr nz ↦
      let q : v / 256 < 256 ^ k = quotient_lt k v h in
      rw nz (
        Leads-append (digits_of k (v / 256)) (v % 256)
          (λ e. ground (arith, digits_of_nil k (v / 256) q e)) (digits_of-Leads k (v / 256) q))
]

pub pow_more : (j k : ℕ) → 256 ^ k ≤ 256 ^ (j + k)
pow_more zero k = rw (zero-add k) (omega arith)
pow_more (suc j) k =
    let e : suc j + k ≡ suc (j + k) = omega arith in
    rw e (omega (arith, pow_more j k, pow_step (j + k)))

pub digits_of_fuel : (j k v : ℕ) → v < 256 ^ k → digits_of (j + k) v ≡ digits_of k v
digits_of_fuel zero k v h = ap (λ t. digits_of t v) (omega arith)
digits_of_fuel (suc j) k v h =
    let e : suc j + k ≡ suc (j + k) = omega arith in
    rw e (digits_of_more (j + k) v (omega (arith, pow_more j k)) ∙ digits_of_fuel j k v h)

value_of_head : (c : ℕ) (raw : List ℕ) → value_of 0 (c ∷ raw) ≡ value_of c raw
unfolding value_of
value_of_head c raw = ap (λ t. value_of t raw) (omega arith)

digits_of_one : (c : ℕ) → 0 < c → c < 256 → digits_of 1 c ≡ c ∷ []
unfolding digits_of
digits_of_one c h b = ground arith

-- The encoding of a string's value is the string: the encoding of an integer is unique.
pub put_uint-value_of :
    (c : ℕ) (raw : List ℕ)
    → 0 < c
    → All IsByte (c ∷ raw)
    → length raw < 8
    → put_uint (value_of 0 (c ∷ raw)) ≡ c ∷ raw
put_uint-value_of c raw h b l =
    let n = length raw in
    let v = value_of 0 (c ∷ raw) in
    let eight : 8 ≡ (7 - n) + (1 + n) = omega arith in
    let small : v < 256 ^ (1 + n) =
      rw (add_comm 1 n, add-one n) (omega (arith, value_of-lt (c ∷ raw) 0 b)) in
    put_uint-digits v
    ∙ ap (λ t. digits_of t v) eight
    ∙ digits_of_fuel (7 - n) (1 + n) v small
    ∙ ap (digits_of (1 + n)) (value_of_head c raw)
    ∙ digits_of-value_of raw 1 c h b.1
    ∙ ap (λ t. t ++ raw) (digits_of_one c h b.0)

value_of-ge : (raw : List ℕ) (v : ℕ) → v ≤ value_of v raw
unfolding value_of
value_of-ge [] v = omega arith
value_of-ge (c ∷ raw) v = omega (arith, value_of-ge raw (v * 256 + c))

pub shift_in-value_of :
    (raw : List ℕ) (v : ℕ) → value_of v raw < 2 ^ 64 → shift_in v raw ≡ value_of v raw
unfolding value_of shift_in
shift_in-value_of [] v h = refl
shift_in-value_of (c ∷ raw) v h =
    let fits : v * 256 % 2 ^ 64 ≡ v * 256 = omega (arith, value_of-ge raw (v * 256 + c)) in
    rw fits (shift_in-value_of raw (v * 256 + c) h)

-- What the codec needs of `put_uint` on a uint64.
pub put_uint-IsByte : (v : ℕ) → All IsByte (put_uint v)
put_uint-IsByte v = rw (put_uint-digits v) (digits_of-IsByte 8 v)

pub put_uint-Leads : (v : ℕ) → v < 2 ^ 64 → Leads (put_uint v)
put_uint-Leads v h = rw (put_uint-digits v) (digits_of-Leads 8 v h)

pub length-put_uint : (v : ℕ) → length (put_uint v) ≤ 8
length-put_uint v = rw (put_uint-digits v) (length-digits_of 8 v)

pub byte_len-put_uint : (v : ℕ) → byte_len v ≡ length (put_uint v)
unfolding byte_len
byte_len-put_uint v = rw (put_uint-digits v) (byte_len_loop-digits 8 v 0 ∙ zero-add _)

-- Shifting the encoding back in gives the integer.
pub shift_in-put_uint : (v : ℕ) → v < 2 ^ 64 → shift_in 0 (put_uint v) ≡ v
shift_in-put_uint v h =
    let back : value_of 0 (put_uint v) ≡ v = rw (put_uint-digits v) (value_of-digits_of 8 v h) in
    shift_in-value_of (put_uint v) 0 (omega (arith, back)) ∙ back

value_of-fits : (raw : List ℕ) → All IsByte raw → length raw ≤ 8 → value_of 0 raw < 2 ^ 64
value_of-fits raw b l =
    let n = length raw in
    let top : (8 - n) + n ≡ 8 = omega arith in
    let room : 256 ^ n ≤ 256 ^ 8 = rw top at (pow_more (8 - n) n) in
    omega (arith, value_of-lt raw 0 b)

-- At most eight digits are a uint64, and shifting them in loses nothing.
pub shift_in-lt : (raw : List ℕ) → All IsByte raw → length raw ≤ 8 → shift_in 0 raw < 2 ^ 64
shift_in-lt raw b l =
    let small = value_of-fits raw b l in omega (arith, shift_in-value_of raw 0 small)

pub put_uint-shift_in :
    (c : ℕ) (raw : List ℕ)
    → 0 < c
    → All IsByte (c ∷ raw)
    → length raw < 8
    → put_uint (shift_in 0 (c ∷ raw)) ≡ c ∷ raw
put_uint-shift_in c raw h b l =
    ap put_uint (shift_in-value_of (c ∷ raw) 0 (value_of-fits (c ∷ raw) b (omega arith)))
    ∙ put_uint-value_of c raw h b l

-- A number is below 256 to the number of its digits.
pub put_uint-lt : (v : ℕ) → v < 2 ^ 64 → v < 256 ^ length (put_uint v)
put_uint-lt v h =
    let back : value_of 0 (put_uint v) ≡ v = rw (put_uint-digits v) (value_of-digits_of 8 v h) in
    omega (arith, back, value_of-lt (put_uint v) 0 (put_uint-IsByte v))
