-- ===== src/Poa/Headers.antt =====
-- core/block.go: headers and the hashes of their encoding; consensus/poa.go: Author, VerifyHeader,
-- Prepare and Seal. A big.Int of a header is not negative, and the clock is a number of seconds.
use padi_chain.Base.{
  ℕ, ◌+◌, ◌%◌, ◌^◌, Bool, true, false, List, [], ◌∷◌, ◌++◌, Option, none, some, leb, ◌==◌,
  if◌then◌else◌, length, Result, ok, err, panic, ◌>>=◌, ◌>>◌,
}
use padi_chain.Rlp.Uint.{put_uint}
use padi_chain.Rlp.Encode.{encode_bytes, encode_list}
use padi_chain.Attest.Message.{fixed_bytes, big_bytes}
use padi_chain.Poa.Engine.{
  Poa, Error, unauthorized_proposer, wrong_proposer_turn, missing_seal, invalid_seal, future_block,
  timestamp_too_early, unknown_parent, invalid_number, extra_data_too_long, round_too_high,
  coinbase_mismatch, not_signed, set_for, is_validator_at, proposer_at_round, earliest_time_for,
  prepare_round, prepare_time,
}

-- Header; a nil Number is `none`. A nil BaseFee is encoded as zero is.
pub record Header : Type 0 where
  pub parent_hash : ℕ
  pub coinbase : ℕ
  pub state_root : ℕ
  pub tx_root : ℕ
  pub receipt_root : ℕ
  pub bloom : List ℕ
  pub number : Option ℕ
  pub gas_limit : ℕ
  pub gas_used : ℕ
  pub time : ℕ
  pub extra : List ℕ
  pub base_fee : ℕ
  pub round : ℕ
  pub randao_reveal : List ℕ
  pub justification : List ℕ
  pub proposer_seal : List ℕ

-- What crypto/secp256k1 and crypto/keccak give to the engine; `none` is the error.
pub record Secp : Type 1 where
  pub PrivateKey : Type 0
  pub PublicKey : Type 0
  pub Signature : Type 0
  pub keccak : List ℕ → ℕ
  pub parse_signature : List ℕ → Option Signature
  pub signature_bytes : Signature → List ℕ
  pub recover : ℕ → Signature → Option PublicKey
  pub sign : PrivateKey → ℕ → Option Signature
  pub public_key : PrivateKey → PublicKey
  pub public_bytes : PublicKey → List ℕ

unfoldable pub number_bytes : Option ℕ → List ℕ
number_bytes none = []
number_bytes (some n) = big_bytes n

-- The items of a header's encoding, but for the seal.
unfoldable pub sealed_fields : Header → List (List ℕ)
sealed_fields h =
    encode_bytes (fixed_bytes 32 h.parent_hash)
    ∷ encode_bytes (fixed_bytes 20 h.coinbase)
    ∷ encode_bytes (fixed_bytes 32 h.state_root)
    ∷ encode_bytes (fixed_bytes 32 h.tx_root)
    ∷ encode_bytes (fixed_bytes 32 h.receipt_root)
    ∷ encode_bytes h.bloom
    ∷ encode_bytes (number_bytes h.number)
    ∷ encode_bytes (put_uint h.gas_limit)
    ∷ encode_bytes (put_uint h.gas_used)
    ∷ encode_bytes (put_uint h.time)
    ∷ encode_bytes h.extra
    ∷ encode_bytes (big_bytes h.base_fee)
    ∷ encode_bytes (put_uint h.round)
    ∷ encode_bytes h.randao_reveal
    ∷ encode_bytes h.justification
    ∷ []

-- NumberU64
unfoldable pub number_u64 : Header → ℕ
number_u64 h = elim h.number [ none ↦ 0 | some n ↦ n % 2 ^ 64 ]

-- `if !test { return e }`
unfoldable pub require : Bool → Error → Result Error (Unit {0})
require true e = ok tt
require false e = err e

-- A value, or the error in its place.
unfoldable pub expect {ℓ} : {A : Type ℓ} → Option A → Error → Result Error A
expect none e = err e
expect (some a) e = ok a

-- BytesToAddress of the last 20 bytes of a hash
abbrev pub last_20_bytes : ℕ → ℕ
last_20_bytes n = n % 2 ^ 160

-- `len(b) == 0`
abbrev pub is_nil : List ℕ → Bool
is_nil [] = true
is_nil (x ∷ xs) = false

module _ (c : Secp) where
  -- SealingHash
  unfoldable pub sealing_hash : Header → ℕ
  sealing_hash h = c.keccak (encode_list (sealed_fields h))

  -- Hash
  unfoldable pub hash : Header → ℕ
  hash h = c.keccak (encode_list (sealed_fields h ++ (encode_bytes h.proposer_seal ∷ [])))

  unfoldable pub address_of : c.PublicKey → ℕ
  address_of key = last_20_bytes (c.keccak (c.public_bytes key))

  -- Author
  unfoldable pub author : Header → Result Error ℕ
  author h =
      require (if is_nil h.proposer_seal then false else true) missing_seal
      >> expect (c.parse_signature h.proposer_seal) invalid_seal
      >>= λ sig. expect (c.recover (sealing_hash h) sig) invalid_seal >>= λ key. ok (address_of key)

  -- The end of VerifyHeader: who sealed the header, and whether it was their turn.
  unfoldable pub verify_turn : Poa → Header → ℕ → ℕ → Result Error (Unit {0})
  verify_turn p h proposer expected =
      require (proposer == expected) wrong_proposer_turn
      >> require (h.coinbase == proposer) coinbase_mismatch

  unfoldable pub verify_proposer : Poa → Header → ℕ → Result Error (Unit {0})
  verify_proposer p h proposer =
      require (is_validator_at p proposer (number_u64 h)) unauthorized_proposer
      >> (proposer_at_round p (number_u64 h) h.round >>= verify_turn p h proposer)

  -- The middle of VerifyHeader: the timing of the round.
  unfoldable pub verify_timing : Poa → ℕ → Header → ℕ → Result Error (Unit {0})
  verify_timing p now h parent_time =
      require (leb h.round (length (set_for p (number_u64 h)))) round_too_high
      >> (require (leb (earliest_time_for p parent_time h.round) h.time) timestamp_too_early
          >> (require (leb h.time ((now + 15) % 2 ^ 64)) future_block
              >> (author h >>= verify_proposer p h)))

  -- VerifyHeader behind the tests for nil, with the numbers of the header and of its parent.
  unfoldable pub verify_numbered : Poa → ℕ → Header → Header → ℕ → ℕ → Result Error (Unit {0})
  verify_numbered p now h parent number parent_number =
      require (number == parent_number + 1) invalid_number
      >> (require (h.parent_hash == hash parent) unknown_parent
          >> (require (leb (length h.extra) 32) extra_data_too_long
              >> verify_timing p now h parent.time))

  -- VerifyHeader, at a time; a parent without a number panics.
  unfoldable pub verify_header : Poa → ℕ → Header → Option Header → Result Error (Unit {0})
  verify_header p now h parent = elim h.number [
    | none ↦ err invalid_number
    | some number ↦ elim parent [
      | none ↦ err unknown_parent
      | some q ↦ elim q.number [
        | none ↦ panic
        | some parent_number ↦ verify_numbered p now h q number parent_number
      ]
    ]
  ]

  -- Seal, of the block's header.
  unfoldable pub seal : Poa → c.PrivateKey → Header → Result Error Header
  seal p key h = proposer_at_round p (number_u64 h) h.round >>= λ proposer.
      require (address_of (c.public_key key) == proposer) wrong_proposer_turn
      >> (expect (c.sign key (sealing_hash h)) not_signed >>= λ sig.
          ok (record h { proposer_seal = c.signature_bytes sig }))

-- Prepare, at a time and over the chain's headers by their hash.
unfoldable pub prepare_header : Poa → ℕ → (ℕ → Option Header) → Header → Result Error Header
prepare_header p now header_by_hash h =
    expect (header_by_hash h.parent_hash) unknown_parent >>= λ parent.
    let round = prepare_round p (number_u64 h) parent.time now in
    proposer_at_round p (number_u64 h) round >>= λ proposer.
    ok
      (record h { round = round; coinbase = proposer; time = prepare_time p parent.time round now })
