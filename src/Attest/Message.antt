-- ===== src/Attest/Message.antt =====
-- core/aggregate.go: AttestationMessage and RandaoMessage, the bytes that validators sign.
use Prim.Native.Char.{code}
use Prim.Native.String.{String}
use padi_chain.Base.{ℕ, zero, suc, ◌/◌, ◌%◌, List, [], ◌∷◌, ◌++◌}
use padi_chain.Rlp.Uint.{put_uint, digits_of}
use padi_chain.Rlp.Encode.{encode_bytes, encode_list}

-- The bytes of an ASCII literal.
abbrev pub codes : String → List ℕ
codes String.[] = []
codes (String.◌∷◌ c s) = code c ∷ codes s

-- The low `k` bytes of a number, high byte first: a [32]byte hash is its number at `k = 32`.
unfoldable pub fixed_bytes : ℕ → ℕ → List ℕ
fixed_bytes zero v = []
fixed_bytes (suc k) v = fixed_bytes k (v / 256) ++ ((v % 256) ∷ [])

-- big.Int.Bytes: minimal big-endian, empty for zero.
unfoldable pub big_bytes : ℕ → List ℕ
big_bytes n = digits_of n n

-- `rlp.Encode([]any{domain, chainID, number, blockHash})`
unfoldable pub attestation_message : ℕ → ℕ → ℕ → List ℕ
attestation_message chain_id number block_hash = encode_list (
    encode_bytes (codes "padi-chain/attestation/bls/v1")
    ∷ encode_bytes (big_bytes chain_id)
    ∷ encode_bytes (put_uint number)
    ∷ encode_bytes (fixed_bytes 32 block_hash)
    ∷ [])

-- `rlp.Encode([]any{domain, chainID, epoch})`
unfoldable pub randao_message : ℕ → ℕ → List ℕ
randao_message chain_id epoch = encode_list (
    encode_bytes (codes "padi-chain/randao/v1")
    ∷ encode_bytes (big_bytes chain_id)
    ∷ encode_bytes (put_uint epoch)
    ∷ [])
