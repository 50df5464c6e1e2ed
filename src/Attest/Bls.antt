-- ===== src/Attest/Bls.antt =====
-- What crypto/bls12381 gives to the certificates. The curve arithmetic and the pairing are not
-- modelled, so the functions that the consensus code calls are an interface.
use padi_chain.Base.{ℕ, Bool, List, Option}

pub record Bls : Type 1 where
  pub PublicKey : Type 0
  pub Signature : Type 0
  -- PublicKeyFromBytes, SignatureFromBytes and Signature.Bytes; `none` is the error.
  pub key_from_bytes : List ℕ → Option PublicKey
  pub signature_from_bytes : List ℕ → Option Signature
  pub signature_bytes : Signature → List ℕ
  -- AggregateSignatures of two signatures.
  pub aggregate : Signature → Signature → Option Signature
  -- Verify and FastAggregateVerify.
  pub verify : PublicKey → List ℕ → Signature → Bool
  pub fast_aggregate_verify : List PublicKey → List ℕ → Signature → Bool
