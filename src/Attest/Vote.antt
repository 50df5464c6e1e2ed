-- ===== src/Attest/Vote.antt =====
-- core/attestation.go: one validator's vote, and proof of equivocation.
use padi_chain.Base.{
  ℕ, not, ◌&&◌, ◌||◌, List, Option, none, some, ◌==◌, if◌then◌else◌, ok, err, ◌>>=◌, ◌>>◌,
}
use padi_chain.Attest.Bls.{Bls}
use padi_chain.Attest.Message.{attestation_message}
use padi_chain.Attest.Aggregate.{
  Outcome, guard, or_error, unknown_attester, attestation_invalid, no_conflict, wrong_evidence,
}

pub record Attestation : Type 0 where
  pub number : ℕ
  pub block_hash : ℕ
  pub index : ℕ
  pub signature : List ℕ

pub record Equivocation : Type 0 where
  pub validator : ℕ
  pub number : ℕ
  pub index : ℕ
  pub first : Attestation
  pub second : Attestation

module _ (bls : Bls) where
  open bls use {PublicKey, signature_from_bytes, verify}

  -- Attestation.Verify; a nil key is `none`.
  unfoldable pub verify_vote : Attestation → ℕ → Option PublicKey → Outcome (Unit {0})
  verify_vote a chain_id none = err unknown_attester
  verify_vote a chain_id (some key) = do
    sig ← or_error (signature_from_bytes a.signature) attestation_invalid
    guard (verify key (attestation_message chain_id a.number a.block_hash) sig) attestation_invalid

  -- DetectEquivocation; `ok none` is the answer that the two votes do not conflict.
  unfoldable pub detect_equivocation :
      ℕ → Option PublicKey → Attestation → Attestation → Outcome (Option Equivocation)
  detect_equivocation chain_id key a b =
      if not (a.number == b.number) || not (a.index == b.index)
      then ok none
      else if a.block_hash == b.block_hash
      then ok none
      else (do
        verify_vote a chain_id key
        verify_vote b chain_id key
        ok (
            some (record {
              validator = 0;
              number = a.number;
              index = a.index;
              first = a;
              second = b;
            })))

  -- Equivocation.Verify, for evidence with both votes present.
  unfoldable pub verify_equivocation : Equivocation → ℕ → Option PublicKey → Outcome (Unit {0})
  verify_equivocation e chain_id key = do
    proof ← detect_equivocation chain_id key e.first e.second
    found ← or_error proof no_conflict
    guard ((found.number == e.number) && (found.index == e.index)) wrong_evidence
