-- ===== src/Attest/Aggregate.antt =====
-- core/aggregate.go: AggregateAttestation; core/attestation.go: Quorum and NewQuorumCert.
-- Hashes are the numbers that their bytes stand for.
use padi_chain.Base.{
  ℕ, ◌+◌, ◌*◌, ◌/◌, Bool, true, false, not, ◌&&◌, ◌||◌, List, [], ◌∷◌, Option, none, some, leb,
  ◌==◌, if◌then◌else◌, length, get_elem?, Result, ok, err, ◌>>=◌, ◌>>◌,
}
use padi_chain.Base.Maps.{Dict}
use padi_chain.Attest.Bls.{Bls}
use padi_chain.Attest.Bitfield.{
  new_bitfield, set_index, has, count, indices, or_with, overlaps, fits,
}
use padi_chain.Attest.Message.{attestation_message}

pub data Error : Type 0 where
  bitfield_length no_signers aggregate_invalid wrong_target overlapping_signers : Error
  quorum_not_met unknown_attester attestation_invalid bls_failure no_conflict wrong_evidence : Error

abbrev pub Outcome {ℓ} : Type ℓ → Type ℓ
Outcome A = Result Error A

abbrev pub guard : Bool → Error → Outcome (Unit {0})
guard true e = ok tt
guard false e = err e

abbrev pub or_error {ℓ} : {A : Type ℓ} → Option A → Error → Outcome A
or_error none e = err e
or_error (some a) e = ok a

-- Quorum: more than two thirds.
unfoldable pub quorum : ℕ → ℕ
quorum validators = if validators == 0 then 0 else validators * 2 / 3 + 1

pub record Aggregate : Type 0 where
  pub number : ℕ
  pub block_hash : ℕ
  pub signers : List ℕ
  pub signature : List ℕ

-- NewAggregate
unfoldable pub new_aggregate : ℕ → ℕ → ℕ → Aggregate
new_aggregate number block_hash validators = record {
  number = number;
  block_hash = block_hash;
  signers = new_bitfield validators;
  signature = [];
}

-- IsEmpty, for an aggregate that is not nil.
unfoldable pub is_empty : Aggregate → Bool
is_empty a = (length a.signature == 0) || (count a.signers == 0)

-- `sort.Ints(indices)`, with the vote of each index beside it.
unfoldable pub insert_sorted : ℕ × List ℕ → List (ℕ × List ℕ) → List (ℕ × List ℕ)
insert_sorted v [] = v ∷ []
insert_sorted v (w ∷ rest) = if leb v.0 w.0 then v ∷ w ∷ rest else w ∷ insert_sorted v rest

unfoldable pub sort_votes : List (ℕ × List ℕ) → List (ℕ × List ℕ)
sort_votes [] = []
sort_votes (v ∷ rest) = insert_sorted v (sort_votes rest)

module _ (bls : Bls) where
  open bls use {
    PublicKey, Signature, signature_from_bytes, signature_bytes, aggregate, fast_aggregate_verify,
  }

  -- The signature of the aggregate with one more folded in.
  unfoldable pub fold_signature : List ℕ → List ℕ → Outcome (List ℕ)
  fold_signature current added = do
    sig ← or_error (signature_from_bytes added) aggregate_invalid
    if length current == 0 then ok added else (do
      existing ← or_error (signature_from_bytes current) aggregate_invalid
      combined ← or_error (aggregate existing sig) bls_failure
      ok (signature_bytes combined))

  -- AggregateAttestation.Add
  unfoldable pub add : Aggregate → ℕ → List ℕ → Outcome Aggregate
  add a index signature = if has a.signers index then ok a else (do
    combined ← fold_signature a.signature signature
    ok (record a { signers = set_index a.signers index; signature = combined }))

  -- AggregateAttestation.Merge
  unfoldable pub merge : Aggregate → Aggregate → Outcome Aggregate
  merge a other = do
    guard ((a.number == other.number) && (a.block_hash == other.block_hash)) wrong_target
    if length other.signature == 0
        then ok a
        else if overlaps a.signers other.signers
        then err overlapping_signers
        else if length a.signature == 0
        then ok
            (record a { signers = or_with a.signers other.signers; signature = other.signature })
        else (do
          mine ← or_error (signature_from_bytes a.signature) bls_failure
          theirs ← or_error (signature_from_bytes other.signature) bls_failure
          combined ← or_error (aggregate mine theirs) bls_failure
          ok (record a {
            signers = or_with a.signers other.signers;
            signature = signature_bytes combined;
          }))

  -- `for _, i := range indices { … signers = append(signers, keys[i]) }`
  unfoldable pub collect : List (Option PublicKey) → List ℕ → Outcome (List PublicKey)
  collect keys [] = ok []
  collect keys (i ∷ rest) =
      let later = collect keys rest in
      elim (get_elem? keys i) [
        | some (some key) ↦ (do keys' ← later; ok (key ∷ keys'))
        | _ ↦ err aggregate_invalid
      ]

  -- VerifySignature
  unfoldable pub verify_signature : Aggregate → ℕ → List (Option PublicKey) → Outcome (List ℕ)
  verify_signature a chain_id keys = do
    guard (not (is_empty a)) no_signers
    guard (fits a.signers (length keys)) bitfield_length
    let named = indices a.signers (length keys)
    guard (not (length named == 0)) no_signers
    signers ← collect keys named
    sig ← or_error (signature_from_bytes a.signature) aggregate_invalid
    guard (fast_aggregate_verify signers (attestation_message chain_id a.number a.block_hash) sig)
        aggregate_invalid
    ok named

  -- Verify: the signature and the threshold.
  unfoldable pub verify_quorum : Aggregate → ℕ → List (Option PublicKey) → Outcome (List ℕ)
  verify_quorum a chain_id keys = do
    named ← verify_signature a chain_id keys
    guard (leb (quorum (length keys)) (length named)) quorum_not_met
    ok named

  unfoldable pub add_all : Aggregate → List (ℕ × List ℕ) → Outcome Aggregate
  add_all a [] = ok a
  add_all a ((index, signature) ∷ rest) = add a index signature >>= λ a'. add_all a' rest

  -- NewQuorumCert; the votes are a Go map from index to signature.
  unfoldable pub new_quorum_cert : ℕ → ℕ → ℕ → Dict (List ℕ) → Outcome Aggregate
  new_quorum_cert number block_hash validators votes =
      add_all (new_aggregate number block_hash validators) (sort_votes votes)
