-- ===== src/Attest/Tests.antt =====
-- Runs of the certificates and the pool with a stand-in for the curve, and the theorems at inputs.
use padi_chain.Base.{
  ℕ, ◌*◌, ◌<◌, ◌≡◌, ◌≢◌, refl, true, ◌&&◌, if◌then◌else◌, ltb, ◌==◌, List, [], ◌∷◌, ◌++◌, arith,
  length, ok, Option, some,
}
use padi_chain.Attest.Bls.{Bls}
use padi_chain.Attest.Bitfield.{new_bitfield, set_index, has, count, indices, fits, clear_from}
use padi_chain.Attest.Bitfield.Bytes.{test_bit, set_bit, popcount, popcount_loop}
use padi_chain.Attest.Bitfield.Laws.{has-set_index, count-indices}
use padi_chain.Attest.Message.{attestation_message, randao_message}
use padi_chain.Attest.Binding.{attestation_message_binds, randao_message_distinct}
use padi_chain.Attest.Aggregate.{
  Aggregate, quorum, is_empty, collect, verify_signature, verify_quorum, new_quorum_cert, add_all,
  add, fold_signature, sort_votes, insert_sorted, new_aggregate,
}
use padi_chain.Attest.Vote.{Attestation}
use padi_chain.Attest.Finality.{
  Certifies, verify_quorum_sound, double_signers, certificates_overlap,
}
use padi_chain.Attest.Pool.{
  Pool, new_pool, add_vote, add_first, add_again, put_vote, certificate, certificate_loop,
}
use padi_chain.Attest.Pool.Invariant.{IsValid, new_pool-IsValid}
use padi_chain.Attest.Pool.Safety.{Reach, here, next, vote, Reach-IsValid, one_certificate}

-- Keys and signatures are byte strings, and every signature is good.
abbrev stand_in : Bls
stand_in = record {
  PublicKey = List ℕ;
  Signature = List ℕ;
  key_from_bytes = λ b. some b;
  signature_from_bytes = λ b. some b;
  signature_bytes = λ s. s;
  aggregate = λ s t. some (s ++ t);
  verify = λ k m s. true;
  fast_aggregate_verify = λ ks m s. true;
}

abbrev four_keys : List (Option (List ℕ))
four_keys = some (1 ∷ []) ∷ some (2 ∷ []) ∷ some (3 ∷ []) ∷ some (4 ∷ []) ∷ []

abbrev first_three : Aggregate
first_three = record { number = 9; block_hash = 77; signers = 0x07 ∷ []; signature = 5 ∷ [] }

abbrev last_three : Aggregate
last_three = record { number = 9; block_hash = 78; signers = 0x0e ∷ []; signature = 6 ∷ [] }

first_three_verifies : verify_quorum stand_in first_three 1337 four_keys ≡ ok (0 ∷ 1 ∷ 2 ∷ [])
unfolding verify_quorum verify_signature is_empty fits clear_from indices has count collect quorum
    test_bit popcount popcount_loop
first_three_verifies = refl

last_three_verifies : verify_quorum stand_in last_three 1337 four_keys ≡ ok (1 ∷ 2 ∷ 3 ∷ [])
unfolding verify_quorum verify_signature is_empty fits clear_from indices has count collect quorum
    test_bit popcount popcount_loop
last_three_verifies = refl

verify_quorum_sound_example : Certifies stand_in first_three 1337 four_keys (0 ∷ 1 ∷ 2 ∷ [])
verify_quorum_sound_example =
    verify_quorum_sound stand_in first_three 1337 four_keys (0 ∷ 1 ∷ 2 ∷ []) first_three_verifies

certificates_overlap_example : 4 < 3 * length (double_signers first_three last_three 4)
certificates_overlap_example =
    certificates_overlap stand_in first_three last_three 1337 four_keys (0 ∷ 1 ∷ 2 ∷ [])
      (1 ∷ 2 ∷ 3 ∷ []) first_three_verifies last_three_verifies

has-set_index_example :
    has (set_index (0 ∷ 0 ∷ []) 11) 11
    ≡ (if (ltb 11 16) && (11 == 11) then true else has (0 ∷ 0 ∷ []) 11)
has-set_index_example = has-set_index (0 ∷ 0 ∷ []) 11 11 (omega arith)

count-indices_example : count (0x85 ∷ 0x03 ∷ []) ≡ length (indices (0x85 ∷ 0x03 ∷ []) 16)
count-indices_example = count-indices (0x85 ∷ 0x03 ∷ []) (omega arith)

fits_ten : fits (0x85 ∷ 0x03 ∷ []) 10 ≡ true
unfolding fits clear_from has test_bit
fits_ten = refl

attestation_message_binds_example :
    (◌≡◌ {A = ℕ} 1337 1337) × (◌≡◌ {A = ℕ} 9 9) × (◌≡◌ {A = ℕ} 77 77)
attestation_message_binds_example =
    attestation_message_binds 1337 1337 9 9 77 77 (omega arith) (omega arith) (omega arith)
      (omega arith) (omega arith) (omega arith) refl

randao_message_distinct_example : attestation_message 1337 9 77 ≢ randao_message 1337 3
randao_message_distinct_example =
    randao_message_distinct 1337 1337 9 77 3 (omega arith) (omega arith)

abbrev vote_by : ℕ → Attestation
vote_by i = record { number = 9; block_hash = 77; index = i; signature = i ∷ [] }

abbrev pool_0 : Pool stand_in
pool_0 = new_pool stand_in 1337 (11 ∷ 12 ∷ 13 ∷ []) ((1 ∷ []) ∷ (2 ∷ []) ∷ (3 ∷ []) ∷ [])

abbrev pool_3 : Pool stand_in
pool_3 =
    (add_vote stand_in (add_vote stand_in (add_vote stand_in pool_0 (vote_by 0)).0 (vote_by 1)).0
      (vote_by 2)).0

pool_3_reached : Reach stand_in pool_0 pool_3
pool_3_reached =
    next (next (next here (vote pool_0 (vote_by 0))) (vote _ (vote_by 1))) (vote _ (vote_by 2))

pool_3-IsValid : IsValid stand_in pool_3
pool_3-IsValid =
    Reach-IsValid stand_in
      (new_pool-IsValid stand_in 1337 (11 ∷ 12 ∷ 13 ∷ []) ((1 ∷ []) ∷ (2 ∷ []) ∷ (3 ∷ []) ∷ []))
      pool_3_reached

Reach-IsValid_example : IsValid stand_in pool_3
Reach-IsValid_example =
    Reach-IsValid stand_in
      (new_pool-IsValid stand_in 1337 (11 ∷ 12 ∷ 13 ∷ []) ((1 ∷ []) ∷ (2 ∷ []) ∷ (3 ∷ []) ∷ []))
      pool_3_reached

abbrev certificate_77 : Aggregate
certificate_77 = record {
  number = 9;
  block_hash = 77;
  signers = 0x07 ∷ [];
  signature = 0 ∷ 1 ∷ 2 ∷ [];
}

certificate_of_77 : (certificate stand_in pool_3 9 77).1 ≡ some certificate_77
unfolding certificate certificate_loop new_quorum_cert add_all add fold_signature sort_votes
    insert_sorted new_aggregate new_bitfield set_index set_bit add_vote add_first add_again put_vote
    new_pool verify_signature is_empty fits clear_from indices has count collect quorum test_bit
    popcount popcount_loop
certificate_of_77 = refl

three_keys : 0 < length pool_3.keys
unfolding add_vote add_first add_again new_pool
three_keys = omega arith

one_certificate_example : ◌≡◌ {A = ℕ} 77 77
one_certificate_example =
    one_certificate stand_in 1337 (11 ∷ 12 ∷ 13 ∷ []) ((1 ∷ []) ∷ (2 ∷ []) ∷ (3 ∷ []) ∷ []) pool_3 9
      77 77 certificate_77 certificate_77 pool_3_reached three_keys certificate_of_77
      certificate_of_77
