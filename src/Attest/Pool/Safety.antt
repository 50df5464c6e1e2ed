-- ===== src/Attest/Pool/Safety.antt =====
-- What the pool promises consensus: at a height it certifies one block at most.
use padi_chain.Base.{
  ℕ, suc, ◌+◌, ◌≤◌, ◌<◌, ◌≡◌, ◌≢◌, sym, ap, ◌∙◌, true, false, ◌&&◌, List, [], ◌∷◌, some, arith,
  length, inl, inr, ltb, ◌==◌, ==_iff, Bool-cases,
}
use padi_chain.Base.Maps.{contains, Distinct}
use padi_chain.Attest.Bls.{Bls}
use padi_chain.Attest.Vote.{Attestation, Equivocation}
use padi_chain.Attest.Aggregate.{Aggregate, quorum}
use padi_chain.Attest.Finality.{quorum-gt}
use padi_chain.Attest.Bitfield.Counting.{
  count_below, count_below_add, count_below_disjoint, count_below_same, count_below_none,
}
use padi_chain.Attest.Pool.{
  Pool, Votes, votes_for, add_vote, certificate_loop, certificate, vote_count, mark_finalized,
  add_evidence, new_pool,
}
use padi_chain.Attest.Pool.Invariant.{
  IsValid, new_pool-IsValid, add_vote-IsValid, certificate-IsValid, mark_finalized-IsValid,
  add_evidence-IsValid,
}

-- A dictionary over indices below `n` has as many entries as indices that it contains.
length-count_below :
    (d : Votes) (n : ℕ)
    → Distinct d
    → ((i : ℕ) → contains i d ≡ true → i < n)
    → length d ≡ count_below (λ i. contains i d) n
length-count_below [] n h r = sym (count_below_none n)
length-count_below ((k, s) ∷ d) n h r =
    ap suc (length-count_below d n h.1 (λ i e. r i (ground arith)))
    ∙ sym (count_below_add (λ i. contains i d) k n (r k (ground arith)) (ground arith))
    ∙ count_below_same _ _ n (λ i l. ground arith)

module _ (bls : Bls) where
  -- The methods that consensus calls while the validator set stands.
  pub data Step : Pool bls → Pool bls → Type 0 where
    vote : (p : Pool bls) (a : Attestation) → Step p (add_vote bls p a).0
    certify : (p : Pool bls) (h b : ℕ) → Step p (certificate bls p h b).0
    finalize : (p : Pool bls) (number : ℕ) → Step p (mark_finalized bls p number)
    accuse : (p : Pool bls) (proof : Equivocation) → Step p (add_evidence bls p proof).0

  pub data Reach (p : Pool bls) : Pool bls → Type 0 where
    here : Reach p p
    next : {q r : Pool bls} → Reach p q → Step q r → Reach p r

  Step-IsValid : {p q : Pool bls} → Step p q → IsValid bls p → IsValid bls q
  Step-IsValid (vote p a) v = add_vote-IsValid bls p a v
  Step-IsValid (certify p h b) v = certificate-IsValid bls p h b v
  Step-IsValid (finalize p number) v = mark_finalized-IsValid bls p number v
  Step-IsValid (accuse p proof) v = add_evidence-IsValid bls p proof v

  -- Every pool that add_vote, certificate, mark_finalized and add_evidence reach from a pool with the
  -- invariant has the invariant: a vote that counts for a block is the one that its validator cast at
  -- that height, its validator is in the set, and it counts once.
  pub Reach-IsValid : {p q : Pool bls} → IsValid bls p → Reach p q → IsValid bls q
  Reach-IsValid v here = v
  Reach-IsValid v (next r s) = Step-IsValid s (Reach-IsValid v r)

  -- A certificate stands on a quorum of the votes held for its block.
  certificate_votes :
      (p : Pool bls) (h b : ℕ) (qc : Aggregate)
      → (certificate bls p h b).1 ≡ some qc
      → quorum (length p.keys) ≤ vote_count bls p h b
  unfolding certificate certificate_loop vote_count
  certificate_votes p h b qc e =
      elim (Bool-cases (ltb (length (votes_for p.votes h b)) (quorum (length p.keys)))) [
        | inl few ↦ cc (rw (few, certificate) at e)
        | inr enough ↦ ground arith
      ]

  -- Of one height, no two blocks have more votes together than there are validators.
  pub vote_count_disjoint :
      (p : Pool bls) (h b c : ℕ)
      → IsValid bls p
      → b ≢ c
      → vote_count bls p h b + vote_count bls p h c ≤ length p.keys
  unfolding vote_count
  vote_count_disjoint p h b c v ne =
      let n = length p.keys in
      omega (
        arith,
        length-count_below (votes_for p.votes h b) n (v.distinct h b) (v.in_range h b),
        length-count_below (votes_for p.votes h c) n (v.distinct h c) (v.in_range h c),
        count_below_disjoint (λ i. contains i (votes_for p.votes h b))
            (λ i. contains i (votes_for p.votes h c)) n apart,
      )
    where
      apart :
          (i : ℕ) → contains i (votes_for p.votes h b) && contains i (votes_for p.votes h c) ≡ false
      apart i = ground (arith, v.cast h b i, v.cast h c i)

  -- In a pool with its invariant only one block of a height has a certificate.
  certificates_agree :
      (p : Pool bls) (h b c : ℕ) (qc qc' : Aggregate)
      → IsValid bls p
      → 0 < length p.keys
      → (certificate bls p h b).1 ≡ some qc
      → (certificate bls p h c).1 ≡ some qc'
      → b ≡ c
  certificates_agree p h b c qc qc' v pos e e' = elim (Bool-cases (b == c)) [
    | inl same ↦ (==_iff b c).0 same
    | inr other ↦ absurd (
        omega (
          arith,
          certificate_votes p h b qc e,
          certificate_votes p h c qc' e',
          vote_count_disjoint p h b c v (ground arith),
          quorum-gt (length p.keys) pos,
        ))
  ]

  -- In every pool that Add, Certificate, MarkFinalized and AddEvidence can lead to from a new one,
  -- with a validator set that is not empty, two blocks of one height that both have a certificate
  -- are the same block.
  pub one_certificate :
      (chain_id : ℕ) (addresses : List ℕ) (keys : List (List ℕ)) (p : Pool bls) (h b c : ℕ)
      (qc qc' : Aggregate)
      → Reach (new_pool bls chain_id addresses keys) p
      → 0 < length p.keys
      → (certificate bls p h b).1 ≡ some qc
      → (certificate bls p h c).1 ≡ some qc'
      → b ≡ c
  one_certificate chain_id addresses keys p h b c qc qc' r =
      certificates_agree p h b c qc qc'
        (Reach-IsValid (new_pool-IsValid bls chain_id addresses keys) r)
