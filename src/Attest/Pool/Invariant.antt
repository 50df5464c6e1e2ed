-- ===== src/Attest/Pool/Invariant.antt =====
-- The pool's invariant, kept by each method: a vote that counts is the one vote that its validator
-- cast at that height, and its validator is in the set.
pub mod Updates
use padi_chain.Base.{
  ℕ, suc, zero, ◌-◌, ◌<◌, ◌≡◌, refl, sym, ap, ◌∙◌, Bool, true, false, ◌&&◌, List, [], ◌∷◌, Option,
  none, some, arith, length, get_elem?, Result, Option-cases, inl, inr, All, ltb, leb, ◌==◌,
  if◌then◌else◌, ok, err, panic, Bool-cases, ◌⊎◌,
}
use padi_chain.Base.Maps.{Dict, lookup, contains, insert, erase}
use padi_chain.Attest.Bls.{Bls}
use padi_chain.Attest.Vote.{Attestation, Equivocation, verify_vote, detect_equivocation}
use padi_chain.Attest.Pool.{
  Pool, Votes, at_height, votes_for, drop_vote, put_vote, add_again, add_first, add_seen, add_vote,
  evict_one, evict_loop, evict_invalid, certificate_loop, certificate, mark_finalized, add_evidence,
  new_pool, stale_heights,
}
use Updates.{
  IsSound, cast_for, put-IsSound, drop-IsSound, evict-IsSound, prune-IsSound, drop_contains,
}

get_elem?-lt {ℓ} :
    {A : Type ℓ} (xs : List A) (i : ℕ) {a : A} → get_elem? xs i ≡ some a → i < length xs
get_elem?-lt [] i e = cc
get_elem?-lt (x ∷ xs) zero e = omega arith
get_elem?-lt (x ∷ xs) (suc i) e = omega (arith, get_elem?-lt xs i e)

module _ (bls : Bls) where
  abbrev pub IsValid : Pool bls → Type 0
  IsValid p = IsSound (length p.keys) p.votes p.by_index

  pub new_pool-IsValid :
      (chain_id : ℕ) (addresses : List ℕ) (keys : List (List ℕ))
      → IsValid (new_pool bls chain_id addresses keys)
  unfolding new_pool
  new_pool-IsValid chain_id addresses keys = record {
    cast = λ h b i e. cc;
    in_range = λ h b i e. cc;
    distinct = λ h b. tt;
  }

  -- The parts that the invariant speaks of.
  abbrev pub Same : Pool bls → Pool bls → Type 0
  Same p q = (q.keys ≡ p.keys) × (q.votes ≡ p.votes) × (q.by_index ≡ p.by_index)

  Same-IsValid : (p q : Pool bls) → Same p q → IsValid p → IsValid q
  Same-IsValid p q (k, w, b) v = rw (k, w, b) v

  add_again-Same :
      (p : Pool bls) (key : Option bls.PublicKey) (previous a : Attestation)
      → Same p (add_again bls p key previous a).0
  unfolding add_again
  add_again-Same p key previous a = (ground arith, ground arith, ground arith)

  add_first-IsValid :
      (p : Pool bls) (a : Attestation)
      → a.index < length p.keys
      → lookup a.index (at_height a.number p.by_index) ≡ none
      → IsValid p
      → IsValid (add_first bls p a).0
  unfolding add_first
  add_first-IsValid p a range new v =
      put-IsSound v a.number a.block_hash a.index a.signature a range new refl

  -- Add keeps the invariant, whatever the vote.
  pub add_vote-IsValid : (p : Pool bls) (a : Attestation) → IsValid p → IsValid (add_vote bls p a).0
  unfolding add_vote
  add_vote-IsValid p a v = keyed (get_elem? p.keys a.index) refl
    where
      seen :
          (o : Option Attestation)
          → lookup a.index (at_height a.number p.by_index) ≡ o
          → (key : bls.PublicKey) → get_elem? p.keys a.index ≡ some (some key)
          → IsValid (add_seen bls p key a o).0
      seen none e key k = add_first-IsValid p a (get_elem?-lt p.keys a.index k) e v
      seen (some previous) e key k =
          Same-IsValid p (add_again bls p (some key) previous a).0
            (add_again-Same p (some key) previous a) v

      keyed :
          (o : Option (Option bls.PublicKey))
          → get_elem? p.keys a.index ≡ o
          → IsValid (add_vote bls p a).0
      keyed none e = rw (e, add_vote) v
      keyed (some none) e = rw (e, add_vote) v
      keyed (some (some key)) e =
          elim (Bool-cases (ltb 0 p.finalized && leb a.number p.finalized)) [
            | inl old ↦ rw (e, add_vote, old) v
            | inr live ↦
                rw (e, add_vote, live)
                  (seen (lookup a.index (at_height a.number p.by_index)) refl key e)
          ]

  -- Votes for this validator at the height stand under this block alone.
  abbrev Alone : Pool bls → ℕ → ℕ → ℕ → Type 0
  Alone p h b i = (c : ℕ) → contains i (votes_for p.votes h c) ≡ true → c ≡ b

  -- What one round of eviction may do to the pool.
  record Evicts (p q : Pool bls) : Type 0 where
    same_keys : q.keys ≡ p.keys
    fewer :
        (h c i : ℕ)
        → contains i (votes_for q.votes h c) ≡ true
        → contains i (votes_for p.votes h c) ≡ true

  abbrev Dropped : ℕ → ℕ → Pool bls → ℕ → Pool bls
  Dropped h b p i = record p { votes = drop_vote p.votes h b i }

  abbrev Evicted : ℕ → ℕ → Pool bls → ℕ → Pool bls
  Evicted h b p i = record p {
    votes = drop_vote p.votes h b i;
    by_index = insert h (erase i (at_height h p.by_index)) p.by_index;
  }

  evict_one-cases :
      (h b : ℕ) (p : Pool bls) (removed : Bool) (i : ℕ) (s : List ℕ)
      → (evict_one bls h b (p, removed) (i, s) ≡ (p, removed))
        ⊎ (evict_one bls h b (p, removed) (i, s) ≡ (Dropped h b p i, true))
        ⊎ (evict_one bls h b (p, removed) (i, s) ≡ (Evicted h b p i, true))
  unfolding evict_one
  evict_one-cases h b p removed i s = ground arith

  -- Together: what is kept, and that the invariant is.
  abbrev Fine : Pool bls → Pool bls → Type 0
  Fine p q = Evicts p q × IsValid q

  Evicts-refl : (p : Pool bls) → Evicts p p
  Evicts-refl p = record { same_keys = refl; fewer = λ h c i e. e }

  dropped_fewer :
      (h b : ℕ) (p : Pool bls) (i : ℕ)
      → IsValid p
      → (h' c j : ℕ) → contains j (votes_for (drop_vote p.votes h b i) h' c) ≡ true
      → contains j (votes_for p.votes h' c) ≡ true
  dropped_fewer h b p i v h' c j e = elim (Bool-cases ((h' == h) && (c == b))) [
    | inl here ↦
        let eh : h' ≡ h = ground arith in
        let ec : c ≡ b = ground arith in rw (eh, ec) (ground (arith, drop_contains v h b i h' c j))
    | inr other ↦ ground (arith, drop_contains v h b i h' c j)
  ]

  dropped-Fine : (h b : ℕ) (p : Pool bls) (i : ℕ) → IsValid p → Fine p (Dropped h b p i)
  dropped-Fine h b p i v =
      (record { same_keys = refl; fewer = dropped_fewer h b p i v }, drop-IsSound v h b i)

  evicted-Fine :
      (h b : ℕ) (p : Pool bls) (i : ℕ) → IsValid p → Alone p h b i → Fine p (Evicted h b p i)
  evicted-Fine h b p i v alone =
      (record { same_keys = refl; fewer = dropped_fewer h b p i v }, evict-IsSound v h b i alone)

  evict_one-Fine :
      (h b : ℕ) (p : Pool bls) (removed : Bool) (i : ℕ) (s : List ℕ)
      → IsValid p
      → Alone p h b i
      → Fine p (evict_one bls h b (p, removed) (i, s)).0
  evict_one-Fine h b p removed i s v alone = elim (evict_one-cases h b p removed i s) [
    | inl kept ↦ rw kept (Evicts-refl p, v)
    | inr (inl dropped) ↦ rw dropped (dropped-Fine h b p i v)
    | inr (inr evicted) ↦ rw evicted (evicted-Fine h b p i v alone)
  ]

  evict_loop-Fine :
      (h b : ℕ) (entries : Votes) (p : Pool bls) (removed : Bool)
      → IsValid p
      → All (λ (entry : ℕ × List ℕ). Alone p h b entry.0) entries
      → Fine p (evict_loop bls h b (p, removed) entries).0
  unfolding evict_loop
  evict_loop-Fine h b [] p removed v alone = (Evicts-refl p, v)
  evict_loop-Fine h b ((i, s) ∷ entries) p removed v alone =
      let step = evict_one-Fine h b p removed i s v alone.0 in
      let p' = (evict_one bls h b (p, removed) (i, s)).0 in
      let removed' = (evict_one bls h b (p, removed) (i, s)).1 in
      let rest =
        evict_loop-Fine h b entries p' removed' step.1
          (All-map entries (λ j a c e. a c (step.0.fewer h c j e)) alone.1) in
      (
        record {
          same_keys = rest.0.same_keys ∙ step.0.same_keys;
          fewer = λ h' c j e. step.0.fewer h' c j (rest.0.fewer h' c j e);
        },
        rest.1,
      )
    where
      All-map :
          (l : Votes)
          → ((j : ℕ) → Alone p h b j → Alone (evict_one bls h b (p, removed) (i, s)).0 h b j)
          → All (λ (entry : ℕ × List ℕ). Alone p h b entry.0) l
          → All
              (λ (entry : ℕ × List ℕ). Alone (evict_one bls h b (p, removed) (i, s)).0 h b entry.0)
              l
      All-map [] f a = tt
      All-map (x ∷ l) f a = (f x.0 a.0, All-map l f a.1)

  contained :
      (Q : ℕ → Type 0) (d : Votes)
      → ((i : ℕ) → contains i d ≡ true → Q i)
      → All (λ (entry : ℕ × List ℕ). Q entry.0) d
  contained Q [] h = tt
  contained Q ((k, s) ∷ d) h = (h k (ground arith), contained Q d (λ i e. h i (ground arith)))

  evict_invalid-Fine : (p : Pool bls) (h b : ℕ) → IsValid p → Fine p (evict_invalid bls p h b).0
  unfolding evict_invalid
  evict_invalid-Fine p h b v = evict_loop-Fine h b (votes_for p.votes h b) p false v (
      contained (Alone p h b) (votes_for p.votes h b)
        (λ i counted c e. ground (arith, v.cast h b i counted, v.cast h c i e)))

  certificate_loop-cases :
      (fuel : ℕ) (p : Pool bls) (h b : ℕ)
      → ((certificate_loop bls (suc fuel) p h b).0 ≡ p)
        ⊎ ((certificate_loop bls (suc fuel) p h b).0 ≡ (evict_invalid bls p h b).0)
        ⊎ ((certificate_loop bls (suc fuel) p h b).0
            ≡ (certificate_loop bls fuel (evict_invalid bls p h b).0 h b).0)
  unfolding certificate_loop
  certificate_loop-cases fuel p h b = ground arith

  certificate_loop-Fine :
      (fuel : ℕ) (p : Pool bls) (h b : ℕ) → IsValid p → Fine p (certificate_loop bls fuel p h b).0
  certificate_loop-Fine zero p h b v = unfold certificate_loop in (Evicts-refl p, v)
  certificate_loop-Fine (suc fuel) p h b v =
      let step = evict_invalid-Fine p h b v in
      let rest = certificate_loop-Fine fuel (evict_invalid bls p h b).0 h b step.1 in
      elim (certificate_loop-cases fuel p h b) [
        | inl kept ↦ rw kept (Evicts-refl p, v)
        | inr (inl evicted) ↦ rw evicted step
        | inr (inr again) ↦ rw again (
          record {
            same_keys = rest.0.same_keys ∙ step.0.same_keys;
            fewer = λ h' c j e. step.0.fewer h' c j (rest.0.fewer h' c j e);
          },
          rest.1,
        )
      ]

  -- Certificate keeps the invariant, also where it evicts votes.
  pub certificate-IsValid : (p : Pool bls) (h b : ℕ) → IsValid p → IsValid (certificate bls p h b).0
  unfolding certificate
  certificate-IsValid p h b v =
      (certificate_loop-Fine (suc (length (votes_for p.votes h b))) p h b v).1

  -- MarkFinalized keeps the invariant.
  pub mark_finalized-IsValid :
      (p : Pool bls) (number : ℕ) → IsValid p → IsValid (mark_finalized bls p number)
  unfolding mark_finalized
  mark_finalized-IsValid p number v = elim (Bool-cases (leb number p.finalized)) [
    | inl old ↦ rw old v
    | inr new ↦ elim (Bool-cases (leb number p.retain)) [
      | inl early ↦ rw (new, early) v
      | inr late ↦ rw (new, late) (prune-IsSound v (stale_heights (number - p.retain) p.votes))
    ]
  ]

  -- AddEvidence touches no vote.
  pub add_evidence-IsValid :
      (p : Pool bls) (proof : Equivocation) → IsValid p → IsValid (add_evidence bls p proof).0
  unfolding add_evidence
  add_evidence-IsValid p proof v =
      Same-IsValid p (add_evidence bls p proof).0 (ground arith, ground arith, ground arith) v
