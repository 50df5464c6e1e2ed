-- ===== src/Attest/Finality.antt =====
-- Why two thirds is final: what an accepted certificate shows, and what two that conflict show.
use padi_chain.Base.{
  ℕ, ◌*◌, ◌≤◌, ◌<◌, ◌≡◌, refl, ap, ◌∙◌, Bool, true, false, not, ◌&&◌, List, [], ◌∷◌, Option, none,
  some, arith, ◌==◌, leb, length, get_elem?, ok, ◌>>=◌, ◌>>◌, >>=-eq-ok,
}
use padi_chain.Attest.Bls.{Bls}
use padi_chain.Attest.Bitfield.{has, indices, fits}
use padi_chain.Attest.Bitfield.Counting.{
  count_below, select_below, length-select_below, count_below_overlap, count_below-le,
}
use padi_chain.Attest.Bitfield.Laws.{indices-select}
use padi_chain.Attest.Message.{attestation_message}
use padi_chain.Attest.Aggregate.{
  Error, aggregate_invalid, no_signers, bitfield_length, quorum_not_met, Outcome, Aggregate, quorum,
  is_empty, collect, verify_signature, verify_quorum, guard, or_error,
}

-- More than two thirds.
pub quorum-gt : (n : ℕ) → 0 < n → 2 * n < 3 * quorum n
unfolding quorum
quorum-gt n h = ground arith

pub quorum-le : (n : ℕ) → 2 < n → quorum n ≤ n
unfolding quorum
quorum-le n h = ground arith

-- The validators that both aggregates name.
pub double_signers : Aggregate → Aggregate → ℕ → List ℕ
double_signers a b n = select_below (λ i. has a.signers i && has b.signers i) n

guard-eq-ok {ℓ} :
    {A : Type ℓ} (b : Bool) (e : Error) (k : Outcome A) {a : A}
    → (guard b e >> k) ≡ ok a
    → (b ≡ true) × (k ≡ ok a)
guard-eq-ok true e k h = (refl, h)
guard-eq-ok false e k h = cc

or_error-eq-ok {ℓ κ} :
    {A : Type ℓ} {B : Type κ} (o : Option A) (e : Error) (f : A → Outcome B) {b : B}
    → (or_error o e >>= f) ≡ ok b
    → (a : A) × (o ≡ some a) × (f a ≡ ok b)
or_error-eq-ok none e f h = cc
or_error-eq-ok (some a) e f h = (a, refl, h)

module _ (bls : Bls) where
  open bls use {PublicKey, Signature, signature_from_bytes, fast_aggregate_verify}

  -- The keys that `named` selects, all of them registered.
  abbrev pub Selects : List (Option PublicKey) → List ℕ → List PublicKey → Type 0
  Selects keys [] signers = signers ≡ []
  Selects keys (i ∷ named) signers =
      (key : PublicKey) × (later : List PublicKey) × (signers ≡ key ∷ later)
      × (get_elem? keys i ≡ some (some key))
      × Selects keys named later

  collect-Selects :
      (keys : List (Option PublicKey)) (named : List ℕ) (signers : List PublicKey)
      → collect bls keys named ≡ ok signers
      → Selects keys named signers
  unfolding collect
  collect-Selects keys [] signers e = ground arith
  collect-Selects keys (i ∷ named) signers e =
      found (collect-Selects keys named) (get_elem? keys i) refl
    where
      found :
          ((l : List PublicKey) → collect bls keys named ≡ ok l → Selects keys named l)
          → (o : Option (Option PublicKey)) → get_elem? keys i ≡ o
          → Selects keys (i ∷ named) signers
      found ih none q = cc (rw (q, collect) at e)
      found ih (some none) q = cc (rw (q, collect) at e)
      found ih (some (some key)) q =
          let (later, el, es) =
            >>=-eq-ok (collect bls keys named) (λ l. ok (key ∷ l)) (rw (q, collect) at e) in
          (key, later, cc es, q, ih later el)

  -- What a certificate for the named validators consists of.
  pub record Certifies (a : Aggregate) (chain_id : ℕ) (keys : List (Option PublicKey))
      (named : List ℕ) : Type 0 where
    pub marked : named ≡ indices a.signers (length keys)
    pub sized : fits a.signers (length keys) ≡ true
    pub met : quorum (length keys) ≤ length named
    pub some_signer : 0 < length named
    pub signers : List PublicKey
    pub registered : Selects keys named signers
    pub sig : Signature
    pub parsed : signature_from_bytes a.signature ≡ some sig
    pub signed :
        fast_aggregate_verify signers (attestation_message chain_id a.number a.block_hash) sig
        ≡ true

  -- Verify accepts only what is signed by a quorum of registered keys.
  pub verify_quorum_sound :
      (a : Aggregate) (chain_id : ℕ) (keys : List (Option PublicKey)) (named : List ℕ)
      → verify_quorum bls a chain_id keys ≡ ok named
      → Certifies a chain_id keys named
  unfolding verify_quorum verify_signature
  verify_quorum_sound a chain_id keys named e =
      let n = length keys in
      let all = indices a.signers n in
      let message = attestation_message chain_id a.number a.block_hash in
      let answer : Outcome (List ℕ) = ok all in
      let check : List PublicKey → Signature → Outcome (List ℕ) = λ signers sig.
        guard (fast_aggregate_verify signers message sig) aggregate_invalid >> answer in
      let parse : List PublicKey → Outcome (List ℕ) = λ signers.
        or_error (signature_from_bytes a.signature) aggregate_invalid >>= check signers in
      let gather : Outcome (List ℕ) = collect bls keys all >>= parse in
      let count_guard : Outcome (List ℕ) = guard (not (length all == 0)) no_signers >> gather in
      let size_guard : Outcome (List ℕ) = guard (fits a.signers n) bitfield_length >> count_guard in
      let threshold : List ℕ → Outcome (List ℕ) =
        λ l. guard (leb (quorum n) (length l)) quorum_not_met >> ok l in
      let (named', ev, et) = >>=-eq-ok (verify_signature bls a chain_id keys) threshold e in
      let (met, es) = guard-eq-ok (leb (quorum n) (length named')) quorum_not_met (ok named') et in
      let (nonempty, e1) = guard-eq-ok (not (is_empty a)) no_signers size_guard ev in
      let (sized, e2) = guard-eq-ok (fits a.signers n) bitfield_length count_guard e1 in
      let (some_named, e3) = guard-eq-ok (not (length all == 0)) no_signers gather e2 in
      let (signers, ec, e4) = >>=-eq-ok (collect bls keys all) parse e3 in
      let (sig, ep, e5) =
        or_error-eq-ok (signature_from_bytes a.signature) aggregate_invalid (check signers) e4 in
      let (signed, e6) =
        guard-eq-ok (fast_aggregate_verify signers message sig) aggregate_invalid answer e5 in
      let same : named ≡ indices a.signers (length keys) = cc (e6, es) in
      record {
        marked = same;
        sized = sized;
        met = let same' : named ≡ named' = cc es in rw same' (ground arith);
        some_signer = rw same (ground arith);
        signers = signers;
        registered = rw same (collect-Selects keys _ signers ec);
        sig = sig;
        parsed = ep;
        signed = signed;
      }

  count_of_named :
      (a : Aggregate) (chain_id : ℕ) (keys : List (Option PublicKey)) (named : List ℕ)
      → verify_quorum bls a chain_id keys ≡ ok named
      → (quorum (length keys) ≤ count_below (has a.signers) (length keys)) × (0 < length keys)
  count_of_named a chain_id keys named e =
      let c = verify_quorum_sound a chain_id keys named e in
      let size : length named ≡ count_below (has a.signers) (length keys) =
        ap length c.marked
        ∙ ap length (indices-select a.signers (length keys))
        ∙ length-select_below (has a.signers) (length keys) in
      let met = c.met in
      let pos = c.some_signer in
      (omega arith, omega (arith, count_below-le (has a.signers) (length keys)))

  -- Two certificates that verify against the same keys, for whatever blocks and heights, share more
  -- than a third of the validator set.
  pub certificates_overlap :
      (a b : Aggregate) (chain_id : ℕ) (keys : List (Option PublicKey)) (named named' : List ℕ)
      → verify_quorum bls a chain_id keys ≡ ok named
      → verify_quorum bls b chain_id keys ≡ ok named'
      → length keys < 3 * length (double_signers a b (length keys))
  unfolding double_signers
  certificates_overlap a b chain_id keys named named' ea eb =
      let n = length keys in
      let (qa, pos) = count_of_named a chain_id keys named ea in
      let (qb, _) = count_of_named b chain_id keys named' eb in
      omega (
        arith,
        quorum-gt n pos,
        count_below_overlap (has a.signers) (has b.signers) n,
        length-select_below (λ i. has a.signers i && has b.signers i) n,
      )
