-- ===== src/Poa/Proposing.antt =====
-- consensus/poa.go: VerifyHeader accepts what Prepare and Seal make.
use padi_chain.Base.{
  ℕ, zero, suc, ◌+◌, ◌%◌, ◌^◌, ◌≤◌, ◌≡◌, refl, sym, ap, ◌∙◌, true, false, List, [], ◌∷◌, Option,
  none, some, ◌==◌, ==_iff, length, get_elem?, arith, inl, inr, Option-cases, Result, ok, panic,
  ◌>>=◌, >>=-eq-ok,
}
use mathlib.Core.Path.{subst}
use padi_chain.Poa.Engine.{
  Poa, Error, Provider, wrong_proposer_turn, not_signed, set_for, is_member, is_validator_at,
  proposer_at_round, rotation, earliest_time_for, prepare_round, prepare_time,
}
use padi_chain.Poa.Headers.{
  Header, Secp, sealed_fields, number_u64, require, expect, is_nil, sealing_hash, hash, address_of,
  author, verify_turn, verify_proposer, verify_timing, verify_numbered, verify_header, seal,
  prepare_header,
}
use padi_chain.Poa.Sealing.{IsFollowing, required, expect-some, ok_inj, le_leb, same_number}

-- What a signature by a key gives back: bytes that parse to a signature from which the key of the
-- signer is recovered.
pub record Signs (c : Secp) : Type 0 where
  pub bytes_there : (sig : c.Signature) → is_nil (c.signature_bytes sig) ≡ false
  pub recovers :
      (key : c.PrivateKey) (digest : ℕ) (sig : c.Signature)
      → c.sign key digest ≡ some sig
      → (read : c.Signature) × (c.parse_signature (c.signature_bytes sig) ≡ some read)
        × (c.recover digest read ≡ some (c.public_key key))

-- A provider draws the proposer of a height from the set of that height.
abbrev pub DrawsMembers : Poa → Type 0
DrawsMembers p =
    (provider : Provider) (number round addr : ℕ)
    → p.provider ≡ some provider
    → provider.proposer_at_height number round ≡ some addr
    → is_validator_at p addr number ≡ true

get_elem?-is_member : (xs : List ℕ) (i a : ℕ) → get_elem? xs i ≡ some a → is_member a xs ≡ true
unfolding is_member
get_elem?-is_member [] i a h = absurd (cc h)
get_elem?-is_member (x ∷ xs) zero a h = ground (arith, h)
get_elem?-is_member (x ∷ xs) (suc i) a h =
    let rest = get_elem?-is_member xs i a h in ground (arith, rest)

elected {ℓ} :
    {A : Type ℓ} (x : Option A) {a : A}
    → elim x as (λ y. Result Error A) [ none ↦ panic | some v ↦ ok v ] ≡ ok a
    → x ≡ some a
elected none h = absurd (cc h)
elected (some v) h = ap some (ok_inj h)

rotation-is_member :
    (set : List ℕ) (number round a : ℕ) → rotation set number round ≡ ok a → is_member a set ≡ true
unfolding rotation
rotation-is_member [] number round a h = absurd (cc h)
rotation-is_member (x ∷ xs) number round a h =
    get_elem?-is_member (x ∷ xs) _ a
      (elected (get_elem? (x ∷ xs) ((number + round) % 2 ^ 64 % length (x ∷ xs))) h)

proposer-is_validator :
    (p : Poa) (number round a : ℕ)
    → DrawsMembers p
    → proposer_at_round p number round ≡ ok a
    → is_validator_at p a number ≡ true
unfolding proposer_at_round is_validator_at
proposer-is_validator p number round a draws h = elim (Option-cases p.provider) [
  | inl alone ↦
      rotation-is_member (set_for p number) number round a (rw (proposer_at_round, alone) at h)
  | inr (provider, attached) ↦ elim (Option-cases (provider.proposer_at_height number round)) [
    | inl silent ↦
        rotation-is_member (set_for p number) number round a
          (rw (proposer_at_round, attached, silent) at h)
    | inr (b, drawn) ↦
        draws provider number round a attached
          (drawn ∙ ap some (ok_inj (rw (proposer_at_round, attached, drawn) at h)))
  ]
]

module _ (c : Secp) (p : Poa) where
  following_verified :
      (now : ℕ) (h parent : Header)
      → IsFollowing c p now h parent
      → verify_header c p now h (some parent) ≡ ok tt
  unfolding verify_header verify_numbered verify_timing verify_proposer verify_turn require
  following_verified now h parent f =
      let (n, there, here) = f.number_follows in
      let t1 = same_number h.parent_hash (hash c parent) f.parent_named in
      let t2 = le_leb (length h.extra) 32 f.extra_short in
      let t3 = le_leb h.round (length (set_for p (number_u64 h))) f.round_small in
      let t4 = le_leb (earliest_time_for p parent.time h.round) h.time f.round_open in
      let t5 = le_leb h.time ((now + 15) % 2 ^ 64) f.not_ahead in
      let t6 = same_number h.coinbase h.coinbase refl in
      let t7 = same_number (n + 1) (n + 1) refl in
      simp
        (
          verify_header, here, there, verify_numbered, t7, t1, t2, verify_timing, t3, t4, t5,
          f.sealed_by, verify_proposer, f.in_set, f.has_turn, verify_turn, t6,
        )
        refl

  prepared :
      (now : ℕ) (header_by_hash : ℕ → Option Header) (h h' parent : Header)
      → header_by_hash h.parent_hash ≡ some parent
      → prepare_header p now header_by_hash h ≡ ok h'
      → let round = prepare_round p (number_u64 h) parent.time now in
        (proposer : ℕ) × (proposer_at_round p (number_u64 h) round ≡ ok proposer)
        × (record h {
          round = round;
          coinbase = proposer;
          time = prepare_time p parent.time round now;
        }
            ≡ h')
  unfolding prepare_header expect
  prepared now header_by_hash h h' parent known prepares =
      let round = prepare_round p (number_u64 h) parent.time now in
      let (proposer, turn, made) =
        >>=-eq-ok (proposer_at_round p (number_u64 h) round)
          (λ proposer. ok (record h {
            round = round;
            coinbase = proposer;
            time = prepare_time p parent.time round now;
          }))
          (rw (prepare_header, known) at prepares) in
      (proposer, turn, ok_inj made)

  prepare_round-le :
      (number parent_time now : ℕ)
      → prepare_round p number parent_time now ≤ length (set_for p number)
  unfolding prepare_round
  prepare_round-le number parent_time now = ground arith

  prepare_time-le :
      (parent_time round now : ℕ)
      → earliest_time_for p parent_time round ≤ prepare_time p parent_time round now
  unfolding prepare_time
  prepare_time-le parent_time round now = ground arith

  author_sealed :
      (h : Header) (bytes : List ℕ) (read : c.Signature) (signer : c.PublicKey)
      → is_nil bytes ≡ false
      → c.parse_signature bytes ≡ some read
      → c.recover (sealing_hash c h) read ≡ some signer
      → author c (record h { proposer_seal = bytes }) ≡ ok (address_of c signer)
  unfolding author sealing_hash sealed_fields require expect
  author_sealed h bytes read signer there parsed recovered =
      simp (author, there, parsed, recovered) refl

  sealed :
      (key : c.PrivateKey) (h h' : Header)
      → Signs c
      → proposer_at_round p (number_u64 h) h.round ≡ ok h.coinbase
      → seal c p key h ≡ ok h'
      → (bytes : List ℕ) × (record h { proposer_seal = bytes } ≡ h') × (author c h' ≡ ok h.coinbase)
  unfolding seal
  sealed key h h' signs turn seals =
      let mine = address_of c (c.public_key key) == h.coinbase in
      let written : c.Signature → Result Error Header =
        λ sig. ok (record h { proposer_seal = c.signature_bytes sig }) in
      let signing = expect (c.sign key (sealing_hash c h)) not_signed in
      let (is_mine, r1) =
        required mine wrong_proposer_turn (signing >>= written) (rw (seal, turn) at seals) in
      let (sig, is, made) = >>=-eq-ok signing written r1 in
      let (read, parsed, recovered) =
        signs.recovers key (sealing_hash c h) sig (expect-some _ not_signed is) in
      (
        c.signature_bytes sig,
        ok_inj made,
        ap (author c) (sym (ok_inj made))
            ∙ (author_sealed h (c.signature_bytes sig) read (c.public_key key)
                  (signs.bytes_there sig) parsed recovered
                ∙ ap ok ((==_iff (address_of c (c.public_key key)) h.coinbase).0 is_mine)),
      )

  -- A header that Prepare and then Seal make, on a parent that the chain has under its hash, is
  -- accepted by VerifyHeader at any time that its own is not more than 15 seconds ahead of: for a
  -- number after the parent's, at most 32 bytes of extra data, signatures from which the signer can
  -- be recovered, and a provider that draws proposers from the set.
  pub verify_header-seal-prepare_header :
      (now later n : ℕ) (header_by_hash : ℕ → Option Header) (key : c.PrivateKey)
      (h h' h2 parent : Header)
      → Signs c
      → DrawsMembers p
      → header_by_hash h.parent_hash ≡ some parent
      → h.parent_hash ≡ hash c parent
      → parent.number ≡ some n
      → h.number ≡ some (n + 1)
      → length h.extra ≤ 32
      → prepare_header p now header_by_hash h ≡ ok h'
      → seal c p key h' ≡ ok h2
      → h'.time ≤ (later + 15) % 2 ^ 64
      → verify_header c p later h2 (some parent) ≡ ok tt
  unfolding number_u64
  verify_header-seal-prepare_header now later n header_by_hash key h h' h2 parent signs draws known
        named there here short prepares seals ahead =
      let round = prepare_round p (number_u64 h) parent.time now in
      let time = prepare_time p parent.time round now in
      let (proposer, turn, made) = prepared now header_by_hash h h' parent known prepares in
      let x : Header = record h { round = round; coinbase = proposer; time = time } in
      let seals' = subst (λ y. seal c p key y ≡ ok h2) (sym made) seals in
      let ahead' = subst (λ (y : Header). y.time ≤ (later + 15) % 2 ^ 64) (sym made) ahead in
      let (bytes, is, signed) = sealed key x h2 signs turn seals' in
      subst (λ y. verify_header c p later y (some parent) ≡ ok tt) is
        (following_verified later (record x { proposer_seal = bytes }) parent
          (record {
            number_follows = (n, there, here);
            parent_named = named;
            extra_short = short;
            round_small = prepare_round-le (number_u64 h) parent.time now;
            round_open = prepare_time-le parent.time round now;
            not_ahead = ahead';
            sealed_by = subst (λ y. author c y ≡ ok proposer) (sym is) signed;
            in_set = proposer-is_validator p (number_u64 h) round proposer draws turn;
            has_turn = turn;
          }))
