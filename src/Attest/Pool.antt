-- ===== src/Attest/Pool.antt =====
-- consensus/finality.go: AttestationPool. The lock is held through each method, so a method is one
-- step on the pool. Heights, hashes and validator indices are numbers; Go's nested maps are
-- dictionaries, and a missing inner map is an empty one.
pub mod Maps
pub mod Invariant
pub mod Safety
use padi_chain.Base.{
  ℕ, zero, suc, ◌+◌, ◌-◌, ◌≤◌, ◌<◌, Bool, true, false, not, ◌&&◌, ◌||◌, List, [], ◌∷◌, ◌++◌, map,
  Option, none, some, ltb, leb, ◌==◌, if◌then◌else◌, length, get_elem?, Result, ok, err, panic,
}
use padi_chain.Base.Maps.{Dict, lookup, contains, insert, erase}
use padi_chain.Attest.Bls.{Bls}
use padi_chain.Attest.Aggregate.{Aggregate, quorum, new_quorum_cert, verify_signature}
use padi_chain.Attest.Vote.{
  Attestation, Equivocation, verify_vote, detect_equivocation, verify_equivocation,
}

pub data Error : Type 0 where
  unknown_index equivocation : Error
  -- An error of core/attestation.go, passed on.
  core : padi_chain.Attest.Aggregate.Error → Error

abbrev pub Votes : Type 0
Votes = Dict (List ℕ)

-- Reading an inner map that is not there gives an empty one.
abbrev pub at_height {ℓ} : {V : Type ℓ} → ℕ → Dict (Dict V) → Dict V
at_height h d = elim (lookup h d) [ none ↦ [] | some m ↦ m ]

-- `p.votes[number][blockHash]`
abbrev pub votes_for : Dict (Dict Votes) → ℕ → ℕ → Votes
votes_for votes number block_hash = at_height block_hash (at_height number votes)

-- `p.votes[number][blockHash][index] = signature`, with the inner maps made on demand.
unfoldable pub put_vote : Dict (Dict Votes) → ℕ → ℕ → ℕ → List ℕ → Dict (Dict Votes)
put_vote votes number block_hash index signature =
    insert number
      (insert block_hash (insert index signature (votes_for votes number block_hash))
        (at_height number votes))
      votes

-- `delete(votes, index)` on the inner map of a height and a hash.
unfoldable pub drop_vote : Dict (Dict Votes) → ℕ → ℕ → ℕ → Dict (Dict Votes)
drop_vote votes number block_hash index =
    insert number
      (insert block_hash (erase index (votes_for votes number block_hash)) (at_height number votes))
      votes

-- `for height := range p.votes { if height < cutoff { … } }`: the heights that go.
unfoldable pub stale_heights {ℓ} : {V : Type ℓ} → ℕ → Dict V → List ℕ
stale_heights cutoff [] = []
stale_heights cutoff ((height, _) ∷ d) =
    if ltb height cutoff then height ∷ stale_heights cutoff d else stale_heights cutoff d

unfoldable pub erase_all {ℓ} : {V : Type ℓ} → List ℕ → Dict V → Dict V
erase_all [] d = d
erase_all (k ∷ ks) d = erase_all ks (erase k d)

-- IndexOf, over the addresses.
unfoldable pub index_of : ℕ → ℕ → List ℕ → Option ℕ
index_of i addr [] = none
index_of i addr (candidate ∷ rest) =
    if candidate == addr then some i else index_of (i + 1) addr rest

-- Evidence for this validator and height is already held.
unfoldable pub known_evidence : Equivocation → List Equivocation → Bool
known_evidence proof [] = false
known_evidence proof (existing ∷ rest) =
    ((existing.index == proof.index) && (existing.number == proof.number))
    || known_evidence proof rest

-- `if index < len(p.addresses) { proof.Validator = p.addresses[index] }`
unfoldable pub name_validator : List ℕ → ℕ → Equivocation → Equivocation
name_validator addresses index proof = elim (get_elem? addresses index) [
  | none ↦ proof
  | some addr ↦ record proof { validator = addr }
]

module _ (bls : Bls) where
  open bls use {PublicKey, key_from_bytes}

  pub record Pool : Type 0 where
    pub chain_id : ℕ
    pub keys : List (Option PublicKey)
    pub addresses : List ℕ
    -- height → block hash → validator index → signature
    pub votes : Dict (Dict Votes)
    -- height → validator index → the vote that it cast
    pub by_index : Dict (Dict Attestation)
    pub evidence : List Equivocation
    pub finalized : ℕ
    pub retain : ℕ

  -- `p.keys[i]`: nil for an empty or unreadable key.
  abbrev pub parse_key : List ℕ → Option PublicKey
  parse_key raw = if length raw == 0 then none else key_from_bytes raw

  -- setValidators, which is UpdateValidators under the lock.
  unfoldable pub update_validators : Pool → List ℕ → List (List ℕ) → Pool
  update_validators p addresses keys = record p { keys = map parse_key keys; addresses = addresses }

  -- NewAttestationPool
  unfoldable pub new_pool : ℕ → List ℕ → List (List ℕ) → Pool
  new_pool chain_id addresses keys = record {
    chain_id = chain_id;
    keys = map parse_key keys;
    addresses = addresses;
    votes = [];
    by_index = [];
    evidence = [];
    finalized = 0;
    retain = 256;
  }

  -- A second vote from a validator that has voted at this height.
  unfoldable pub add_again :
      Pool → Option PublicKey → Attestation → Attestation → Pool × Result Error Bool
  add_again p key previous a =
      if previous.block_hash == a.block_hash
      then (p, ok false)
      else elim (detect_equivocation bls p.chain_id key previous a) [
        | ok none ↦ (p, ok false)
        | ok (some proof) ↦ (
          record p { evidence = p.evidence ++ (name_validator p.addresses a.index proof ∷ []) },
          err equivocation,
        )
        | err e ↦ (p, err (core e))
        | panic ↦ (p, panic)
      ]

  -- The first vote of a validator at this height.
  unfoldable pub add_first : Pool → Attestation → Pool × Result Error Bool
  add_first p a = (
    record p {
      by_index = insert a.number (insert a.index a (at_height a.number p.by_index)) p.by_index;
      votes = put_vote p.votes a.number a.block_hash a.index a.signature;
    },
    ok true,
  )

  -- `if previous, ok := byIndex[index]; ok`
  abbrev pub add_seen :
      Pool → PublicKey → Attestation → Option Attestation → Pool × Result Error Bool
  add_seen p key a (some previous) = add_again p (some key) previous a
  add_seen p key a none = add_first p a

  -- Add; an index at or past 2^63 is a negative int, and out of range too.
  unfoldable pub add_vote : Pool → Attestation → Pool × Result Error Bool
  add_vote p a = elim (get_elem? p.keys a.index) [
    | none ↦ (p, err unknown_index)
    | some none ↦ (p, err unknown_index)
    | some (some key) ↦
        if ltb 0 p.finalized && leb a.number p.finalized
        then (p, ok false)
        else add_seen p key a (lookup a.index (at_height a.number p.by_index))
  ]

  -- One round of the loop of evictInvalidLocked.
  unfoldable pub evict_one : ℕ → ℕ → Pool × Bool → ℕ × List ℕ → Pool × Bool
  evict_one number block_hash (p, removed) (index, signature) = elim (get_elem? p.keys index) [
    | some (some key) ↦
        elim (verify_vote bls
          (record {
            number = number;
            block_hash = block_hash;
            index = index;
            signature = signature;
          })
          p.chain_id (some key)) [
            | ok _ ↦ (p, removed)
            | _ ↦ (
              record p {
                votes = drop_vote p.votes number block_hash index;
                by_index = insert number (erase index (at_height number p.by_index)) p.by_index;
              },
              true,
            )
          ]
    | _ ↦ (record p { votes = drop_vote p.votes number block_hash index }, true)
  ]

  unfoldable pub evict_loop : ℕ → ℕ → Pool × Bool → Votes → Pool × Bool
  evict_loop number block_hash state [] = state
  evict_loop number block_hash state (vote ∷ votes) =
      evict_loop number block_hash (evict_one number block_hash state vote) votes

  -- evictInvalidLocked
  unfoldable pub evict_invalid : Pool → ℕ → ℕ → Pool × Bool
  evict_invalid p number block_hash =
      evict_loop number block_hash (p, false) (votes_for p.votes number block_hash)

  -- The loop of Certificate. Each further round has fewer votes, so the fuel is their number and one.
  unfoldable pub certificate_loop : ℕ → Pool → ℕ → ℕ → Pool × Option Aggregate
  certificate_loop zero p number block_hash = (p, none)
  certificate_loop (suc fuel) p number block_hash =
      let votes = votes_for p.votes number block_hash in
      let again : Pool × Option Aggregate =
        let (p', removed) = evict_invalid p number block_hash in
        elim removed [ true ↦ certificate_loop fuel p' number block_hash | false ↦ (p', none) ] in
      if ltb (length votes) (quorum (length p.keys))
      then (p, none)
      else elim (new_quorum_cert bls number block_hash (length p.keys) votes) [
        | ok qc ↦ elim (verify_signature bls qc p.chain_id p.keys) [
          | ok _ ↦ (p, some qc)
          | _ ↦ again
        ]
        | _ ↦ (p, none)
      ]

  -- Certificate
  unfoldable pub certificate : Pool → ℕ → ℕ → Pool × Option Aggregate
  certificate p number block_hash =
      certificate_loop (suc (length (votes_for p.votes number block_hash))) p number block_hash

  -- VoteCount
  unfoldable pub vote_count : Pool → ℕ → ℕ → ℕ
  vote_count p number block_hash = length (votes_for p.votes number block_hash)

  -- MarkFinalized
  unfoldable pub mark_finalized : Pool → ℕ → Pool
  mark_finalized p number =
      if leb number p.finalized
      then p
      else if leb number p.retain
      then record p { finalized = number }
      else (let stale = stale_heights (number - p.retain) p.votes in
          record p {
            finalized = number;
            votes = erase_all stale p.votes;
            by_index = erase_all stale p.by_index;
          })

  -- AddEvidence
  unfoldable pub add_evidence : Pool → Equivocation → Pool × Result Error (Unit {0})
  add_evidence p proof = elim (get_elem? p.keys proof.index) [
    | some (some key) ↦ elim (verify_equivocation bls proof p.chain_id (some key)) [
      | ok _ ↦ if known_evidence proof p.evidence then (p, ok tt) else (
        record p { evidence = p.evidence ++ (name_validator p.addresses proof.index proof ∷ []) },
        ok tt,
      )
      | err e ↦ (p, err (core e))
      | panic ↦ (p, panic)
    ]
    | _ ↦ (p, err unknown_index)
  ]
