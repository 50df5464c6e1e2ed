-- ===== src/Poa/SealingTests.antt =====
-- Sealing a header with keys that are their own signatures.
use padi_chain.Base.{ℕ, ◌≡◌, refl, sym, List, [], ◌∷◌, Option, some, arith, ok}
use padi_chain.Poa.Engine.{
  proposer_at_round, rotation, set_for, prepare_round, prepare_time, round_for, earliest_time_for,
}
use padi_chain.Poa.Headers.{
  Header, Secp, verify_header, seal, prepare_header, hash, address_of, number_u64, require, expect,
}
use padi_chain.Poa.Sealing.{IsFollowing, verify_header-IsFollowing}
use padi_chain.Poa.Proposing.{Signs, DrawsMembers, verify_header-seal-prepare_header}
use padi_chain.Poa.Tests.{engine}

abbrev only_byte : List ℕ → ℕ
only_byte [] = 77
only_byte (x ∷ []) = x
only_byte (x ∷ y ∷ rest) = 77

abbrev own_keys : Secp
own_keys = record {
  PrivateKey = ℕ;
  PublicKey = ℕ;
  Signature = ℕ;
  keccak = only_byte;
  parse_signature = λ bytes. some (only_byte bytes);
  signature_bytes = λ sig. sig ∷ [];
  recover = λ digest sig. some sig;
  sign = λ key digest. some key;
  public_key = λ key. key;
  public_bytes = λ key. key ∷ [];
}

own_keys-Signs : Signs own_keys
own_keys-Signs = record {
  bytes_there = λ sig. refl;
  recovers = λ key digest sig h. (sig, refl, sym h);
}

engine-DrawsMembers : DrawsMembers engine
engine-DrawsMembers = λ provider number round addr attached drawn. absurd (cc attached)

abbrev header_at : ℕ → ℕ → ℕ → Header
header_at parent_hash number time = record {
  parent_hash = parent_hash;
  coinbase = 0;
  state_root = 1;
  tx_root = 2;
  receipt_root = 3;
  bloom = 0 ∷ 0 ∷ [];
  number = some number;
  gas_limit = 30000000;
  gas_used = 0;
  time = time;
  extra = 7 ∷ 7 ∷ [];
  base_fee = 0;
  round = 0;
  randao_reveal = [];
  justification = [];
  proposer_seal = [];
}

abbrev parent_header : Header
parent_header = header_at 4 10 100

abbrev by_hash : ℕ → Option Header
by_hash wanted = some parent_header

abbrev draft : Header
draft = header_at (hash own_keys parent_header) 11 0

abbrev prepared_draft : Header
prepared_draft = record draft { round = 2; coinbase = 5; time = 114 }

abbrev sealed_draft : Header
sealed_draft = record prepared_draft { proposer_seal = 5 ∷ [] }

draft_prepares : prepare_header engine 114 by_hash draft ≡ ok prepared_draft
unfolding prepare_header expect proposer_at_round rotation set_for number_u64 prepare_round
    round_for earliest_time_for prepare_time
draft_prepares = refl

draft_seals : seal own_keys engine 5 prepared_draft ≡ ok sealed_draft
unfolding seal expect require address_of proposer_at_round rotation set_for number_u64
draft_seals = refl

verify_header-seal-prepare_header_example :
    verify_header own_keys engine 114 sealed_draft (some parent_header) ≡ ok tt
verify_header-seal-prepare_header_example =
    verify_header-seal-prepare_header own_keys engine 114 114 10 by_hash 5 draft prepared_draft
      sealed_draft parent_header own_keys-Signs engine-DrawsMembers refl refl refl refl
      (omega arith) draft_prepares draft_seals (omega arith)

verify_header-IsFollowing_example : IsFollowing own_keys engine 114 sealed_draft parent_header
verify_header-IsFollowing_example =
    verify_header-IsFollowing own_keys engine 114 sealed_draft parent_header
      verify_header-seal-prepare_header_example
