-- ===== src/Staking/Store.antt =====
-- staking/registry.go: StateAccess, the storage and the balances that the registry stands on.
-- A storage key is the hash of a label, alone or with an index or an address. Each label has its
-- own part of the store here, so that two keys are equal only for one label and one index.
-- A word of 32 bytes is the number that its bytes stand for, and so is an address.
use padi_chain.Base.{ℕ, ◌==◌, if◌then◌else◌}
use padi_chain.Base.Ints.{ℤ, credit, debit}

abbrev pub update : (ℕ → ℕ) → ℕ → ℕ → ℕ → ℕ
update part key word at = if at == key then word else part at

pub record Store : Type 0 where
  pub count_word : ℕ
  pub epoch_word : ℕ
  pub randao_word : ℕ
  pub index_words : ℕ → ℕ
  pub core_words : ℕ → ℕ
  pub addr_words : ℕ → ℕ
  pub withdrawal_words : ℕ → ℕ
  pub balance_words : ℕ → ℕ
  pub bls_hi_words : ℕ → ℕ
  pub bls_lo_words : ℕ → ℕ
  pub slashed_words : ℕ → ℕ
  pub accounts : ℕ → ℤ

-- StakingAddress
abbrev pub staking_address : ℕ
staking_address = 0xff

unfoldable pub add_balance : Store → ℕ → ℕ → Store
add_balance s address amount = record s {
  accounts = λ at. if at == address then credit (s.accounts at) amount else s.accounts at;
}

unfoldable pub sub_balance : Store → ℕ → ℕ → Store
sub_balance s address amount = record s {
  accounts = λ at. if at == address then debit (s.accounts at) amount else s.accounts at;
}
