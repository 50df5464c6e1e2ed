-- ===== src/Staking/Packing.antt =====
-- staking/registry.go: what packCore and SaveEpochState write, unpackCore and LoadEpochState read.
use padi_chain.Base.{ℕ, ◌^◌, ◌<◌, ◌≡◌, refl, Option, none, some, arith}
use padi_chain.Staking.Registry.{
  Validator, get_uint64, put_uint64, pack_core, read_key, high_of, low_of,
}

-- The record has a form in storage: each field in its width, and no key of zeros.
pub record IsStorable (v : Validator) : Type 0 where
  pub status_small : v.status < 256
  pub activation_small : v.activation_epoch < 2 ^ 64
  pub exit_small : v.exit_epoch < 2 ^ 64
  pub withdrawable_small : v.withdrawable_epoch < 2 ^ 64
  pub slashed_small : v.slashed_epoch < 2 ^ 56
  pub address_small : v.address < 2 ^ 160
  pub withdrawal_small : v.withdrawal_address < 2 ^ 160
  pub balance_small : v.balance < 2 ^ 256
  pub key_proper : (k : ℕ) → v.bls_public_key ≡ some k → (0 < k) × (k < 2 ^ 384)

pub pack_status : (v : Validator) → IsStorable v → get_uint64 (pack_core v) 31 1 ≡ v.status
unfolding get_uint64 pack_core put_uint64
pack_status v h = omega (arith, h.status_small)

pub pack_activation :
    (v : Validator) → IsStorable v → get_uint64 (pack_core v) 23 8 ≡ v.activation_epoch
unfolding get_uint64 pack_core put_uint64
pack_activation v h = omega (arith, h.activation_small)

pub pack_exit : (v : Validator) → IsStorable v → get_uint64 (pack_core v) 15 8 ≡ v.exit_epoch
unfolding get_uint64 pack_core put_uint64
pack_exit v h = omega (arith, h.exit_small)

pub pack_withdrawable :
    (v : Validator) → IsStorable v → get_uint64 (pack_core v) 7 8 ≡ v.withdrawable_epoch
unfolding get_uint64 pack_core put_uint64
pack_withdrawable v h = omega (arith, h.withdrawable_small)

pub pack_slashed : (v : Validator) → IsStorable v → get_uint64 (pack_core v) 0 7 ≡ v.slashed_epoch
unfolding get_uint64 pack_core put_uint64
pack_slashed v h = omega (arith, h.slashed_small)

pub key_back :
    (o : Option ℕ)
    → ((k : ℕ) → o ≡ some k → (0 < k) × (k < 2 ^ 384))
    → read_key (high_of o) (low_of o) ≡ o
unfolding read_key high_of low_of
key_back none h = refl
key_back (some k) h = ground (arith, h k refl)
