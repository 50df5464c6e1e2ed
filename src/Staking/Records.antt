-- ===== src/Staking/Records.antt =====
-- staking/registry.go: the registry as a table of records.
use padi_chain.Base.{
  ℕ, ◌%◌, ◌^◌, ◌<◌, ◌≡◌, refl, ◌≢◌, true, false, arith, leb, ◌==◌, ==_iff, if◌then◌else◌, ok,
  Bool-cases, inl, inr,
}
use padi_chain.Staking.Params.{compute_effective_balance}
use padi_chain.Staking.Store.{Store}
use padi_chain.Staking.Registry.{Validator, unpack_core, read, get, put, count}
use padi_chain.Staking.Packing.{
  IsStorable, pack_status, pack_activation, pack_exit, pack_withdrawable, pack_slashed, key_back,
}

pub self_test : (i : ℕ) → (i == i) ≡ true
self_test i = (==_iff i i).1 refl

pub other_test : (i j : ℕ) → i ≢ j → (i == j) ≡ false
other_test i j ne = ground arith

low160 : (a : ℕ) → a < 2 ^ 160 → a % 2 ^ 160 ≡ a
low160 a h = omega arith

pub low256 : (a : ℕ) → a < 2 ^ 256 → a % 2 ^ 256 ≡ a
low256 a h = omega arith

-- What a reader sees of a record: its effective balance follows from its balance.
pub as_read : Validator → Validator
as_read v = record v { effective_balance = compute_effective_balance v.balance }

read-put : (s : Store) (v : Validator) → IsStorable v → read (put s v) v.index ≡ as_read v
unfolding read put unpack_core as_read
read-put s v h =
    rw
      (
        self_test v.index,
        pack_status v h,
        pack_activation v h,
        pack_exit v h,
        pack_withdrawable v h,
        pack_slashed v h,
        key_back v.bls_public_key h.key_proper,
        low160 v.address h.address_small,
        low160 v.withdrawal_address h.withdrawal_small,
        low256 v.balance h.balance_small,
      )
      refl

read-put_other : (s : Store) (v : Validator) (i : ℕ) → i ≢ v.index → read (put s v) i ≡ read s i
unfolding read put
read-put_other s v i ne = rw (other_test i v.index ne) refl

other_index : (i j : ℕ) → (i == j) ≡ false → i ≢ j
other_index i j h = ground arith

ge_test : (n i : ℕ) → i < n → leb n i ≡ false
ge_test n i h = ground arith

-- Get after Put: the record that was put, with the effective balance of its balance, and every
-- other record as before, for a record with a form in storage and an index in use.
pub get-put :
    (s : Store) (v : Validator) (i : ℕ)
    → IsStorable v
    → v.index < count s
    → get (put s v) i ≡ (if i == v.index then ok (as_read v) else get s i)
unfolding get count put as_read
get-put s v i h lt = elim (Bool-cases (i == v.index)) [
  | inl same ↦
      let at = (==_iff i v.index).0 same in
      rw (same, at, ge_test (count s) v.index lt, read-put s v h) refl
  | inr other ↦ rw (other, read-put_other s v i (other_index i v.index other)) refl
]
