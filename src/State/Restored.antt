-- ===== src/State/Restored.antt =====
-- state/journal.go: what the maps of a state hold after an entry is reverted.
use padi_chain.Base.{
  ℕ, ◌≡◌, refl, true, false, ◌&&◌, List, [], ◌∷◌, some, ◌==◌, if◌then◌else◌, length, arith, inl,
  inr, Option-cases,
}
use padi_chain.Base.Maps.{Dict, lookup, contains, insert, erase, lookup-insert, lookup-erase}
use padi_chain.State.Objects.{StateDb, get_logs, slots_at, get_transient_state}
use padi_chain.State.Journal.{drop_last, pop_log, restore_transient, drop_slot}

drop_last_one {ℓ} : {A : Type ℓ} (xs : List A) → (length xs == 1) ≡ true → drop_last xs ≡ []
unfolding drop_last
drop_last_one [] h = refl
drop_last_one (x ∷ []) h = refl
drop_last_one (x ∷ y ∷ rest) h = ground (arith)

-- The logs of a transaction, behind a popped one.
pub get_logs-pop_log :
    (tx at : ℕ) (s : StateDb)
    → get_logs (record s { logs = pop_log tx s.logs }) at
      ≡ (if at == tx then drop_last (get_logs s tx) else get_logs s at)
unfolding get_logs pop_log drop_last
get_logs-pop_log tx at s = ground (
  arith,
  lookup-insert at tx (drop_last (get_logs s tx)) s.logs,
  lookup-erase at tx s.logs,
  drop_last_one (get_logs s tx),
)

pub restored_transient :
    (addr key prev at k : ℕ) (s : StateDb)
    → contains addr s.transient ≡ true
    → get_transient_state
        (record s { transient = restore_transient addr key prev s.transient })
        at
        k
      ≡ (if (at == addr) && (k == key) then prev else get_transient_state s at k)
unfolding get_transient_state restore_transient slots_at
restored_transient addr key prev at k s there = ground (
  arith,
  lookup-insert at addr (insert key prev (slots_at addr s.transient)) s.transient,
  lookup-insert at addr (erase key (slots_at addr s.transient)) s.transient,
  lookup-insert k key prev (slots_at addr s.transient),
  lookup-erase k key (slots_at addr s.transient),
)

pub contains-restore_transient :
    (addr key prev at : ℕ) (d : Dict (Dict ℕ))
    → contains at (restore_transient addr key prev d) ≡ contains at d
unfolding restore_transient slots_at
contains-restore_transient addr key prev at d = ground (
  arith,
  lookup-insert at addr (insert key prev (slots_at addr d)) d,
  lookup-insert at addr (erase key (slots_at addr d)) d,
)

pub dropped_slot :
    (addr slot at k : ℕ) (d : Dict (Dict (Unit {0})))
    → contains k (slots_at at (drop_slot addr slot d))
      ≡ (if (at == addr) && (k == slot) then false else contains k (slots_at at d))
unfolding drop_slot slots_at
dropped_slot addr slot at k d = ground (
  arith,
  lookup-insert at addr (erase slot (slots_at addr d)) d,
  lookup-erase k slot (slots_at addr d),
)

pub erased_slots :
    (addr at k : ℕ) (d : Dict (Dict (Unit {0})))
    → contains k (slots_at at (erase addr d))
      ≡ (if at == addr then false else contains k (slots_at at d))
unfolding slots_at
erased_slots addr at k d = ground (arith, lookup-erase at addr d)

pub there {ℓ} :
    {V : Type ℓ} (key : ℕ) (d : Dict V) → contains key d ≡ true → (v : V) × (lookup key d ≡ some v)
there key d h = elim (Option-cases (lookup key d)) [
  | inl absent ↦ absurd (cc (rw (absent, contains) at h))
  | inr found ↦ found
]
