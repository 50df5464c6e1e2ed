-- ===== src/State/Views.antt =====
-- package state: what a StateDb shows of accounts and slots, and when one StateDb shows what another
-- does, with at most more accounts and slots cached.
use padi_chain.Base.{ℕ, ◌≡◌, refl, ◌∙◌, true, Option, none, some}
use padi_chain.Base.Maps.{lookup, contains}
use padi_chain.State.Objects.{
  Account, Object, StateDb, Backend, new_object, get_logs, slots_at, get_transient_state,
  read_through,
}

module _ (b : Backend) where
  -- The committed value of a slot, wherever it is read from.
  unfoldable pub committed_value : Object → ℕ → ℕ
  committed_value o key = elim (lookup key o.origin_storage) [
    | some value ↦ value
    | none ↦ elim (read_through b o key) [ none ↦ 0 | some value ↦ value ]
  ]

  -- The current value of a slot.
  unfoldable pub slot_value : Object → ℕ → ℕ
  slot_value o key = elim (lookup key o.dirty_storage) [
    | some value ↦ value
    | none ↦ committed_value o key
  ]

  -- Two objects with the same account, flags and values of slots, wherever these are read from.
  pub record Same (o p : Object) : Type 0 where
    pub same_data : o.data_of ≡ p.data_of
    pub same_destructed : o.self_destructed ≡ p.self_destructed
    pub same_deleted : o.deleted ≡ p.deleted
    pub same_created : o.created ≡ p.created
    pub same_committed : (key : ℕ) → committed_value o key ≡ committed_value p key
    pub same_slots : (key : ℕ) → slot_value o key ≡ slot_value p key

  pub Same-refl : (o : Object) → Same o o
  Same-refl o = record {
    same_data = refl;
    same_destructed = refl;
    same_deleted = refl;
    same_created = refl;
    same_committed = λ key. refl;
    same_slots = λ key. refl;
  }

  pub Same-trans : {o p q : Object} → Same o p → Same p q → Same o q
  Same-trans h k = record {
    same_data = h.same_data ∙ k.same_data;
    same_destructed = h.same_destructed ∙ k.same_destructed;
    same_deleted = h.same_deleted ∙ k.same_deleted;
    same_created = h.same_created ∙ k.same_created;
    same_committed = λ key. h.same_committed key ∙ k.same_committed key;
    same_slots = λ key. h.same_slots key ∙ k.same_slots key;
  }

  -- An address as two maps of objects have it: the first may have cached what the second would
  -- still read from the trie.
  unfoldable pub Cover : ℕ → Option Object → Option Object → Type 0
  Cover addr none none = Unit
  Cover addr none (some p) = ◌≡◌ {A = Option Object} none (some p)
  Cover addr (some o) (some p) = Same o p
  Cover addr (some o) none =
      (a : Account) × (b.read_account addr ≡ some (some a)) × Same o (new_object a)

  pub Cover-refl : (addr : ℕ) (x : Option Object) → Cover addr x x
  unfolding Cover
  Cover-refl addr none = tt
  Cover-refl addr (some o) = Same-refl o

  pub Cover-trans :
      (addr : ℕ) (x y z : Option Object) → Cover addr x y → Cover addr y z → Cover addr x z
  unfolding Cover
  Cover-trans addr none none none h k = tt
  Cover-trans addr none none (some p) h k = k
  Cover-trans addr none (some o) z h k = absurd (cc h)
  Cover-trans addr (some o) none none h k = h
  Cover-trans addr (some o) none (some p) h k = absurd (cc k)
  Cover-trans addr (some o) (some p) none h k = (k.0, k.1, Same-trans h k.2)
  Cover-trans addr (some o) (some p) (some q) h k = Same-trans h k

  -- The first state shows what the second does.
  pub record Shows (s t : StateDb) : Type 0 where
    pub objects_cover : (addr : ℕ) → Cover addr (lookup addr s.objects) (lookup addr t.objects)
    pub refund_same : s.refund ≡ t.refund
    pub logs_same : (tx : ℕ) → get_logs s tx ≡ get_logs t tx
    pub log_size_same : s.log_size ≡ t.log_size
    pub thash_same : s.thash ≡ t.thash
    pub tx_index_same : s.tx_index ≡ t.tx_index
    pub transient_same :
        (addr key : ℕ) → get_transient_state s addr key ≡ get_transient_state t addr key
    pub transient_kept :
        (addr : ℕ) → contains addr t.transient ≡ true → contains addr s.transient ≡ true
    pub addresses_same :
        (addr : ℕ) → contains addr s.accessed_addresses ≡ contains addr t.accessed_addresses
    pub slots_same :
        (addr key : ℕ)
        → contains key (slots_at addr s.accessed_slots)
          ≡ contains key (slots_at addr t.accessed_slots)

  pub Shows-refl : (s : StateDb) → Shows s s
  Shows-refl s = record {
    objects_cover = λ addr. Cover-refl addr (lookup addr s.objects);
    refund_same = refl;
    logs_same = λ tx. refl;
    log_size_same = refl;
    thash_same = refl;
    tx_index_same = refl;
    transient_same = λ addr key. refl;
    transient_kept = λ addr h. h;
    addresses_same = λ addr. refl;
    slots_same = λ addr key. refl;
  }

  pub Shows-trans : {s t u : StateDb} → Shows s t → Shows t u → Shows s u
  Shows-trans {s} {t} {u} h k = record {
    objects_cover = λ addr.
        Cover-trans addr (lookup addr s.objects) (lookup addr t.objects) (lookup addr u.objects)
          (h.objects_cover addr) (k.objects_cover addr);
    refund_same = h.refund_same ∙ k.refund_same;
    logs_same = λ tx. h.logs_same tx ∙ k.logs_same tx;
    log_size_same = h.log_size_same ∙ k.log_size_same;
    thash_same = h.thash_same ∙ k.thash_same;
    tx_index_same = h.tx_index_same ∙ k.tx_index_same;
    transient_same = λ addr key. h.transient_same addr key ∙ k.transient_same addr key;
    transient_kept = λ addr there. h.transient_kept addr (k.transient_kept addr there);
    addresses_same = λ addr. h.addresses_same addr ∙ k.addresses_same addr;
    slots_same = λ addr key. h.slots_same addr key ∙ k.slots_same addr key;
  }
