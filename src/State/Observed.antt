-- ===== src/State/Observed.antt =====
-- state/statedb.go: states that show the same answer the accessors of Agrees alike.
use padi_chain.Base.{
  ℕ, ◌≡◌, refl, ap, ap₂, sym, ◌∙◌, Bool, true, false, Option, none, some, if◌then◌else◌, inl, inr,
  Option-cases,
}
use padi_chain.Base.Ints.{pos}
use padi_chain.Base.Maps.{lookup}
use padi_chain.State.Objects.{
  Object, StateDb, Backend, new_object, unless_deleted, is_empty, load_object, get_state_object,
  read_through, committed_state, state_of, exist, empty, get_balance, get_nonce, get_code_hash,
  get_state, get_committed_state, has_self_destructed, get_refund, get_logs, get_transient_state,
}
use padi_chain.State.Access.{address_in_access_list, slot_in_access_list}
use padi_chain.State.Views.{committed_value, slot_value, Same, Same-refl, Cover, Shows}

module _ (b : Backend) where
  -- Two states that answer Exist, Empty, GetBalance, GetNonce, GetCodeHash, GetState,
  -- GetCommittedState, HasSelfDestructed, GetRefund, GetLogs, GetTransientState, AddressInAccessList
  -- and SlotInAccessList alike. Left out are GetCode and GetCodeSize, which read the code cache, Error,
  -- which reads the first error, and Logs: the journal restores neither the cache nor the error.
  pub record Agrees (s t : StateDb) : Type 0 where
    pub exists_alike : (addr : ℕ) → (exist b s addr).1 ≡ (exist b t addr).1
    pub empty_alike : (addr : ℕ) → (empty b s addr).1 ≡ (empty b t addr).1
    pub balance_alike : (addr : ℕ) → (get_balance b s addr).1 ≡ (get_balance b t addr).1
    pub nonce_alike : (addr : ℕ) → (get_nonce b s addr).1 ≡ (get_nonce b t addr).1
    pub code_hash_alike : (addr : ℕ) → (get_code_hash b s addr).1 ≡ (get_code_hash b t addr).1
    pub state_alike : (addr key : ℕ) → (get_state b s addr key).1 ≡ (get_state b t addr key).1
    pub committed_alike :
        (addr key : ℕ) → (get_committed_state b s addr key).1 ≡ (get_committed_state b t addr key).1
    pub destructed_alike :
        (addr : ℕ) → (has_self_destructed b s addr).1 ≡ (has_self_destructed b t addr).1
    pub refund_alike : get_refund s ≡ get_refund t
    pub logs_alike : (tx : ℕ) → get_logs s tx ≡ get_logs t tx
    pub transient_alike :
        (addr key : ℕ) → get_transient_state s addr key ≡ get_transient_state t addr key
    pub address_alike : (addr : ℕ) → address_in_access_list s addr ≡ address_in_access_list t addr
    pub slot_alike :
        (addr slot : ℕ) → slot_in_access_list s addr slot ≡ slot_in_access_list t addr slot

  -- No object on either side, or two alike.
  Alike : Option Object → Option Object → Type 0
  Alike none none = Unit
  Alike (some o) (some p) = Same b o p
  Alike none (some p) = ◌≡◌ {A = Option Object} none (some p)
  Alike (some o) none = ◌≡◌ {A = Option Object} (some o) none

  Alike-refl : (x : Option Object) → Alike x x
  unfolding Alike
  Alike-refl none = tt
  Alike-refl (some o) = Same-refl b o

  live-Alike :
      (o p : Object) (gone lost : Bool)
      → gone ≡ lost
      → Same b o p
      → Alike (if gone then none else some o) (if lost then none else some p)
  unfolding Alike
  live-Alike o p true true h same = tt
  live-Alike o p false false h same = same
  live-Alike o p true false h same = absurd (cc h)
  live-Alike o p false true h same = absurd (cc h)

  -- The object that getStateObject gives, by what the map has.
  unfoldable pub fetched : ℕ → Option Object
  fetched addr = elim (b.read_account addr) [
    | none ↦ none
    | some none ↦ none
    | some (some account) ↦ some (new_object account)
  ]

  unfoldable pub shown : ℕ → Option Object → Option Object
  shown addr none = fetched addr
  shown addr (some o) = unless_deleted o

  load_object-fetched : (s : StateDb) (addr : ℕ) → (load_object b s addr).1 ≡ fetched addr
  unfolding load_object fetched
  load_object-fetched s addr = elim (Option-cases (b.read_account addr)) [
    | inl failed ↦ rw (load_object, fetched, failed) refl
    | inr (none, read) ↦ rw (load_object, fetched, read) refl
    | inr (some a, read) ↦ rw (load_object, fetched, read) refl
  ]

  pub get_state_object-shown :
      (s : StateDb) (addr : ℕ) → (get_state_object b s addr).1 ≡ shown addr (lookup addr s.objects)
  unfolding get_state_object shown
  get_state_object-shown s addr = elim (Option-cases (lookup addr s.objects)) [
    | inl absent ↦ rw (get_state_object, shown, absent) (load_object-fetched s addr)
    | inr (o, here) ↦ rw (get_state_object, shown, here) refl
  ]

  shown-Alike :
      (addr : ℕ) (x y : Option Object) → Cover b addr x y → Alike (shown addr x) (shown addr y)
  unfolding Cover shown fetched unless_deleted new_object
  shown-Alike addr none none cover = Alike-refl (fetched addr)
  shown-Alike addr none (some p) cover = absurd (cc cover)
  shown-Alike addr (some o) none (a, read, same) =
      rw (fetched, read) (live-Alike o (new_object a) o.deleted false same.same_deleted same)
  shown-Alike addr (some o) (some p) same =
      live-Alike o p o.deleted p.deleted same.same_deleted same

  unfoldable pub view {ℓ} : {V : Type ℓ} → V → (Object → V) → Option Object → V
  view z f none = z
  view z f (some o) = f o

  view-Alike {ℓ} :
      {V : Type ℓ} (z : V) (f : Object → V)
      → ((o p : Object) → Same b o p → f o ≡ f p)
      → (x y : Option Object) → Alike x y
      → view z f x ≡ view z f y
  unfolding Alike view
  view-Alike z f h none none like = refl
  view-Alike z f h (some o) (some p) like = h o p like
  view-Alike z f h none (some p) like = absurd (cc like)
  view-Alike z f h (some o) none like = absurd (cc like)

  found-Alike :
      {s t : StateDb} (addr : ℕ)
      → Shows b s t
      → Alike (get_state_object b s addr).1 (get_state_object b t addr).1
  found-Alike {s} {t} addr h =
      rw (get_state_object-shown s addr, get_state_object-shown t addr)
        (shown-Alike addr (lookup addr s.objects) (lookup addr t.objects) (h.objects_cover addr))

  committed_state-value :
      (s : StateDb) (addr : ℕ) (o : Object) (key : ℕ)
      → (committed_state b s addr o key).1 ≡ committed_value b o key
  unfolding committed_state committed_value
  committed_state-value s addr o key = elim (Option-cases (lookup key o.origin_storage)) [
    | inr (v, at) ↦ rw (committed_state, committed_value, at) refl
    | inl absent ↦ elim (Option-cases (read_through b o key)) [
      | inl failed ↦ rw (committed_state, committed_value, absent, failed) refl
      | inr (v, read) ↦ rw (committed_state, committed_value, absent, read) refl
    ]
  ]

  pub state_of-value :
      (s : StateDb) (addr : ℕ) (o : Object) (key : ℕ)
      → (state_of b s addr o key).1 ≡ slot_value b o key
  unfolding state_of slot_value
  state_of-value s addr o key = elim (Option-cases (lookup key o.dirty_storage)) [
    | inr (v, at) ↦ rw (state_of, slot_value, at) refl
    | inl absent ↦ rw (state_of, slot_value, absent) (committed_state-value s addr o key)
  ]

  read_value :
      (f : Object → StateDb × ℕ) (g : Object → ℕ) (r : StateDb × Option Object)
      → ((o : Object) → (f o).1 ≡ g o)
      → (elim r.1 as (λ x. StateDb × ℕ) [ none ↦ (r.0, 0) | some o ↦ f o ]).1 ≡ view 0 g r.1
  unfolding view
  read_value f g (s, none) h = refl
  read_value f g (s, some o) h = h o

  pub get_state-view :
      (s : StateDb) (addr key : ℕ)
      → (get_state b s addr key).1 ≡ view 0 (λ o. slot_value b o key) (get_state_object b s addr).1
  unfolding get_state
  get_state-view s addr key =
      let r = get_state_object b s addr in
      read_value (λ o. state_of b r.0 addr o key) (λ o. slot_value b o key) r
        (λ o. state_of-value r.0 addr o key)

  get_committed_state-view :
      (s : StateDb) (addr key : ℕ)
      → (get_committed_state b s addr key).1
        ≡ view 0 (λ o. committed_value b o key) (get_state_object b s addr).1
  unfolding get_committed_state
  get_committed_state-view s addr key =
      let r = get_state_object b s addr in
      read_value (λ o. committed_state b r.0 addr o key) (λ o. committed_value b o key) r
        (λ o. committed_state-value r.0 addr o key)

  seen_alike :
      {V : Type 0} {s t : StateDb} (z : V) (f : Object → V)
      → ((o p : Object) → Same b o p → f o ≡ f p)
      → Shows b s t
      → (addr : ℕ) → view z f (get_state_object b s addr).1 ≡ view z f (get_state_object b t addr).1
  seen_alike z f k h addr = view-Alike z f k _ _ (found-Alike addr h)

  pub Shows-Agrees : {s t : StateDb} → Shows b s t → Agrees s t
  unfolding exist empty get_balance get_nonce get_code_hash has_self_destructed get_refund
      address_in_access_list slot_in_access_list view
  Shows-Agrees {s} {t} h = record {
    exists_alike = seen_alike false (λ o. true) (λ o p same. refl) h;
    empty_alike =
        seen_alike true (λ o. is_empty o.data_of) (λ o p same. ap is_empty same.same_data) h;
    balance_alike =
        seen_alike (pos 0) (λ o. o.data_of.balance) (λ o p same. ap (λ a. a.balance) same.same_data)
          h;
    nonce_alike =
        seen_alike 0 (λ o. o.data_of.nonce) (λ o p same. ap (λ a. a.nonce) same.same_data) h;
    code_hash_alike =
        seen_alike 0 (λ o. o.data_of.code_hash) (λ o p same. ap (λ a. a.code_hash) same.same_data)
          h;
    state_alike = λ addr key.
        get_state-view s addr key
        ∙ (seen_alike 0 (λ o. slot_value b o key) (λ o p same. same.same_slots key) h addr
            ∙ sym (get_state-view t addr key));
    committed_alike = λ addr key.
        get_committed_state-view s addr key
        ∙ (seen_alike 0 (λ o. committed_value b o key) (λ o p same. same.same_committed key) h addr
            ∙ sym (get_committed_state-view t addr key));
    destructed_alike =
        seen_alike false (λ o. o.self_destructed) (λ o p same. same.same_destructed) h;
    refund_alike = h.refund_same;
    logs_alike = h.logs_same;
    transient_alike = h.transient_same;
    address_alike = h.addresses_same;
    slot_alike = λ addr slot. ap₂ (λ x y. (x, y)) (h.addresses_same addr) (h.slots_same addr slot);
  }
