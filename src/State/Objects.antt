-- ===== src/State/Objects.antt =====
-- core/account.go, and state/statedb.go up to its accessors: the objects of a StateDB and how they
-- are loaded. Addresses, slots and hashes are numbers. The tries and the store are read through a
-- backend, fixed while a transaction runs.
use padi_chain.Base.{
  ℕ, Bool, true, false, not, ◌&&◌, List, [], Option, none, some, ◌==◌, if◌then◌else◌, length,
}
use padi_chain.Base.Ints.{ℤ, pos, is_zero}
use padi_chain.Base.Maps.{Dict, lookup, insert}

-- EmptyCodeHash: Keccak256 of no bytes.
abbrev pub empty_code_hash : ℕ
empty_code_hash = 0xc5d2460186f7233c927e7db2dcc703c0e500b653ca82273b7bfad8045d85a470

-- EmptyRoot: Keccak256 of the byte 0x80.
abbrev pub empty_root : ℕ
empty_root = 0x56e81f171bcc55a6ff8345e692c0f86e5b48e01b996cadc001622fb5e363b421

-- A code hash of no bytes is the number 0.
pub record Account : Type 0 where
  pub nonce : ℕ
  pub balance : ℤ
  pub root : ℕ
  pub code_hash : ℕ

-- NewAccount
unfoldable pub new_account : Account
new_account = record { nonce = 0; balance = pos 0; root = empty_root; code_hash = empty_code_hash }

-- HasCode
unfoldable pub has_code : Account → Bool
has_code a = not (a.code_hash == 0) && not (a.code_hash == empty_code_hash)

-- IsEmpty
unfoldable pub is_empty : Account → Bool
is_empty a = (a.nonce == 0) && is_zero a.balance && not (has_code a)

-- stateObject
pub record Object : Type 0 where
  pub data_of : Account
  pub code : Option (List ℕ)
  pub code_dirty : Bool
  pub origin_storage : Dict ℕ
  pub dirty_storage : Dict ℕ
  pub self_destructed : Bool
  pub deleted : Bool
  pub created : Bool

-- newObject
unfoldable pub new_object : Account → Object
new_object a = record {
  data_of = record a {
    root = if a.root == 0 then empty_root else a.root;
    code_hash = if a.code_hash == 0 then empty_code_hash else a.code_hash;
  };
  code = none;
  code_dirty = false;
  origin_storage = [];
  dirty_storage = [];
  self_destructed = false;
  deleted = false;
  created = false;
}

pub record Log : Type 0 where
  pub address : ℕ
  pub topics : List ℕ
  pub data_bytes : List ℕ
  pub tx_hash : ℕ
  pub tx_index : ℕ
  pub index : ℕ

-- The kinds of journalEntry.
pub data Entry : Type 0 where
  create_object : ℕ → Option Object → Entry
  balance_change : ℕ → ℤ → Entry
  nonce_change : ℕ → ℕ → Entry
  code_change : ℕ → Option (List ℕ) → ℕ → Entry
  storage_change : ℕ → ℕ → ℕ → Bool → Entry
  transient_change : ℕ → ℕ → ℕ → Entry
  self_destruct_change : ℕ → Bool → ℤ → Entry
  refund_change : ℕ → Entry
  add_log_change : ℕ → Entry
  access_account_change : ℕ → Entry
  access_slot_change : ℕ → ℕ → Entry

-- revision
pub record Revision : Type 0 where
  pub id : ℕ
  pub journal_index : ℕ

-- StateDB; the newest journal entry stands first, and `has_error` is `s.err != nil`.
pub record StateDb : Type 0 where
  pub objects : Dict Object
  pub objects_dirty : Dict (Unit {0})
  pub code_cache : Dict (List ℕ)
  pub entries : List Entry
  pub dirties : Dict ℕ
  pub revisions : List Revision
  pub next_rev_id : ℕ
  pub refund : ℕ
  pub logs : Dict (List Log)
  pub log_size : ℕ
  pub accessed_addresses : Dict (Unit {0})
  pub accessed_slots : Dict (Dict (Unit {0}))
  pub transient : Dict (Dict ℕ)
  pub thash : ℕ
  pub tx_index : ℤ
  pub has_error : Bool

-- What the tries and the store answer; `none` is an error, which is the same at every call.
pub record Backend : Type 0 where
  -- The account trie: an account that is not there is `some none`.
  pub read_account : ℕ → Option (Option Account)
  -- A storage trie by its root, with 0 for a slot that is not there.
  pub read_slot : ℕ → ℕ → Option ℕ
  pub read_code : ℕ → Option (List ℕ)
  pub keccak : List ℕ → ℕ

-- setError
unfoldable pub set_error : StateDb → StateDb
set_error s = record s { has_error = true }

unfoldable pub put_object : StateDb → ℕ → Object → StateDb
put_object s addr o = record s { objects = insert addr o s.objects }

unfoldable pub mark_dirty : StateDb → ℕ → StateDb
mark_dirty s addr = record s { objects_dirty = insert addr tt s.objects_dirty }

unfoldable pub unless_deleted : Object → Option Object
unless_deleted o = if o.deleted then none else some o

module _ (b : Backend) where
  -- The part of getStateObject behind the map.
  unfoldable pub load_object : StateDb → ℕ → StateDb × Option Object
  load_object s addr = elim (b.read_account addr) [
    | none ↦ (set_error s, none)
    | some none ↦ (s, none)
    | some (some account) ↦ let o = new_object account in (put_object s addr o, some o)
  ]

  -- getStateObject
  unfoldable pub get_state_object : StateDb → ℕ → StateDb × Option Object
  get_state_object s addr = elim (lookup addr s.objects) [
    | some o ↦ (s, unless_deleted o)
    | none ↦ load_object s addr
  ]

  -- committedState behind its cache: a created account has no inherited storage.
  unfoldable pub read_through : Object → ℕ → Option ℕ
  read_through o key = if o.created then some 0 else b.read_slot o.data_of.root key

  -- committedState; the object is the one that the map has at the address.
  unfoldable pub committed_state : StateDb → ℕ → Object → ℕ → StateDb × ℕ
  committed_state s addr o key = elim (lookup key o.origin_storage) [
    | some value ↦ (s, value)
    | none ↦ elim (read_through o key) [
      | none ↦ (set_error s, 0)
      | some value ↦ (
        put_object s addr (record o { origin_storage = insert key value o.origin_storage }),
        value,
      )
    ]
  ]

  -- The value of a slot of an object: pending or committed.
  unfoldable pub state_of : StateDb → ℕ → Object → ℕ → StateDb × ℕ
  state_of s addr o key = elim (lookup key o.dirty_storage) [
    | some value ↦ (s, value)
    | none ↦ committed_state s addr o key
  ]

  unfoldable pub code_from_store :
      StateDb → ℕ → Object → Option (List ℕ) → StateDb × Option (List ℕ)
  code_from_store s addr o none = (set_error s, none)
  code_from_store s addr o (some code) = (
    put_object (record s { code_cache = insert o.data_of.code_hash code s.code_cache }) addr
        (record o { code = some code }),
    some code,
  )

  unfoldable pub code_from_cache :
      StateDb → ℕ → Object → Option (List ℕ) → StateDb × Option (List ℕ)
  code_from_cache s addr o none = code_from_store s addr o (b.read_code o.data_of.code_hash)
  code_from_cache s addr o (some code) =
      (put_object s addr (record o { code = some code }), some code)

  unfoldable pub code_from_hash : StateDb → ℕ → Object → Bool → StateDb × Option (List ℕ)
  code_from_hash s addr o true = (s, none)
  code_from_hash s addr o false = code_from_cache s addr o (lookup o.data_of.code_hash s.code_cache)

  unfoldable pub code_from_object :
      StateDb → ℕ → Object → Option (List ℕ) → StateDb × Option (List ℕ)
  code_from_object s addr o (some code) = (s, some code)
  code_from_object s addr o none = code_from_hash s addr o (o.data_of.code_hash == empty_code_hash)

  -- codeOf: from the object, the cache of codes or the store.
  unfoldable pub code_of : StateDb → ℕ → Object → StateDb × Option (List ℕ)
  code_of s addr o = code_from_object s addr o o.code

  -- Exist
  unfoldable pub exist : StateDb → ℕ → StateDb × Bool
  exist s addr =
      let (s', o) = get_state_object s addr in (s', elim o [ none ↦ false | some _ ↦ true ])

  -- Empty
  unfoldable pub empty : StateDb → ℕ → StateDb × Bool
  empty s addr =
      let (s', o) = get_state_object s addr in
      (s', elim o [ none ↦ true | some o ↦ is_empty o.data_of ])

  -- GetBalance
  unfoldable pub get_balance : StateDb → ℕ → StateDb × ℤ
  get_balance s addr =
      let (s', o) = get_state_object s addr in
      (s', elim o [ none ↦ pos 0 | some o ↦ o.data_of.balance ])

  -- GetNonce
  unfoldable pub get_nonce : StateDb → ℕ → StateDb × ℕ
  get_nonce s addr =
      let (s', o) = get_state_object s addr in (s', elim o [ none ↦ 0 | some o ↦ o.data_of.nonce ])

  -- GetCodeHash
  unfoldable pub get_code_hash : StateDb → ℕ → StateDb × ℕ
  get_code_hash s addr =
      let (s', o) = get_state_object s addr in
      (s', elim o [ none ↦ 0 | some o ↦ o.data_of.code_hash ])

  -- GetCode
  unfoldable pub get_code : StateDb → ℕ → StateDb × Option (List ℕ)
  get_code s addr =
      let (s', o) = get_state_object s addr in
      elim o [ none ↦ (s', none) | some o ↦ code_of s' addr o ]

  -- GetCodeSize
  unfoldable pub get_code_size : StateDb → ℕ → StateDb × ℕ
  get_code_size s addr =
      let (s', code) = get_code s addr in (s', elim code [ none ↦ 0 | some bytes ↦ length bytes ])

  -- GetState
  unfoldable pub get_state : StateDb → ℕ → ℕ → StateDb × ℕ
  get_state s addr key =
      let (s', o) = get_state_object s addr in
      elim o [ none ↦ (s', 0) | some o ↦ state_of s' addr o key ]

  -- GetCommittedState
  unfoldable pub get_committed_state : StateDb → ℕ → ℕ → StateDb × ℕ
  get_committed_state s addr key =
      let (s', o) = get_state_object s addr in
      elim o [ none ↦ (s', 0) | some o ↦ committed_state s' addr o key ]

  -- HasSelfDestructed
  unfoldable pub has_self_destructed : StateDb → ℕ → StateDb × Bool
  has_self_destructed s addr =
      let (s', o) = get_state_object s addr in
      (s', elim o [ none ↦ false | some o ↦ o.self_destructed ])

-- GetRefund and GetLogs
unfoldable pub get_refund : StateDb → ℕ
get_refund s = s.refund

unfoldable pub get_logs : StateDb → ℕ → List Log
get_logs s hash = elim (lookup hash s.logs) [ none ↦ [] | some logs ↦ logs ]

unfoldable pub slots_at {ℓ} : {V : Type ℓ} → ℕ → Dict (Dict V) → Dict V
slots_at addr d = elim (lookup addr d) [ none ↦ [] | some slots ↦ slots ]

-- GetTransientState
unfoldable pub get_transient_state : StateDb → ℕ → ℕ → ℕ
get_transient_state s addr key = elim (lookup key (slots_at addr s.transient)) [
  | none ↦ 0
  | some value ↦ value
]
