-- ===== src/State/Blocks.antt =====
-- state/statedb.go: the pieces that the operations are made of, each of which can be undone.
use padi_chain.Base.{
  ℕ, ◌≡◌, refl, ap, sym, ◌∙◌, Bool, true, List, [], ◌∷◌, Option, none, some, ◌==◌, ==_iff, arith,
  inl, inr, Bool-cases,
}
use padi_chain.Base.Maps.{Dict, lookup, contains, insert, erase, lookup-insert, lookup-erase}
use mathlib.Core.Path.{subst}
use padi_chain.State.Objects.{
  Object, StateDb, Backend, get_logs, put_object, get_transient_state, Entry, create_object,
}
use padi_chain.State.Journal.{revert, revert_one, with_object, count_down, dirtied}
use padi_chain.State.Views.{Same, Cover, Cover-refl, Shows}
use padi_chain.State.Reverted.{Touches, with_object-some}
use padi_chain.State.Rollback.{IsWarm, undo, Grounded, Undoable}

-- A state with other objects, caches and journal, as the operations on accounts leave it.
abbrev pub framed :
    StateDb → Dict Object → Dict (Unit {0}) → Dict (List ℕ) → List Entry → Dict ℕ → Bool → StateDb
framed s objects objects_dirty code_cache entries dirties has_error = record s {
  objects = objects;
  objects_dirty = objects_dirty;
  code_cache = code_cache;
  entries = entries;
  dirties = dirties;
  has_error = has_error;
}

self_test : (i : ℕ) → (i == i) ≡ true
self_test i = (==_iff i i).1 refl

pub lookup-insert_self {ℓ} :
    {V : Type ℓ} (key : ℕ) (v : V) (d : Dict V) → lookup key (insert key v d) ≡ some v
lookup-insert_self key v d = rw (lookup-insert key key v d, self_test key) refl

contains-insert_self {ℓ} :
    {V : Type ℓ} (key : ℕ) (v : V) (d : Dict V) → contains key (insert key v d) ≡ true
contains-insert_self key v d = rw (contains, lookup-insert key key v d, self_test key) refl

module _ (b : Backend) where
  framed-Shows :
      (s : StateDb) (xs : Dict Object) (od : Dict (Unit {0})) (codes : Dict (List ℕ))
      (es : List Entry) (d : Dict ℕ) (he : Bool)
      → ((addr : ℕ) → Cover b addr (lookup addr xs) (lookup addr s.objects))
      → Shows b (framed s xs od codes es d he) s
  unfolding get_logs get_transient_state
  framed-Shows s xs od codes es d he cover = record {
    objects_cover = cover;
    refund_same = refl;
    logs_same = λ tx. refl;
    log_size_same = refl;
    thash_same = refl;
    tx_index_same = refl;
    transient_same = λ addr key. refl;
    transient_kept = λ addr h. h;
    addresses_same = λ addr. refl;
    slots_same = λ addr key. refl;
  }

  pub placed :
      (addr : ℕ) (o : Object) (xs : Dict Object)
      → Cover b addr (some o) (lookup addr xs)
      → (at : ℕ) → Cover b at (lookup at (insert addr o xs)) (lookup at xs)
  placed addr o xs cover at = rw (lookup-insert at addr o xs) (elim (Bool-cases (at == addr)) [
    | inl is ↦
        rw is (subst (λ at. Cover b at (some o) (lookup at xs)) (sym ((==_iff at addr).0 is)) cover)
    | inr other ↦ rw other (Cover-refl b at (lookup at xs))
  ])

  -- Objects cached or changed unseen.
  pub cached-Undoable :
      (s : StateDb) (xs : Dict Object) (od : Dict (Unit {0})) (codes : Dict (List ℕ)) (d : Dict ℕ)
      (he : Bool)
      → IsWarm s
      → ((addr : ℕ) → Cover b addr (lookup addr xs) (lookup addr s.objects))
      → Undoable b s (framed s xs od codes s.entries d he)
  unfolding undo Grounded
  cached-Undoable s xs od codes d he warm cover = record {
    backed = record {
      added = [];
      entries_added = refl;
      added_grounded = tt;
      back = framed-Shows s xs od codes s.entries d he cover;
      still_warm = warm;
    };
    revisions_same = refl;
    ids_same = refl;
  }

  pub nothing-Undoable : (s : StateDb) → IsWarm s → Undoable b s s
  nothing-Undoable s warm =
      cached-Undoable s s.objects s.objects_dirty s.code_cache s.dirties s.has_error warm
        (λ addr. Cover-refl b addr (lookup addr s.objects))

  -- An object in place of one with the same account, flags and values of slots.
  pub Same-Undoable :
      (s : StateDb) (codes : Dict (List ℕ)) (addr : ℕ) {p : Object} (o : Object)
      → IsWarm s
      → lookup addr s.objects ≡ some p
      → Same b o p
      → Undoable b s (put_object (record s { code_cache = codes }) addr o)
  unfolding put_object Cover
  Same-Undoable s codes addr o warm here same =
      cached-Undoable s (insert addr o s.objects) s.objects_dirty codes s.dirties s.has_error warm
        (placed addr o s.objects (rw here same))

  twice :
      (addr : ℕ) (o p : Object) (xs : Dict Object) (at : ℕ)
      → lookup at (insert addr p (insert addr o xs)) ≡ lookup at (insert addr p xs)
  twice addr o p xs at = ground (
    arith,
    lookup-insert at addr p (insert addr o xs),
    lookup-insert at addr o xs,
    lookup-insert at addr p xs,
  )

  created_back :
      (s : StateDb) (addr : ℕ) (o : Object) (od : Dict (Unit {0})) (es : List Entry) (d : Dict ℕ)
      (prev : Option Object)
      → lookup addr s.objects ≡ prev
      → Shows b
          (revert_one
            (create_object addr prev)
            (framed s (insert addr o s.objects) od s.code_cache es d s.has_error))
          s
  unfolding revert_one revert put_object
  created_back s addr o od es d none absent =
      framed-Shows s (erase addr (insert addr o s.objects)) (erase addr od) s.code_cache es _
        s.has_error
        λ at.
          rw (lookup-erase at addr (insert addr o s.objects), lookup-insert at addr o s.objects)
            (elim (Bool-cases (at == addr)) [
              | inl is ↦
                  rw (is, ap (λ k. lookup k s.objects) ((==_iff at addr).0 is), absent)
                    (Cover-refl b at none)
              | inr other ↦ rw other (Cover-refl b at (lookup at s.objects))
            ])
  created_back s addr o od es d (some p) here =
      framed-Shows s (insert addr p (insert addr o s.objects)) od s.code_cache es _ s.has_error
        λ at.
          rw (twice addr o p s.objects at)
            (placed addr p s.objects (rw here (Cover-refl b addr (some p))) at)

  -- A new object at an address, behind the entry that keeps what was there.
  pub created-Undoable :
      (s : StateDb) (addr : ℕ) (o : Object) (od : Dict (Unit {0})) (d : Dict ℕ)
      → IsWarm s
      → Undoable b s (
          framed s
            (insert addr o s.objects)
            od
            s.code_cache
            (create_object addr (lookup addr s.objects) ∷ s.entries)
            d
            s.has_error)
  unfolding undo Grounded Touches
  created-Undoable s addr o od d warm = record {
    backed = record {
      added = create_object addr (lookup addr s.objects) ∷ [];
      entries_added = refl;
      added_grounded = (tt, tt);
      back = created_back s addr o od _ d (lookup addr s.objects) refl;
      still_warm = warm;
    };
    revisions_same = refl;
    ids_same = refl;
  }

  -- A change of an object, behind an entry whose revert changes it back.
  pub changed-Undoable :
      (s : StateDb) (e : Entry) (addr : ℕ) (f : Object → Object) (o o' : Object)
      (od : Dict (Unit {0})) (codes : Dict (List ℕ)) (d : Dict ℕ) (he : Bool)
      → IsWarm s
      → lookup addr s.objects ≡ some o
      → Same b (f o') o
      → ((t : StateDb) → revert e t ≡ with_object t addr f)
      → ((t : StateDb) → contains addr t.objects ≡ true → Touches b e t)
      → Undoable b s (framed s (insert addr o' s.objects) od codes (e ∷ s.entries) d he)
  unfolding undo Grounded revert_one put_object Cover
  changed-Undoable s e addr f o o' od codes d he warm here same reverts touches = record {
    backed = record {
      added = e ∷ [];
      entries_added = refl;
      added_grounded = (touches _ (contains-insert_self addr o' s.objects), tt);
      back =
          subst (λ t. Shows b (record t { dirties = count_down (dirtied e) t.dirties }) s)
            (sym (reverts _ ∙ with_object-some b _ addr f (lookup-insert_self addr o' s.objects)))
            (framed-Shows s (insert addr (f o') (insert addr o' s.objects)) od codes _ _ he λ at.
              rw (twice addr o' (f o') s.objects at)
                (placed addr (f o') s.objects (rw here same) at));
      still_warm = warm;
    };
    revisions_same = refl;
    ids_same = refl;
  }
