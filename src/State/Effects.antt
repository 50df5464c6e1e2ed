-- ===== src/State/Effects.antt =====
-- state/statedb.go: refunds, logs and transient storage can be undone too.
use padi_chain.Base.{
  ℕ, ◌-◌, ◌≡◌, refl, ap, ◌∙◌, Bool, true, ◌&&◌, List, [], ◌∷◌, ◌++◌, ◌==◌, ==_iff, if◌then◌else◌,
  arith, ltb,
}
use padi_chain.Base.Maps.{Dict, lookup, contains, insert, lookup-insert, contains-insert}
use padi_chain.State.Objects.{
  Log, StateDb, Backend, set_error, get_logs, get_transient_state, slots_at, refund_change,
  add_log_change, transient_change,
}
use padi_chain.State.Journal.{revert, revert_one, journal_append, drop_last}
use padi_chain.State.Writes.{add_refund, sub_refund, add_log, set_transient_state}
use padi_chain.State.Views.{Cover-refl}
use padi_chain.State.Restored.{get_logs-pop_log, restored_transient, contains-restore_transient}
use padi_chain.State.Reverted.{Touches}
use padi_chain.State.Rollback.{IsWarm, undo, Grounded, Undoable}
use padi_chain.State.Blocks.{nothing-Undoable}
use padi_chain.State.Operations.{if_Undoable}

drop_last-append {ℓ} : {A : Type ℓ} (xs : List A) (x : A) → drop_last (xs ++ (x ∷ [])) ≡ xs
unfolding drop_last
drop_last-append [] x = refl
drop_last-append (y ∷ []) x = refl
drop_last-append (y ∷ z ∷ rest) x = ap (λ ys. y ∷ ys) (drop_last-append (z ∷ rest) x)

module _ (b : Backend) where
  pub add_refund-Undoable : (s : StateDb) (gas : ℕ) → IsWarm s → Undoable b s (add_refund s gas)
  unfolding undo Grounded Touches revert_one revert journal_append get_logs get_transient_state
      add_refund
  add_refund-Undoable s gas warm = record {
    backed = record {
      added = refund_change s.refund ∷ [];
      entries_added = refl;
      added_grounded = (tt, tt);
      back = record {
        objects_cover = λ addr. Cover-refl b addr (lookup addr s.objects);
        refund_same = refl;
        logs_same = λ tx. refl;
        log_size_same = refl;
        thash_same = refl;
        tx_index_same = refl;
        transient_same = λ at key. refl;
        transient_kept = λ at h. h;
        addresses_same = λ at. refl;
        slots_same = λ at key. refl;
      };
      still_warm = warm;
    };
    revisions_same = refl;
    ids_same = refl;
  }

  refunded-Undoable :
      (s : StateDb) (left : ℕ) (he : Bool)
      → IsWarm s
      → Undoable b s
          (record (journal_append s (refund_change s.refund)) { refund = left; has_error = he })
  unfolding undo Grounded Touches revert_one revert journal_append get_logs get_transient_state
  refunded-Undoable s left he warm = record {
    backed = record {
      added = refund_change s.refund ∷ [];
      entries_added = refl;
      added_grounded = (tt, tt);
      back = record {
        objects_cover = λ addr. Cover-refl b addr (lookup addr s.objects);
        refund_same = refl;
        logs_same = λ tx. refl;
        log_size_same = refl;
        thash_same = refl;
        tx_index_same = refl;
        transient_same = λ at key. refl;
        transient_kept = λ at h. h;
        addresses_same = λ at. refl;
        slots_same = λ at key. refl;
      };
      still_warm = warm;
    };
    revisions_same = refl;
    ids_same = refl;
  }

  pub sub_refund-Undoable : (s : StateDb) (gas : ℕ) → IsWarm s → Undoable b s (sub_refund s gas)
  unfolding sub_refund set_error journal_append
  sub_refund-Undoable s gas warm =
      if_Undoable b (ltb s.refund gas) _ _ (refunded-Undoable s 0 true warm)
        (refunded-Undoable s (s.refund - gas) s.has_error warm)

  logs_back :
      (s : StateDb) (tx : ℕ) (log : Log)
      → (if tx == s.thash
          then drop_last (
              get_logs
                (record s { logs = insert s.thash (get_logs s s.thash ++ (log ∷ [])) s.logs })
                s.thash)
          else get_logs
              (record s { logs = insert s.thash (get_logs s s.thash ++ (log ∷ [])) s.logs })
              tx)
        ≡ get_logs s tx
  unfolding get_logs
  logs_back s tx log = ground (
    arith,
    lookup-insert tx s.thash (get_logs s s.thash ++ (log ∷ [])) s.logs,
    lookup-insert s.thash s.thash (get_logs s s.thash ++ (log ∷ [])) s.logs,
    ==_iff tx s.thash,
    drop_last-append (get_logs s s.thash) log,
  )

  pub contains-insert_self :
      {V : Type 0} (key : ℕ) (v : V) (d : Dict V) → contains key (insert key v d) ≡ true
  contains-insert_self key v d = ground (arith, contains-insert key key v d)

  pub kept_insert :
      {V : Type 0} (at key : ℕ) (v : V) (d : Dict V)
      → contains at d ≡ true
      → contains at (insert key v d) ≡ true
  kept_insert at key v d h = ground (arith, contains-insert at key v d)

  pub add_log-Undoable :
      (s : StateDb) (address : ℕ) (topics data_bytes : List ℕ)
      → IsWarm s
      → Undoable b s (add_log s address topics data_bytes)
  unfolding undo Grounded Touches revert_one revert journal_append get_logs get_transient_state
      add_log
  add_log-Undoable s address topics data_bytes warm = record {
    backed = record {
      added = add_log_change s.thash ∷ [];
      entries_added = refl;
      added_grounded = (tt, tt);
      back = record {
        objects_cover = λ addr. Cover-refl b addr (lookup addr s.objects);
        refund_same = refl;
        logs_same = λ tx.
            get_logs-pop_log s.thash tx (add_log s address topics data_bytes) ∙ logs_back s tx _;
        log_size_same = omega arith;
        thash_same = refl;
        tx_index_same = refl;
        transient_same = λ at key. refl;
        transient_kept = λ at h. h;
        addresses_same = λ at. refl;
        slots_same = λ at key. refl;
      };
      still_warm = warm;
    };
    revisions_same = refl;
    ids_same = refl;
  }

  moved_transient :
      (s : StateDb) (addr key value at k : ℕ)
      → get_transient_state
          (record s {
            transient = insert addr (insert key value (slots_at addr s.transient)) s.transient;
          })
          at
          k
        ≡ (if (at == addr) && (k == key) then value else get_transient_state s at k)
  unfolding get_transient_state slots_at
  moved_transient s addr key value at k = ground (
    arith,
    lookup-insert at addr (insert key value (slots_at addr s.transient)) s.transient,
    lookup-insert k key value (slots_at addr s.transient),
    ==_iff at addr,
  )

  transient_back :
      (s : StateDb) (addr key value at k : ℕ)
      → (if (at == addr) && (k == key)
          then get_transient_state s addr key
          else get_transient_state
              (record s {
                transient = insert addr (insert key value (slots_at addr s.transient)) s.transient;
              })
              at
              k)
        ≡ get_transient_state s at k
  transient_back s addr key value at k = rw (moved_transient s addr key value at k) (
      ground (
        arith,
        ==_iff at addr,
        ==_iff k key,
        ap (λ a. get_transient_state s a k),
        ap (λ j. get_transient_state s addr j),
      ))

  written_transient :
      (s : StateDb) (addr key value : ℕ)
      → IsWarm s
      → Undoable b s
          (record (journal_append s (transient_change addr key (get_transient_state s addr key))) {
            transient = insert addr (insert key value (slots_at addr s.transient)) s.transient;
          })
  unfolding undo Grounded Touches revert_one revert journal_append get_logs get_transient_state
  written_transient s addr key value warm = record {
    backed = record {
      added = transient_change addr key (get_transient_state s addr key) ∷ [];
      entries_added = refl;
      added_grounded = (
        contains-insert_self addr (insert key value (slots_at addr s.transient)) s.transient,
        tt,
      );
      back = record {
        objects_cover = λ addr. Cover-refl b addr (lookup addr s.objects);
        refund_same = refl;
        logs_same = λ tx. refl;
        log_size_same = refl;
        thash_same = refl;
        tx_index_same = refl;
        transient_same = λ at k.
            restored_transient addr key (get_transient_state s addr key) at k
              (record s {
                transient = insert addr (insert key value (slots_at addr s.transient)) s.transient;
              })
              (contains-insert_self addr (insert key value (slots_at addr s.transient)) s.transient)
            ∙ transient_back s addr key value at k;
        transient_kept = λ at h.
            contains-restore_transient addr key (get_transient_state s addr key) at
              (insert addr (insert key value (slots_at addr s.transient)) s.transient)
            ∙ kept_insert at addr _ s.transient h;
        addresses_same = λ at. refl;
        slots_same = λ at key. refl;
      };
      still_warm = warm;
    };
    revisions_same = refl;
    ids_same = refl;
  }

  pub set_transient_state-Undoable :
      (s : StateDb) (addr key value : ℕ)
      → IsWarm s
      → Undoable b s (set_transient_state s addr key value)
  unfolding set_transient_state
  set_transient_state-Undoable s addr key value warm =
      if_Undoable b (get_transient_state s addr key == value) s _ (nothing-Undoable b s warm)
        (written_transient s addr key value warm)
