-- ===== src/State/Recovery.antt =====
-- state/statedb.go: RevertToSnapshot gives back the state of the snapshot, whatever ran in between.
use padi_chain.Base.{
  ℕ, zero, suc, ◌-◌, ◌≤◌, ◌<◌, ◌≡◌, refl, ap, ap₂, sym, ◌∙◌, List, [], ◌∷◌, ◌++◌, append_assoc,
  none, some, length, length-append, take, drop, take-append-drop, length-take, All, All-append,
  arith, inl, inr, Option-cases,
}
use padi_chain.Base.Maps.{lookup}
use padi_chain.State.Objects.{
  put_object, Entry, create_object, balance_change, nonce_change, code_change, storage_change,
  transient_change, self_destruct_change, refund_change, add_log_change, access_account_change,
  access_slot_change, Revision, Object, StateDb, Backend, get_logs, get_transient_state,
}
use padi_chain.State.Journal.{with_object, revert, revert_one, revert_newest, journal_revert}
use padi_chain.State.Snapshots.{snapshot}
use padi_chain.State.Views.{Shows, Shows-trans, Cover-refl}
use padi_chain.State.Rollback.{
  IsWarm, undo, undo-append, undo-IsWarm, Grounded, Grounded-suffix, undo-Shows, Backed,
  Backed-trans, Undoable,
}

-- The ids of older revisions lie below the next one.
abbrev pub IsOrdered : StateDb → Type 0
IsOrdered s = All (λ r. r.id < s.next_rev_id) s.revisions

with_object_ids :
    (s : StateDb) (addr : ℕ) (f : Object → Object)
    → (with_object s addr f).next_rev_id ≡ s.next_rev_id
unfolding with_object put_object
with_object_ids s addr f = elim (Option-cases (lookup addr s.objects)) [
  | inl absent ↦ rw (with_object, absent) refl
  | inr (o, here) ↦ rw (with_object, here) refl
]

revert_newest_exact :
    (pre rest : List Entry) (s : StateDb)
    → revert_newest (length pre) (pre ++ rest) s ≡ record (undo pre s) { entries = rest }
unfolding revert_newest undo
revert_newest_exact [] [] s = refl
revert_newest_exact [] (e ∷ rest) s = refl
revert_newest_exact (e ∷ pre) rest s = revert_newest_exact pre rest (revert_one e s)

module _ (b : Backend) where
  -- A revision taken after the mark.
  abbrev pub IsNewer : StateDb → Revision → Type 0
  IsNewer s r = (s.next_rev_id < r.id) × (length s.entries ≤ r.journal_index)

  -- What stays true of a state after the snapshot of `s`.
  pub record Kept (s t : StateDb) : Type 0 where
    pub backed : Backed b s t
    pub newer : List Revision
    pub all_newer : All (IsNewer s) newer
    pub revisions_are :
        t.revisions
        ≡ s.revisions ++ (record { id = s.next_rev_id; journal_index = length s.entries } ∷ newer)
    pub ids_grow : s.next_rev_id < t.next_rev_id

  pub operation-Kept : {s t u : StateDb} → Kept s t → Undoable b t u → Kept s u
  operation-Kept k u = record {
    backed = Backed-trans b k.backed u.backed;
    newer = k.newer;
    all_newer = k.all_newer;
    revisions_are = u.revisions_same ∙ k.revisions_are;
    ids_grow = omega (arith, k.ids_grow, u.ids_same);
  }

  -- Entries, revisions and ids are not shown.
  pub framed-Shows :
      (s : StateDb) (es : List Entry) (rs : List Revision) (n : ℕ)
      → Shows b (record s { entries = es; revisions = rs; next_rev_id = n }) s
  unfolding get_logs get_transient_state
  framed-Shows s es rs n = record {
    objects_cover = λ addr. Cover-refl b addr _;
    refund_same = refl;
    logs_same = λ tx. refl;
    log_size_same = refl;
    thash_same = refl;
    tx_index_same = refl;
    transient_same = λ addr key. refl;
    transient_kept = λ addr h. h;
    addresses_same = λ addr. refl;
    slots_same = λ addr key. refl;
  }

  -- Undoing the newer part of the entries leaves the older part to undo.
  undone-Backed :
      (s t : StateDb) (pre post : List Entry) (rs : List Revision)
      → Grounded b (pre ++ post) t
      → Shows b (undo (pre ++ post) t) s
      → IsWarm t
      → Backed b s (record (undo pre t) { entries = post ++ s.entries; revisions = rs })
  undone-Backed s t pre post rs g back warm =
      let again =
        undo-Shows b post (Grounded-suffix b pre post t g)
          (framed-Shows (undo pre t) (post ++ s.entries) rs (undo pre t).next_rev_id) in
      record {
        added = post;
        entries_added = refl;
        added_grounded = again.0;
        back = Shows-trans b again.1 (rw undo-append at back);
        still_warm = undo-IsWarm b pre t warm;
      }

  -- Taking a snapshot, or changing what is not shown, needs nothing undone.
  framed-Backed :
      (s : StateDb) (rs : List Revision) (n : ℕ)
      → IsWarm s
      → Backed b s (record s { revisions = rs; next_rev_id = n })
  unfolding Grounded undo
  framed-Backed s rs n warm = record {
    added = [];
    entries_added = refl;
    added_grounded = tt;
    back = framed-Shows s s.entries rs n;
    still_warm = warm;
  }

  pub snapshot_opens : (s : StateDb) → IsWarm s → Kept s (snapshot s).0
  unfolding snapshot
  snapshot_opens s warm = record {
    backed = framed-Backed s _ _ warm;
    newer = [];
    all_newer = tt;
    revisions_are = refl;
    ids_grow = omega arith;
  }

  pub snapshot-Kept : {s t : StateDb} → Kept s t → Kept s (snapshot t).0
  unfolding snapshot
  snapshot-Kept {s} {t} k =
      let taken : Revision = record { id = t.next_rev_id; journal_index = length t.entries } in
      let longer : length s.entries ≤ length t.entries =
        omega (arith, ap length k.backed.entries_added, length-append k.backed.added s.entries) in
      record {
        backed = Backed-trans b k.backed (framed-Backed t _ _ k.backed.still_warm);
        newer = k.newer ++ (taken ∷ []);
        all_newer =
            All-append (IsNewer s) k.newer (taken ∷ []) k.all_newer ((k.ids_grow, longer), tt);
        revisions_are =
            ap (λ rs. rs ++ (taken ∷ [])) k.revisions_are ∙ append_assoc s.revisions _ (taken ∷ []);
        ids_grow = omega (arith, k.ids_grow);
      }

  -- Undoing to an index above the older entries undoes a front of the newer ones.
  journal_revert_exact :
      (t : StateDb) (index : ℕ) (added older : List Entry)
      → t.entries ≡ added ++ older
      → length older ≤ index
      → let n = length t.entries - index in
        journal_revert t index ≡ record (undo (take n added) t) { entries = drop n added ++ older }
  unfolding journal_revert
  journal_revert_exact t index added older split above =
      let n = length t.entries - index in
      let cut : n ≡ length (take n added) =
        omega (arith, ap length split, length-append added older, length-take n added, above) in
      let front =
        split
        ∙ (ap (λ es. es ++ older) (sym (take-append-drop n added))
            ∙ append_assoc (take n added) (drop n added) older) in
      ap₂ (λ i es. revert_newest i es t) cut front
      ∙ revert_newest_exact (take n added) (drop n added ++ older) t

  pub journal_revert_to :
      (t : StateDb) (added older : List Entry)
      → t.entries ≡ added ++ older
      → journal_revert t (length older) ≡ record (undo added t) { entries = older }
  unfolding journal_revert
  journal_revert_to t added older split =
      let cut : length t.entries - length older ≡ length added =
        omega (arith, ap length split, length-append added older) in
      ap₂ (λ i es. revert_newest i es t) cut split ∙ revert_newest_exact added older t

  pub reverted-Backed :
      {s t : StateDb} (index : ℕ) (rs : List Revision)
      → Backed b s t
      → length s.entries ≤ index
      → Backed b s (record (journal_revert t index) { revisions = rs })
  reverted-Backed {s} {t} index rs k above =
      let n = length t.entries - index in
      let whole = take-append-drop n k.added in
      rw (journal_revert_exact t index k.added s.entries k.entries_added above) (
        undone-Backed s t (take n k.added) (drop n k.added) rs (rw whole k.added_grounded)
          (rw whole k.back) k.still_warm)

  revert_one_ids : (e : Entry) (s : StateDb) → (revert_one e s).next_rev_id ≡ s.next_rev_id
  unfolding revert_one revert with_object put_object
  revert_one_ids (create_object addr none) s = refl
  revert_one_ids (create_object addr (some prev)) s = refl
  revert_one_ids (balance_change addr prev) s = with_object_ids s addr _
  revert_one_ids (nonce_change addr prev) s = with_object_ids s addr _
  revert_one_ids (code_change addr code hash) s = with_object_ids s addr _
  revert_one_ids (storage_change addr key prev existed) s = with_object_ids s addr _
  revert_one_ids (self_destruct_change addr prev prev_balance) s = with_object_ids s addr _
  revert_one_ids (refund_change prev) s = refl
  revert_one_ids (add_log_change tx) s = refl
  revert_one_ids (transient_change addr key prev) s = refl
  revert_one_ids (access_account_change addr) s = refl
  revert_one_ids (access_slot_change addr slot) s = refl

  revert_newest_ids :
      (n : ℕ) (es : List Entry) (s : StateDb) → (revert_newest n es s).next_rev_id ≡ s.next_rev_id
  unfolding revert_newest
  revert_newest_ids zero es s = refl
  revert_newest_ids (suc n) [] s = refl
  revert_newest_ids (suc n) (e ∷ es) s =
      revert_newest_ids n es (revert_one e s) ∙ revert_one_ids e s

  pub revert_ids : (t : StateDb) (index : ℕ) → (journal_revert t index).next_rev_id ≡ t.next_rev_id
  unfolding journal_revert
  revert_ids t index = revert_newest_ids (length t.entries - index) t.entries t
