-- ===== src/Shovey/Jobs/Races.antt =====
-- shovey/shovey.go: orders of steps in which one goroutine undoes what another has stored.
use goiardi.Base.{
  ℕ, ◌≡◌, ◌≢◌, refl, ap, sym, ◌∙◌, true, none, some, List, [], ◌∷◌, ◌==◌, ==_iff, ==_refl, ==_ne,
  nat_eq, list_eq, if◌then◌else◌, arith, Bool-cases, inl, inr, contains, All, All-map, all,
}
use goiardi.Base.Text.{Text, codes, text_ltb}
use goiardi.Base.Sort.{sort-All}
use goiardi.Datastore.{Gob, DataStore}
use goiardi.Datastore.NilArrays.{Reflect, Members, Value, string, number}
use goiardi.Objects.{Shovey, ShoveyRun, Object, ok}
use goiardi.Shovey.{
  get, get_run, save_run, is_complete, notify_parent, updated_run, put_run_status, put_run_error,
  put_exit_status, is_end, update_from_json, acknowledge, cancel,
}
use goiardi.Shovey.Jobs.Runs.{KeepsJobs, get_run-save_run, get-save_run, get_run-save}
use goiardi.Shovey.Jobs.Cancel.{OwnsRuns, HasRun, cancel_lem}
use goiardi.Shovey.Jobs.Cancelled.{
  cancelled, cancelled_job, cancelled-names, on_run, complete-cancelled,
}
use goiardi.Shovey.Jobs.Complete.{is_done, check_completed_lem}

-- Whose run it is.
abbrev names : ShoveyRun → Text × Text
names sr = (sr.shovey_uuid, sr.node_name)

names-put_run_status :
    (now : ℕ) (sr : ShoveyRun) (v : Value) → names (put_run_status now sr v) ≡ names sr
unfolding put_run_status
names-put_run_status now sr (string status) = elim (Bool-cases (is_end status)) [
  | inl e ↦ rw e refl
  | inr e ↦ rw e refl
]
names-put_run_status now sr _ = refl

names-put_run_error : (sr : ShoveyRun) (v : Value) → names (put_run_error sr v) ≡ names sr
unfolding put_run_error
names-put_run_error sr (string error) = refl
names-put_run_error sr _ = refl

names-put_exit_status : (sr : ShoveyRun) (v : Value) → names (put_exit_status sr v) ≡ names sr
unfolding put_exit_status
names-put_exit_status sr (number n) = refl
names-put_exit_status sr _ = refl

names-updated_run :
    (now : ℕ) (sr : ShoveyRun) (report : Members) → names (updated_run now sr report) ≡ names sr
unfolding updated_run
names-updated_run now sr report =
    names-put_exit_status _ _ ∙ names-put_run_error _ _ ∙ names-put_run_status now sr _

module _ ⦃r : Reflect Object⦄ (g : Gob Object) where
  open g use {Bytes}

  -- The node has a run that is complete.
  abbrev Ended : DataStore Bytes → Text → Text → Type 0
  Ended ds run_id n =
      (sr : ShoveyRun) × (get_run g ds run_id n ≡ some (ok sr)) × (is_complete sr.status ≡ true)

  all-Ended :
      (ds : DataStore Bytes) (run_id : Text) (names : List Text)
      → All (Ended ds run_id) names
      → all (λ n. is_done (get_run g ds run_id n)) names ≡ true
  all-Ended ds run_id [] h = refl
  all-Ended ds run_id (n ∷ names) ((sr, h, c), rest) = rw (h, c) (all-Ended ds run_id names rest)

  -- The run that a report has saved.
  reported :
      (ds ds1 : DataStore Bytes) {run_id n : Text} (sr sr' : ShoveyRun)
      → names sr' ≡ names sr
      → get_run g ds1 sr'.shovey_uuid n
        ≡ (if sr'.node_name == n then some (ok sr') else get_run g ds sr'.shovey_uuid n)
      → sr.shovey_uuid ≡ run_id
      → sr.node_name ≡ n
      → get_run g ds1 run_id n ≡ some (ok sr')
  reported ds ds1 {n = n} sr sr' same after u v =
      ap (λ i. get_run g ds1 i n) (sym (ap (λ p. p.0) same ∙ u))
      ∙ after
      ∙ rw ((==_iff sr'.node_name n).1 (ap (λ p. p.1) same ∙ v)) refl

  module _ (k : KeepsJobs g) where
    -- Where gob keeps runs, if an acknowledgement of a node that has a run is read before the node
    -- reports its run and saved after, the report is undone: the run is as it was, with the time of
    -- the acknowledgement.
    pub late_ack_lem :
        (ds : DataStore Bytes) (now later : ℕ) (run_id n : Text) (sr : ShoveyRun) (report : Members)
        → n ≢ []
        → OwnsRuns g ds run_id
        → get_run g ds run_id n ≡ some (ok sr)
        → (acked sr' : ShoveyRun) × (ds1 ds2 : DataStore Bytes) × (acknowledge g ds now run_id n
            ≡ some (some acked))
          × (update_from_json g ds later sr report ≡ some (ds1, sr'))
          × (save_run g ds1 acked ≡ some ds2)
          × (get_run g ds1 run_id n ≡ some (ok (updated_run later sr report)))
          × (get_run g ds2 run_id n ≡ some (ok (record sr { ack_time = some now })))
    unfolding acknowledge update_from_json
    late_ack_lem ds now later run_id n sr report named own h =
        let acked : ShoveyRun = record sr { ack_time = some now } in
        let sr' = updated_run later sr report in
        let (u, v) = own n sr h in
        let (ds1, h1, after1) = get_run-save_run g k ds sr' in
        let (ds2, h2, after2) = get_run-save_run g k ds1 acked in
        (
          acked,
          sr',
          ds1,
          ds2,
          rw (h, ==_ne n [] named) refl,
          rw h1 refl,
          h2,
          reported ds ds1 sr sr' (names-updated_run later sr report) (after1 n) u v,
          rw (sym u, sym v) (after2 sr.node_name ∙ rw (==_refl sr.node_name) refl),
        )

    -- The nodes of a job after `Cancel`.
    cancelled-Ended :
        (ds ds' : DataStore Bytes) (now : ℕ) (run_id : Text) (all_names names : List Text)
        → ((m : Text) → contains names m ≡ true → contains all_names m ≡ true)
        → ((m : Text)
            → get_run g ds' run_id m ≡ (
                if contains all_names m
                then on_run (cancelled now) (get_run g ds run_id m)
                else get_run g ds run_id m))
        → All (HasRun g ds run_id) names
        → All (Ended ds' run_id) names
    cancelled-Ended ds ds' now run_id all_names [] sub after runs = tt
    cancelled-Ended ds ds' now run_id all_names (n ∷ names) sub after ((sr, h), runs) = (
      (
        cancelled now sr,
        after n ∙ rw (sub n (ground (arith, ==_refl n)), h) refl,
        complete-cancelled now sr,
      ),
      cancelled-Ended ds ds' now run_id all_names names (λ m i. sub m (ground (arith, i))) after
          runs,
    )

    -- The nodes of a job after a run of it was saved that is complete.
    saved-Ended :
        (ds ds' : DataStore Bytes) (run_id n : Text) (sr : ShoveyRun) (names : List Text)
        → is_complete sr.status ≡ true
        → ((m : Text)
            → get_run g ds' run_id m ≡ (if n == m then some (ok sr) else get_run g ds run_id m))
        → All (Ended ds run_id) names
        → All (Ended ds' run_id) names
    saved-Ended ds ds' run_id n sr [] c after runs = tt
    saved-Ended ds ds' run_id n sr (m ∷ names) c after ((sr', h, c'), runs) = (
      elim (Bool-cases (n == m)) [
        | inl e ↦ (sr, after m ∙ rw e refl, c)
        | inr e ↦ (sr', after m ∙ rw e h, c')
      ],
      saved-Ended ds ds' run_id n sr names c after runs,
    )

    -- Where gob keeps jobs and runs, if each node of a job has a run that names both, and `Cancel`
    -- has stored the job as cancelled, then a report of a run of one of its nodes that gives it a
    -- status that counts as complete, or none, saves that run and has the job stored as complete.
    pub notify_parent-cancel :
        (ds : DataStore Bytes) (now later : ℕ) (s : Shovey) (n : Text) (sr : ShoveyRun)
        (report : Members)
        → OwnsRuns g ds s.run_id
        → All (HasRun g ds s.run_id) s.node_names
        → contains s.node_names n ≡ true
        → get_run g ds s.run_id n ≡ some (ok sr)
        → is_complete (updated_run later (cancelled now sr) report).status ≡ true
        → (ds' ds1 ds'' : DataStore Bytes) × (s' : Shovey) × (sr' : ShoveyRun) × (s'' : Shovey)
          × (cancel g ds now none s ≡ some (ds', s', none))
          × (get g ds' s.run_id ≡ some (ok s'))
          × (s'.status ≡ codes "cancelled")
          × (get_run g ds' s.run_id n ≡ some (ok (cancelled now sr)))
          × (update_from_json g ds' later (cancelled now sr) report ≡ some (ds1, sr'))
          × (get_run g ds1 s.run_id n ≡ some (ok (updated_run later (cancelled now sr) report)))
          × (notify_parent g ds1 later sr' ≡ some ds'')
          × (get g ds'' s.run_id ≡ some (ok s''))
          × (s''.status ≡ codes "complete")
    unfolding notify_parent update_from_json
    notify_parent-cancel ds now later s n sr report own runs here read ended =
        let (ds', h, stored, after) = cancel_lem g k ds now s own runs in
        let s' : Shovey = cancelled_job now s in
        let sr' : ShoveyRun = updated_run later (cancelled now sr) report in
        let (u, v) = own n sr read in
        let (cu, cv) = cancelled-names now sr in
        let same = names-updated_run later (cancelled now sr) report in
        let uuid : sr'.shovey_uuid ≡ s.run_id = ap (λ p. p.0) same ∙ cu ∙ u in
        let node : sr'.node_name ≡ n = ap (λ p. p.1) same ∙ cv ∙ v in
        let (ds1, h1, after1) = get_run-save_run g k ds' sr' in
        let all_ended : All (Ended ds1 s.run_id) s'.node_names =
          saved-Ended ds' ds1 s.run_id n sr' s'.node_names ended (λ m. rw⁻¹ (uuid, node) (after1 m))
            (sort-All text_ltb (Ended ds' s.run_id) s.node_names (
              cancelled-Ended ds ds' now s.run_id s.node_names s.node_names (λ m i. i) after
                runs)) in
        let (ds'', h', stored', _) =
          get_run-save g k ds1 later (record s' { status = codes "complete" }) in
        (
          ds',
          ds1,
          ds'',
          s',
          sr',
          record s' { status = codes "complete"; updated_at = later },
          h,
          stored,
          refl,
          after n ∙ rw (here, read) refl,
          rw h1 refl,
          reported ds' ds1 (cancelled now sr) sr' same (after1 n) (cu ∙ u) (cv ∙ v),
          rw
              (
                uuid,
                get-save_run g ds' sr' s.run_id h1,
                stored,
                check_completed_lem g ds1 later s'
                    (All-map (λ n (x, r, _). inr (x, r)) s'.node_names all_ended),
                all-Ended ds1 s.run_id s'.node_names all_ended,
                h',
              )
              refl,
          stored',
          refl,
        )
