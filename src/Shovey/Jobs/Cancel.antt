-- ===== src/Shovey/Jobs/Cancel.antt =====
-- shovey/shovey.go: what `Cancel` makes of a job and of its runs.
use goiardi.Base.{
  ℕ, ◌≡◌, refl, ap, sym, ◌∙◌, true, none, some, List, [], ◌∷◌, ◌==◌, ==_iff, ==_refl, nat_eq,
  list_eq, if◌then◌else◌, arith, Bool-cases, inl, inr, contains, length, nat_beq, All,
}
use goiardi.Base.Text.{Text, codes, text_ltb}
use goiardi.Base.Sort.{sort}
use goiardi.Datastore.{Gob, DataStore}
use goiardi.Datastore.NilArrays.{Reflect}
use goiardi.Objects.{Shovey, ShoveyRun, Object, ok}
use goiardi.Shovey.{
  get, get_run, save, is_over, cancel_run, cancel_loop, cancel_job, cancel_runs, cancel,
}
use goiardi.Shovey.Jobs.Runs.{KeepsJobs, get_run-save_run, get_run-save}
use goiardi.Shovey.Jobs.Cancelled.{
  cancelled, cancelled-over, cancelled-open, cancelled_twice, cancelled-names, cancelled_job,
  on_run, on_both, ok_inj,
}

module _ ⦃r : Reflect Object⦄ (g : Gob Object) where
  open g use {Bytes}

  -- Every run that is found for a node of a job names that job and that node.
  abbrev pub OwnsRuns : DataStore Bytes → Text → Type 0
  OwnsRuns ds run_id =
      (n : Text) (sr : ShoveyRun)
      → get_run g ds run_id n ≡ some (ok sr)
      → (sr.shovey_uuid ≡ run_id) × (sr.node_name ≡ n)

  abbrev pub HasRun : DataStore Bytes → Text → Text → Type 0
  HasRun ds run_id n = (sr : ShoveyRun) × (get_run g ds run_id n ≡ some (ok sr))

  -- A run that names its job and its node was saved.
  pub saved-OwnsRuns :
      (ds ds' : DataStore Bytes) (run_id n : Text) (sr : ShoveyRun)
      → sr.shovey_uuid ≡ run_id
      → sr.node_name ≡ n
      → OwnsRuns ds run_id
      → ((m : Text)
          → get_run g ds' run_id m ≡ (if n == m then some (ok sr) else get_run g ds run_id m))
      → OwnsRuns ds' run_id
  saved-OwnsRuns ds ds' run_id n sr id name own after m sr' h' = elim (Bool-cases (n == m)) [
    | inl e ↦
        let same : sr ≡ sr' = ok_inj (sym (after m ∙ rw e refl) ∙ h') in
        (
          ap (λ (x : ShoveyRun). x.shovey_uuid) (sym same) ∙ id,
          ap (λ (x : ShoveyRun). x.node_name) (sym same) ∙ name ∙ (==_iff n m).0 e,
        )
    | inr e ↦ own m sr' (sym (after m ∙ rw e refl) ∙ h')
  ]

  module _ (k : KeepsJobs g) where
    cancel_run_lem :
        (ds : DataStore Bytes) (now : ℕ) (run_id n : Text) (sr : ShoveyRun)
        → OwnsRuns ds run_id
        → get_run g ds run_id n ≡ some (ok sr)
        → (ds' : DataStore Bytes) × (cancel_run g ds now sr ≡ some ds')
          × ((m : Text)
              → get_run g ds' run_id m
                ≡ (if n == m then some (ok (cancelled now sr)) else get_run g ds run_id m))
    unfolding cancel_run
    cancel_run_lem ds now run_id n sr own h = elim (Bool-cases (is_over sr.status)) [
      | inl over ↦ (ds, rw over refl, λ m. rw (cancelled-over now sr over) (stays m))
      | inr open_run ↦
          let sr' : ShoveyRun = record sr { end_time = some now; status = codes "cancelled" } in
          let (ds', h', kept) = get_run-save_run g k ds sr' in
          let (u, v) = own n sr h in
          (ds', rw open_run h', λ m. rw (cancelled-open now sr open_run, sym u, sym v) (kept m))
    ]
      where
        stays :
            (m : Text)
            → get_run g ds run_id m ≡ (if n == m then some (ok sr) else get_run g ds run_id m)
        stays m = elim (Bool-cases (n == m)) [
          | inl e ↦ rw e (sym (ap (get_run g ds run_id) ((==_iff n m).0 e)) ∙ h)
          | inr e ↦ rw e refl
        ]

    cancel_run-OwnsRuns :
        (ds ds' : DataStore Bytes) (now : ℕ) (run_id n : Text) (sr : ShoveyRun)
        → OwnsRuns ds run_id
        → get_run g ds run_id n ≡ some (ok sr)
        → ((m : Text)
            → get_run g ds' run_id m
              ≡ (if n == m then some (ok (cancelled now sr)) else get_run g ds run_id m))
        → OwnsRuns ds' run_id
    cancel_run-OwnsRuns ds ds' now run_id n sr own h after =
        let (own_id, own_name) = own n sr h in
        let (id, name) = cancelled-names now sr in
        saved-OwnsRuns ds ds' run_id n (cancelled now sr) (id ∙ own_id) (name ∙ own_name) own after

    cancel_run-HasRun :
        (ds ds' : DataStore Bytes) (now : ℕ) (run_id n : Text) (sr : ShoveyRun)
        → ((m : Text)
            → get_run g ds' run_id m
              ≡ (if n == m then some (ok (cancelled now sr)) else get_run g ds run_id m))
        → (names : List Text) → All (HasRun ds run_id) names
        → All (HasRun ds' run_id) names
    cancel_run-HasRun ds ds' now run_id n sr after [] all = tt
    cancel_run-HasRun ds ds' now run_id n sr after (m ∷ names) ((sr', h), all) = (
      elim (Bool-cases (n == m)) [
        | inl e ↦ (cancelled now sr, after m ∙ rw e refl)
        | inr e ↦ (sr', after m ∙ rw e h)
      ],
      cancel_run-HasRun ds ds' now run_id n sr after names all,
    )

    cancel_loop_lem :
        (ds : DataStore Bytes) (now : ℕ) (run_id : Text) (names : List Text)
        → OwnsRuns ds run_id
        → All (HasRun ds run_id) names
        → (ds' : DataStore Bytes) × (cancel_loop g ds now run_id names ≡ some (ds', none))
          × ((m : Text)
              → get_run g ds' run_id m ≡ (
                  if contains names m
                  then on_run (cancelled now) (get_run g ds run_id m)
                  else get_run g ds run_id m))
    unfolding cancel_loop
    cancel_loop_lem ds now run_id [] own all = (ds, refl, λ m. refl)
    cancel_loop_lem ds now run_id (n ∷ names) own ((sr, h), all) =
        let (ds1, h1, after) = cancel_run_lem ds now run_id n sr own h in
        let (ds2, h2, rest) =
          cancel_loop_lem ds1 now run_id names
            (cancel_run-OwnsRuns ds ds1 now run_id n sr own h after)
            (cancel_run-HasRun ds ds1 now run_id n sr after names all) in
        (
          ds2,
          rw (h, h1) h2,
          λ m.
              on_both (n == m) (contains names m) (cancelled now) sr _ (rest m) (after m)
                (λ e. sym (ap (get_run g ds run_id) ((==_iff n m).0 e)) ∙ h)
                (cancelled_twice now sr),
        )

    cancel_job_all :
        (ds : DataStore Bytes) (now : ℕ) (s : Shovey)
        → cancel_job g ds now s s.node_names
          ≡ save g ds now
              (record s { node_names = sort text_ltb s.node_names; status = codes "cancelled" })
    unfolding cancel_job
    cancel_job_all ds now s =
        rw (same_length s.node_names, ==_refl (sort text_ltb s.node_names)) refl
      where
        same_length : (l : List Text) → nat_beq (length l) (length l) ≡ true
        same_length l = ground arith

    -- Where gob keeps jobs and runs, if each node of a job has a run that names both, and the nodes
    -- answer, `Cancel` returns no error, the job is stored as cancelled, each run of its nodes that
    -- is not over ends as cancelled, and every run that is over, and every run of another node,
    -- stays as it is.
    pub cancel_lem :
        (ds : DataStore Bytes) (now : ℕ) (s : Shovey)
        → OwnsRuns ds s.run_id
        → All (HasRun ds s.run_id) s.node_names
        → (ds' : DataStore Bytes) × (cancel g ds now none s ≡ some (ds', cancelled_job now s, none))
          × (get g ds' s.run_id ≡ some (ok (cancelled_job now s)))
          × ((m : Text)
              → get_run g ds' s.run_id m ≡ (
                  if contains s.node_names m
                  then on_run (cancelled now) (get_run g ds s.run_id m)
                  else get_run g ds s.run_id m))
    unfolding cancel cancel_runs
    cancel_lem ds now s own all =
        let job : Shovey = record s {
          node_names = sort text_ltb s.node_names;
          status = codes "cancelled";
        } in
        let (ds1, h1, after) = cancel_loop_lem ds now s.run_id s.node_names own all in
        let (ds2, h2, _, kept) = get_run-save g k ds1 now job in
        let (ds3, h3, stored, kept') = get_run-save g k ds2 now (record job { updated_at = now }) in
        (
          ds3,
          rw (h1, cancel_job_all ds1 now s, h2, h3) refl,
          stored,
          λ m. kept' s.run_id m ∙ kept s.run_id m ∙ after m,
        )
