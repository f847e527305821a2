-- ===== src/Shovey/Jobs/Start.antt =====
-- shovey/shovey.go: the runs that `startJobs` makes.
use goiardi.Base.{
  ℕ, ◌≡◌, refl, ap, sym, ◌∙◌, Bool, true, false, not, ◌&&◌, ◌||◌, Option, none, some, List, [], ◌∷◌,
  ◌==◌, ==_iff, nat_eq, list_eq, if◌then◌else◌, arith, Bool-cases, inl, inr, contains, length,
}
use goiardi.Base.Text.{Text, codes}
use goiardi.Base.Int.{int_ltb}
use goiardi.Datastore.{Gob, DataStore}
use goiardi.Datastore.NilArrays.{Reflect}
use goiardi.Objects.{Shovey, ShoveyRun, Node, Object, Result, ok}
use goiardi.Node.{get_nodes_by_status}
use goiardi.Shovey.{get_run}
use goiardi.Shovey.Jobs.{
  Float, nodes_needed, get_quorum, created_run, down_run, names_of, create_runs, down_runs,
  start_jobs,
}
use goiardi.Shovey.Jobs.Runs.{KeepsJobs, get_run-save_run, two_writes}

two_names :
    {A : Type 0} (t u d : Bool) (o : A) {x y a b : A}
    → x ≡ (if u && not d then a else y)
    → y ≡ (if t then b else o)
    → (t ≡ true → b ≡ a)
    → (t ≡ true → d ≡ false)
    → x ≡ (if (t || u) && not d then a else o)
two_names true u true o hx hy e off = ground (arith, off refl)
two_names true true false o hx hy e off = hx
two_names true false false o hx hy e off = hx ∙ hy ∙ e refl
two_names false true d o hx hy e off = ground (arith, hx, hy)
two_names false false d o hx hy e off = hx ∙ hy

picked :
    (c d : Bool) (a b : ShoveyRun) (o : Option (Result ShoveyRun)) {x y : Option (Result ShoveyRun)}
    → x ≡ (if c && not d then some (ok b) else y)
    → y ≡ (if d then some (ok a) else o)
    → c ≡ true
    → x ≡ some (ok (if d then a else b))
picked true true a b o hx hy e = hx ∙ hy
picked true false a b o hx hy e = hx
picked false d a b o hx hy e = ground (arith, e)

module _ ⦃r : Reflect Object⦄ (g : Gob Object) (k : KeepsJobs g) where
  open g use {Bytes}

  create_runs_lem :
      (ds : DataStore Bytes) (run_id : Text) (up : List Text)
      → (ds' : DataStore Bytes) × (create_runs g ds run_id up ≡ some ds')
        × ((n : Text)
            → get_run g ds' run_id n
              ≡ (if contains up n then some (ok (created_run run_id n)) else get_run g ds run_id n))
  unfolding create_runs
  create_runs_lem ds run_id [] = (ds, refl, λ n. refl)
  create_runs_lem ds run_id (m ∷ up) =
      let (ds1, h, own) = get_run-save_run g k ds (created_run run_id m) in
      let (ds2, h', rest) = create_runs_lem ds1 run_id up in
      (
        ds2,
        rw h h',
        λ n.
            two_writes (m == n) (contains up n) _ (rest n) (own n)
              (λ e. ap (λ m'. some (ok (created_run run_id m'))) ((==_iff m n).0 e)),
      )

  down_runs_lem :
      (ds : DataStore Bytes) (now : ℕ) (run_id : Text) (d names : List Text)
      → (ds' : DataStore Bytes) × (down_runs g ds now run_id d names ≡ some ds')
        × ((n : Text)
            → get_run g ds' run_id n ≡ (
                if contains names n && not (contains d n)
                then some (ok (down_run now run_id n))
                else get_run g ds run_id n))
  unfolding down_runs
  down_runs_lem ds now run_id d [] = (ds, refl, λ n. refl)
  down_runs_lem ds now run_id d (m ∷ names) = elim (Bool-cases (contains d m)) [
    | inl up ↦
        let (ds', h, rest) = down_runs_lem ds now run_id d names in
        (ds', rw up h, λ n. rest n ∙ skipped up n _ _)
    | inr down ↦
        let (ds1, h, own) = get_run-save_run g k ds (down_run now run_id m) in
        let (ds2, h', rest) = down_runs_lem ds1 now run_id d names in
        (
          ds2,
          rw (down, h) h',
          λ n.
              two_names (m == n) (contains names n) (contains d n) _ (rest n) (own n)
                (λ e. ap (λ m'. some (ok (down_run now run_id m'))) ((==_iff m n).0 e))
                (λ e. ap (contains d) (sym ((==_iff m n).0 e)) ∙ down),
        )
  ]
    where
      skipped :
          contains d m ≡ true
          → {A : Type 0} (n : Text) (a o : A)
          → (if contains names n && not (contains d n) then a else o)
            ≡ (if ((m == n) || contains names n) && not (contains d n) then a else o)
      skipped up n a o = elim (Bool-cases (m == n)) [
        | inl e ↦ rw (e, sym (ap (contains d) ((==_iff m n).0 e)) ∙ up) (ground arith)
        | inr e ↦ rw e refl
      ]

  -- Where gob keeps runs, if the quorum asks for no more nodes than are up and the nodes answer,
  -- `startJobs` returns no error, and then each node of the job has a new run: it is created where
  -- the node is among those that are up, and down where it is not.
  pub start_jobs_lem :
      (f : Float) (ds ds1 : DataStore Bytes) (now : ℕ) (s : Shovey) (qnum : ℕ)
      (up_nodes : List Node)
      → get_quorum f s.quorum (length s.node_names) ≡ nodes_needed qnum
      → get_nodes_by_status g ds s.node_names (codes "up") ≡ some (ds1, up_nodes)
      → int_ltb (length up_nodes) qnum ≡ false
      → (ds' : DataStore Bytes) × (start_jobs g f ds now none s ≡ some (ds', none))
        × ((n : Text)
            → contains s.node_names n ≡ true
            → get_run g ds' s.run_id n
              ≡ some (
                  ok (
                    if contains (names_of up_nodes) n
                    then created_run s.run_id n
                    else down_run now s.run_id n)))
  unfolding start_jobs
  start_jobs_lem f ds ds1 now s qnum up_nodes q u enough =
      let up = names_of up_nodes in
      let (ds2, h, created) = create_runs_lem ds1 s.run_id up in
      let (ds3, h', downs) = down_runs_lem ds2 now s.run_id up s.node_names in
      (
        ds3,
        rw (q, start_jobs, u, enough, h, h') refl,
        λ n m. picked (contains s.node_names n) (contains up n) _ _ _ (downs n) (created n) m,
      )
