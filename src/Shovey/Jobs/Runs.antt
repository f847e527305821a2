-- ===== src/Shovey/Jobs/Runs.antt =====
-- shovey/shovey.go: what `GetRun` and `Get` return after a run or a job was saved.
use goiardi.Base.{
  ℕ, ◌≡◌, refl, ◌∙◌, true, false, ◌||◌, Option, none, some, [], ◌∷◌, ◌++◌, ◌==◌, ==_refl, nat_eq,
  list_eq, list_beq, if◌then◌else◌, arith, Bool, ◌>>=◌,
}
use goiardi.Base.Text.{Text, codes}
use goiardi.Datastore.{Gob, DataStore}
use goiardi.Datastore
use goiardi.Datastore.Keys.{LacksColon}
use goiardi.Datastore.Laws.{get-set}
use goiardi.Datastore.NilArrays.{Reflect, chk_nil_array}
use goiardi.Objects.{Shovey, ShoveyRun, Object, a_shovey, a_shovey_run, ok}
use goiardi.Shovey.{get_run, found_run, save_run, save, get}

pub append-beq : (u a b : Text) → ((u ++ a) == (u ++ b)) ≡ (a == b)
unfolding list_eq list_beq
append-beq [] a b = refl
append-beq (x ∷ u) a b = ground (arith, append-beq u a b, ==_refl x)

bind-some :
    {A B : Type 0} (m : Option A) (f : A → B) {a : A}
    → m ≡ some a
    → (x : B) × ((m >>= (λ a. some (f a))) ≡ some x)
bind-some none f h = ground (arith, h)
bind-some (some a) f h = (f a, refl)

-- The result of two writes, of which the second one counts.
pub two_writes :
    {A : Type 0} (t u : Bool) (o : A) {x y a b : A}
    → x ≡ (if u then a else y)
    → y ≡ (if t then b else o)
    → (t ≡ true → b ≡ a)
    → x ≡ (if t || u then a else o)
two_writes true true o hx hy e = hx
two_writes true false o hx hy e = hx ∙ hy ∙ e refl
two_writes false true o hx hy e = hx
two_writes false false o hx hy e = hx ∙ hy

run_type : LacksColon (codes "shovey_run")
unfolding list_eq list_beq
run_type = refl

job_type : LacksColon (codes "shovey")
unfolding list_eq list_beq
job_type = refl

apart_run : (codes "shovey_run" == codes "shovey") ≡ false
unfolding list_eq list_beq
apart_run = refl

apart : (codes "shovey" == codes "shovey_run") ≡ false
unfolding list_eq list_beq
apart = refl

-- gob encodes jobs and runs, and keeps their fields, as all are exported and a slice of names that
-- comes back nil is none the less empty.
pub record KeepsJobs ⦃r : Reflect Object⦄ (g : Gob Object) : Type 0 where
  pub encodes : (sr : ShoveyRun) → (b : g.Bytes) × (g.encode (a_shovey_run sr) ≡ some b)
  pub keeps : (sr : ShoveyRun) → chk_nil_array (g.kept (a_shovey_run sr)) ≡ a_shovey_run sr
  pub encodes_job : (s : Shovey) → (b : g.Bytes) × (g.encode (a_shovey s) ≡ some b)
  pub keeps_job : (s : Shovey) → chk_nil_array (g.kept (a_shovey s)) ≡ a_shovey s

module _ ⦃r : Reflect Object⦄ (g : Gob Object) where
  found_after :
      (sr : ShoveyRun) (n : Text) (t : Bool) (old : Option (Option Object))
      → ((if t then some (some (a_shovey_run sr)) else old) >>= found_run g sr.shovey_uuid n)
        ≡ (if t then some (ok sr) else (old >>= found_run g sr.shovey_uuid n))
  unfolding found_run
  found_after sr n true old = refl
  found_after sr n false old = refl

  -- A run that is saved leaves every job as before.
  pub get-save_run :
      (ds : DataStore g.Bytes) {ds' : DataStore g.Bytes} (sr : ShoveyRun) (run_id : Text)
      → save_run g ds sr ≡ some ds'
      → get g ds' run_id ≡ get g ds run_id
  unfolding get save_run
  get-save_run ds sr run_id h =
      rw
        (
          get-set g ds (codes "shovey_run") (sr.shovey_uuid ++ sr.node_name) (codes "shovey") run_id
              (a_shovey_run sr) h run_type job_type,
          apart_run,
        )
        refl

  -- A run can be saved, and then its job has that run for its node.
  pub get_run-saved :
      KeepsJobs g
      → (ds : DataStore g.Bytes) {ds' : DataStore g.Bytes} (sr : ShoveyRun) (n : Text)
      → save_run g ds sr ≡ some ds'
      → get_run g ds' sr.shovey_uuid n
        ≡ (if sr.node_name == n then some (ok sr) else get_run g ds sr.shovey_uuid n)
  unfolding get_run save_run
  get_run-saved k ds sr n h =
      rw
        (
          get-set g ds (codes "shovey_run") (sr.shovey_uuid ++ sr.node_name) (codes "shovey_run")
              (sr.shovey_uuid ++ n) (a_shovey_run sr) h run_type run_type,
          ==_refl (codes "shovey_run"),
          append-beq sr.shovey_uuid sr.node_name n,
          k.keeps sr,
        )
        (found_after sr n (sr.node_name == n) _)

  pub set-some :
      (ds : DataStore g.Bytes) (t name : Text) (v : Object)
      → (b : g.Bytes) × (g.encode v ≡ some b)
      → (ds' : DataStore g.Bytes) × (Datastore.set g ds t name v ≡ some ds')
  unfolding Datastore.set
  set-some ds t name v (b, e) = bind-some (g.encode v) _ e

  pub get_run-save_run :
      KeepsJobs g
      → (ds : DataStore g.Bytes) (sr : ShoveyRun)
      → (ds' : DataStore g.Bytes) × (save_run g ds sr ≡ some ds')
        × ((n : Text)
            → get_run g ds' sr.shovey_uuid n
              ≡ (if sr.node_name == n then some (ok sr) else get_run g ds sr.shovey_uuid n))
  unfolding save_run
  get_run-save_run k ds sr =
      let (ds', h) =
        set-some ds (codes "shovey_run") (sr.shovey_uuid ++ sr.node_name) (a_shovey_run sr)
          (k.encodes sr) in
      (ds', rw (save_run, h) refl, λ n. get_run-saved k ds sr n (rw (save_run, h) refl))

  -- A job can be saved, with the time, and then it is there, and all runs are as before.
  pub get_run-save :
      KeepsJobs g
      → (ds : DataStore g.Bytes) (now : ℕ) (s : Shovey)
      → (ds' : DataStore g.Bytes) × (save g ds now s ≡ some (ds', record s { updated_at = now }))
        × (get g ds' s.run_id ≡ some (ok (record s { updated_at = now })))
        × ((run_id n : Text) → get_run g ds' run_id n ≡ get_run g ds run_id n)
  unfolding save get get_run
  get_run-save k ds now s =
      let s' : Shovey = record s { updated_at = now } in
      let (ds', h) = set-some ds (codes "shovey") s.run_id (a_shovey s') (k.encodes_job s') in
      (
        ds',
        rw (save, h) refl,
        rw
            (
              get-set g ds (codes "shovey") s.run_id (codes "shovey") s.run_id (a_shovey s') h
                  job_type job_type,
              ==_refl (codes "shovey"),
              ==_refl s.run_id,
              k.keeps_job s',
            )
            refl,
        λ run_id n.
            rw
              (
                get-set g ds (codes "shovey") s.run_id (codes "shovey_run") (run_id ++ n)
                    (a_shovey s') h job_type run_type,
                apart,
              )
              refl,
      )
