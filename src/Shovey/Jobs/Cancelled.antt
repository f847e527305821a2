-- ===== src/Shovey/Jobs/Cancelled.antt =====
-- shovey/shovey.go: what `CancelRuns` makes of one run, and `Cancel` of the job.
use goiardi.Base.{
  ℕ, ◌≡◌, refl, ap, sym, ◌∙◌, Bool, true, false, ◌||◌, Option, some, ◌==◌, nat_eq, list_eq,
  list_beq, if◌then◌else◌, arith, Bool-cases, inl, inr,
}
use goiardi.Base.Text.{Text, codes, text_ltb}
use goiardi.Base.Sort.{sort}
use goiardi.Objects.{Shovey, ShoveyRun, Result, ok}
use goiardi.Shovey.{is_complete, is_over}

-- A run that is over stays as it is; another one ends now, as cancelled.
pub cancelled : ℕ → ShoveyRun → ShoveyRun
cancelled now sr =
    if is_over sr.status then sr else record sr { end_time = some now; status = codes "cancelled" }

-- The job as `Cancel` stores it, with its nodes in order.
abbrev pub cancelled_job : ℕ → Shovey → Shovey
cancelled_job now s = record s {
  node_names = sort text_ltb s.node_names;
  status = codes "cancelled";
  updated_at = now;
}

abbrev pub on_run : (ShoveyRun → ShoveyRun) → Option (Result ShoveyRun) → Option (Result ShoveyRun)
on_run f (some (ok sr)) = some (ok (f sr))
on_run f found = found

pub cancelled-over : (now : ℕ) (sr : ShoveyRun) → is_over sr.status ≡ true → cancelled now sr ≡ sr
unfolding cancelled
cancelled-over now sr h = rw h refl

pub cancelled-open :
    (now : ℕ) (sr : ShoveyRun)
    → is_over sr.status ≡ false
    → cancelled now sr ≡ record sr { end_time = some now; status = codes "cancelled" }
unfolding cancelled
cancelled-open now sr h = rw h refl

is_over-cancelled : is_over (codes "cancelled") ≡ false
unfolding is_over list_eq list_beq
is_over-cancelled = refl

-- Cancelling twice is cancelling once.
pub cancelled_twice :
    (now : ℕ) (sr : ShoveyRun) → cancelled now (cancelled now sr) ≡ cancelled now sr
cancelled_twice now sr = elim (Bool-cases (is_over sr.status)) [
  | inl over ↦ ap (cancelled now) (cancelled-over now sr over)
  | inr open_run ↦
      ap (cancelled now) (cancelled-open now sr open_run)
      ∙ cancelled-open now (record sr { end_time = some now; status = codes "cancelled" })
          is_over-cancelled
      ∙ sym (cancelled-open now sr open_run)
]

pub cancelled-names :
    (now : ℕ) (sr : ShoveyRun)
    → ((cancelled now sr).shovey_uuid ≡ sr.shovey_uuid)
      × ((cancelled now sr).node_name ≡ sr.node_name)
cancelled-names now sr = elim (Bool-cases (is_over sr.status)) [
  | inl over ↦ rw (cancelled-over now sr over) (refl, refl)
  | inr open_run ↦ rw (cancelled-open now sr open_run) (refl, refl)
]

pub ok_inj : {x y : ShoveyRun} → some (ok x) ≡ some (ok y) → x ≡ y
ok_inj e = ground (arith, e)

-- A run and then those of the names after it.
pub on_both :
    (t u : Bool) (f : ShoveyRun → ShoveyRun) (sr : ShoveyRun) (o : Option (Result ShoveyRun))
    {x y : Option (Result ShoveyRun)}
    → x ≡ (if u then on_run f y else y)
    → y ≡ (if t then some (ok (f sr)) else o)
    → (t ≡ true → o ≡ some (ok sr))
    → f (f sr) ≡ f sr
    → x ≡ (if t || u then on_run f o else o)
on_both true true f sr o hx hy e twice =
    hx ∙ ap (on_run f) hy ∙ ap (λ z. some (ok z)) twice ∙ sym (ap (on_run f) (e refl))
on_both true false f sr o hx hy e twice = hx ∙ hy ∙ sym (ap (on_run f) (e refl))
on_both false true f sr o hx hy e twice = hx ∙ ap (on_run f) hy
on_both false false f sr o hx hy e twice = hx ∙ hy

one_more :
    (a b c d e f : Bool)
    → (a || (b || (c || (d || e)))) ≡ true
    → (a || (b || (c || (d || (e || f))))) ≡ true
one_more true b c d e f h = refl
one_more false true c d e f h = refl
one_more false false true d e f h = refl
one_more false false false true e f h = refl
one_more false false false false true f h = refl
one_more false false false false false f h = ground (arith, h)

complete-over : (status : Text) → is_over status ≡ true → is_complete status ≡ true
unfolding is_over is_complete
complete-over status over =
    one_more (status == codes "invalid") (status == codes "succeeded") (status == codes "failed")
      (status == codes "down") (status == codes "nacked") (status == codes "cancelled") over

is_complete-cancelled : is_complete (codes "cancelled") ≡ true
unfolding is_complete list_eq list_beq
is_complete-cancelled = refl

-- A run that `Cancel` has been at counts as complete.
pub complete-cancelled : (now : ℕ) (sr : ShoveyRun) → is_complete (cancelled now sr).status ≡ true
complete-cancelled now sr = elim (Bool-cases (is_over sr.status)) [
  | inl over ↦ rw (cancelled-over now sr over) (complete-over sr.status over)
  | inr open_run ↦ rw (cancelled-open now sr open_run) is_complete-cancelled
]
