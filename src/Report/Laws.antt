-- ===== src/Report/Laws.antt =====
-- report/report.go: how many reports `GetReportList` returns.
use goiardi.Base.{
  ℕ, suc, zero, ◌+◌, ◌≤◌, ◌<◌, ◌≡◌, refl, sym, ◌∙◌, Bool, true, false, some, List, [], ◌∷◌, arith,
  Bool-cases, inl, inr, take, filter, >>=-eq-some,
}
use goiardi.Base.Text.{Text}
use goiardi.Base.Int.{int_bound, int_ltb, int_suc, int_suc-eq-add_one, int_ltb-eq-ltb}
use mathlib.Core.Option.{some-injective}
use goiardi.Datastore.{Gob, DataStore}
use goiardi.Datastore.NilArrays.{Reflect}
use goiardi.Objects.{Report, Object, Result, ok, err}
use goiardi.Report.{get, fetch_all, all_reports, collect, is_wanted, get_list, get_report_list}

int_ltb-below : (a b : ℕ) → b ≤ a → a < int_bound → int_ltb a b ≡ false
int_ltb-below a b h k = int_ltb-eq-ltb a b k (omega (arith, h, k)) ∙ ground (arith, h)

int_ltb-suc : (a b : ℕ) → b + 0 ≡ a → suc a < int_bound → int_ltb a (suc b) ≡ true
int_ltb-suc a b e h =
    int_ltb-eq-ltb a (suc b) (omega (arith, h)) (omega (arith, e, h)) ∙ ground (arith, e)

after : (i : ℕ) → i < int_bound → int_suc i ≡ suc i
after i h = int_suc-eq-add_one i h ∙ omega arith

module _ ⦃r : Reflect Object⦄ (g : Gob Object) where
  open g use {Bytes}

  -- With `i` reports found, and `k` more until there are as many as asked for.
  collect_lem :
      (ds : DataStore Bytes) (wanted : Report → Bool) (rows i k : ℕ) (names : List Text)
      (reports : List Report)
      → i + k ≡ rows
      → suc rows < int_bound
      → fetch_all g ds names ≡ some reports
      → collect g ds wanted rows names i ≡ some (take (suc k) (filter wanted reports))
  unfolding collect fetch_all
  collect_lem ds wanted rows i k [] reports e b h = rw (sym (some-injective _ _ h)) refl
  collect_lem ds wanted rows i k (n ∷ names) reports e b h =
      let (rp, found, h1) = >>=-eq-some (get g ds n) _ h in
      let (rest, later, h2) = >>=-eq-some (fetch_all g ds names) _ h1 in
      one rp rest k found h2 e (λ j l e'. collect_lem ds wanted rows j l names rest e' b later)
    where
      one :
          (rp : Result Report) (rest : List Report) (l : ℕ)
          → get g ds n ≡ some rp
          → some (elim rp as (λ _. List Report) [ err e ↦ rest | ok report ↦ report ∷ rest ])
            ≡ some reports
          → i + l ≡ rows
          → ((j m : ℕ)
              → j + m ≡ rows
              → collect g ds wanted rows names j ≡ some (take (suc m) (filter wanted rest)))
          → collect g ds wanted rows (n ∷ names) i ≡ some (take (suc l) (filter wanted reports))
      one (err e') rest l found h2 e next =
          rw
            (
              sym (some-injective _ _ h2),
              found,
              int_ltb-below rows i (omega (arith, e)) (omega (arith, b)),
            )
            (next i l e)
      one (ok report) rest zero found h2 e next = elim (Bool-cases (wanted report)) [
        | inl w ↦
            rw
              (
                sym (some-injective _ _ h2),
                found,
                w,
                after i (omega (arith, e, b)),
                int_ltb-suc rows i e b,
              )
              refl
        | inr w ↦
            rw
              (
                sym (some-injective _ _ h2),
                found,
                w,
                int_ltb-below rows i (omega (arith, e)) (omega (arith, b)),
              )
              (next i zero e)
      ]
      one (ok report) rest (suc l) found h2 e next = elim (Bool-cases (wanted report)) [
        | inl w ↦
            rw
              (
                sym (some-injective _ _ h2),
                found,
                w,
                after i (omega (arith, e, b)),
                int_ltb-below rows (suc i) (omega (arith, e)) (omega (arith, b)),
                next (suc i) l (omega (arith, e)),
              )
              refl
        | inr w ↦
            rw
              (
                sym (some-injective _ _ h2),
                found,
                w,
                int_ltb-below rows i (omega (arith, e)) (omega (arith, b)),
              )
              (next i (suc l) e)
      ]

  -- Where all reports can be read, and one more than the rows asked for fits an int,
  -- `GetReportList` returns the first of the reports that are wanted, up to one more than asked for.
  pub get_report_list_lem :
      (ds : DataStore Bytes) (from until rows : ℕ) (status : Text) (reports : List Report)
      → suc rows < int_bound
      → all_reports g ds ≡ some reports
      → get_report_list g ds from until rows status
        ≡ some (take (suc rows) (filter (is_wanted from until status) reports))
  unfolding get_report_list all_reports
  get_report_list_lem ds from until rows status reports b h =
      let (names, listed, h1) = >>=-eq-some (get_list g ds) _ h in
      rw listed
        (collect_lem ds (is_wanted from until status) rows 0 rows names reports (omega arith) b h1)
