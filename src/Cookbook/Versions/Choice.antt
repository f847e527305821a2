-- ===== src/Cookbook/Versions/Choice.antt =====
-- cookbook/cookbook.go: what a constraint chooses among printed versions in descending order.
use goiardi.Base.{
  ℕ, zero, suc, ◌+◌, ◌-◌, ◌^◌, ◌<◌, ◌≤◌, ◌≡◌, ◌↔◌, refl, ap, sym, ◌∙◌, subst, Bool, true, false,
  Option, none, some, List, [], ◌∷◌, ◌==◌, ==_iff, nat_eq, list_eq, if◌then◌else◌, arith, contains,
  Bool-cases, inl, inr, ltb, All, filter, take, map,
}
use goiardi.Base.Text.{Text}
use goiardi.Base.Int.{int_bound, int_ltb}
use goiardi.Base.Sort.{IsSorted}
use goiardi.Objects.{CookbookVersion}
use goiardi.Cookbook.Versioning.{ver_constraint_check, Action, pass, skip, stop, invalid}
use goiardi.Cookbook.Versioning.Canonical.{Version, IsVersion, print_version}
use goiardi.Cookbook.Versioning.Order.{version_less-print_version}
use goiardi.Cookbook.Versioning.Constraints.{
  Op, print_op, ceiling, Judges, ver_constraint_check_lem,
}
use goiardi.Cookbook.Versions.{version_greater, verdict, is_enough, ver_loop}

abbrev pub IsPrinted : Text → Type 0
IsPrinted t = (v : Version) × IsVersion v × (t ≡ print_version v)

abbrev pub versions_of : List CookbookVersion → List Text
versions_of = map (λ (cv : CookbookVersion). cv.version)

abbrev pub is_pass : Action → Bool
is_pass pass = true
is_pass _ = false

is_pass_iff : (a : Action) → (a ≡ pass) ↔ (is_pass a ≡ true)
is_pass_iff pass = ground arith
is_pass_iff skip = ground arith
is_pass_iff stop = ground arith
is_pass_iff invalid = ground arith

-- How many versions a number asks for: none if it is negative.
abbrev pub count : ℕ → ℕ
count n = if ltb n int_bound then n else 0

-- What is left to take after `nr`.
abbrev pub limit : Option ℕ → ℕ → List CookbookVersion → List CookbookVersion
limit none nr cvs = cvs
limit (some n) nr cvs = take (count n - nr) cvs

abbrev pub Within : Option ℕ → ℕ → Type 0
Within none nr = Unit
Within (some n) nr = (n < 2 ^ 64) × (nr ≤ count n)

take-cons :
    (m n : ℕ) (cv : CookbookVersion) (cvs : List CookbookVersion)
    → m ≡ n + 1
    → take m (cv ∷ cvs) ≡ cv ∷ take n cvs
take-cons zero n cv cvs e = absurd (omega arith)
take-cons (suc m) n cv cvs e = ap (λ k. cv ∷ take k cvs) (omega arith)

take-nil : (m : ℕ) → take {A = CookbookVersion} m [] ≡ []
take-nil zero = refl
take-nil (suc m) = refl

take-zero : (m : ℕ) (cvs : List CookbookVersion) → m ≡ 0 → take m cvs ≡ []
take-zero zero cvs e = refl
take-zero (suc m) cvs e = absurd (omega arith)

-- Whether a version passes a constraint.
unfoldable pub passes : Op → Version → CookbookVersion → Bool
passes op w cv = is_pass (ver_constraint_check cv.version (print_version w) (print_op op))

pub All-contains :
    (P : Text → Type 0) (xs : List Text) (a : Text) → All P xs → contains xs a ≡ true → P a
All-contains P [] a h c = absurd (ground (arith, c))
All-contains P (x ∷ xs) a h c = elim (Bool-cases (x == a)) [
  | inl same ↦ subst P ((==_iff x a).0 same) h.0
  | inr differ ↦ All-contains P xs a h.1 (ground arith)
]

module _ (op : Op) (w : Version) (hw : IsVersion w) (hc : IsVersion (ceiling w)) where
  pub judge :
      (v : Version)
      → IsVersion v
      → Judges op v w (ver_constraint_check (print_version v) (print_version w) (print_op op))
  judge v h = ver_constraint_check_lem op v w h hw hc

  -- After a "break" nothing passes.
  none-passes :
      (v : Version) (cvs : List CookbookVersion)
      → IsVersion v
      → ver_constraint_check (print_version v) (print_version w) (print_op op) ≡ stop
      → All IsPrinted (versions_of cvs)
      → All (λ y. version_greater y (print_version v) ≡ false) (versions_of cvs)
      → filter (passes op w) cvs ≡ []
  unfolding passes version_greater
  none-passes v [] h e p s = refl
  none-passes v (cv ∷ cvs) h e ((u, hu, eu), p) (s, ss) =
      let fails =
        (judge v h).stop_sound e u (sym (version_less-print_version v u h hu) ∙ rw eu at s) in
      let j = judge u hu in
      rw eu (
        ground (
          arith,
          fails,
          j.passes_iff,
          none-passes v cvs h e p ss,
          is_pass_iff (ver_constraint_check (print_version u) (print_version w) (print_op op)),
        ))

  limit_cons :
      (num : Option ℕ) (nr : ℕ) (cv : CookbookVersion) (cvs : List CookbookVersion)
      → Within num nr
      → is_enough num nr ≡ false
      → (limit num nr (cv ∷ cvs) ≡ cv ∷ limit num (nr + 1) cvs) × Within num (nr + 1)
  unfolding is_enough int_ltb
  limit_cons none nr cv cvs h e = (refl, tt)
  limit_cons (some n) nr cv cvs h e =
      (take-cons (count n - nr) (count n - (nr + 1)) cv cvs (ground arith), (h.0, ground arith))

  limit_done :
      (num : Option ℕ) (nr : ℕ) (cvs : List CookbookVersion)
      → Within num nr
      → is_enough num nr ≡ true
      → limit num nr cvs ≡ []
  unfolding is_enough int_ltb
  limit_done none nr cvs h e = ground (arith, e)
  limit_done (some n) nr cvs h e = take-zero (count n - nr) cvs (ground arith)

  limit-nil : (num : Option ℕ) (nr : ℕ) → limit num nr [] ≡ []
  limit-nil none nr = refl
  limit-nil (some n) nr = take-nil (count n - nr)

  -- What the loop makes of one version, where `tail` says what it makes of the others.
  ver_loop-cons :
      (num : Option ℕ) (nr : ℕ) (cv : CookbookVersion) (cvs : List CookbookVersion) (v : Version)
      → Within num nr
      → IsVersion v
      → cv.version ≡ print_version v
      → All IsPrinted (versions_of cvs)
        × All (λ y. version_greater y cv.version ≡ false) (versions_of cvs)
      → ((k : ℕ)
          → Within num k
          → ver_loop num (some (print_op op, print_version w)) k cvs
            ≡ limit num k (filter (passes op w) cvs))
      → is_enough num nr ≡ false
      → (a : Action) → ver_constraint_check cv.version (print_version w) (print_op op) ≡ a
      → ver_loop num (some (print_op op, print_version w)) nr (cv ∷ cvs)
        ≡ limit num nr (filter (passes op w) (cv ∷ cvs))
  unfolding ver_loop passes verdict
  ver_loop-cons num nr cv cvs v h hv ev d tail more pass e =
      let (l, next) = limit_cons num nr cv (filter (passes op w) cvs) h more in
      rw (more, e) (ap (◌∷◌ cv) (tail (nr + 1) next) ∙ sym l)
  ver_loop-cons num nr cv cvs v h hv ev d tail more skip e = rw (more, e) (tail nr h)
  ver_loop-cons num nr cv cvs v h hv ev d tail more stop e =
      rw (more, e)
        (sym (
          ap (limit num nr) (none-passes v cvs hv (rw ev at e) d.0 (rw ev at d.1))
          ∙ limit-nil num nr))
  ver_loop-cons num nr cv cvs v h hv ev d tail more invalid e =
      absurd ((judge v hv).valid (rw ev at e))

  -- `VerLoop` takes the first versions that pass, up to the number.
  pub ver_loop-filter :
      (num : Option ℕ) (nr : ℕ) (cvs : List CookbookVersion)
      → Within num nr
      → All IsPrinted (versions_of cvs)
      → IsSorted version_greater (versions_of cvs)
      → ver_loop num (some (print_op op, print_version w)) nr cvs
        ≡ limit num nr (filter (passes op w) cvs)
  unfolding ver_loop
  ver_loop-filter num nr [] h p s = sym (limit-nil num nr)
  ver_loop-filter num nr (cv ∷ cvs) h ((v, hv, ev), p) (s, ss) =
      let tail : (k : ℕ)
          → Within num k
          → ver_loop num (some (print_op op, print_version w)) k cvs
            ≡ limit num k (filter (passes op w) cvs) =
        λ k hk. ver_loop-filter num k cvs hk p ss in
      elim (Bool-cases (is_enough num nr)) [
        | inl done ↦ rw done (sym (limit_done num nr (filter (passes op w) (cv ∷ cvs)) h done))
        | inr more ↦
            ver_loop-cons num nr cv cvs v h hv ev (p, s) tail more
              (ver_constraint_check cv.version (print_version w) (print_op op)) refl
      ]
