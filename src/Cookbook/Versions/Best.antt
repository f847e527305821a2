-- ===== src/Cookbook/Versions/Best.antt =====
-- cookbook/cookbook.go: the loop of `LatestConstrained` finds the best of the versions.
use goiardi.Base.{
  ◌≡◌, ◌≢◌, refl, sym, ◌∙◌, true, false, Option, none, some, List, [], ◌∷◌, ◌==◌, ==_iff, nat_eq,
  list_eq, arith, contains, Bool-cases, inl, inr, All,
}
use goiardi.Base.Text.{Text}
use goiardi.Base.Sort.{IsSorted}
use goiardi.Objects.{CookbookVersion}
use goiardi.Cookbook.Versioning.{ver_constraint_check, Action, pass, skip, stop, invalid}
use goiardi.Cookbook.Versioning.Canonical.{Version, IsVersion, print_version, ver_ltb}
use goiardi.Cookbook.Versioning.Order.{print_version-ver_ltb, version_less-print_version}
use goiardi.Cookbook.Versioning.Constraints.{Op, print_op, ceiling, meets}
use goiardi.Cookbook.Versions.{version_greater, verdict, first_passing}
use goiardi.Cookbook.Versions.Choice.{IsPrinted, versions_of, All-contains, judge}

-- The best of the versions named `ks`, if there is one.
unfoldable pub IsBest : Op → Version → List Text → Option CookbookVersion → Type 0
IsBest op w ks none =
    (u : Version) → IsVersion u → contains ks (print_version u) ≡ true → meets op u w ≡ false
IsBest op w ks (some cv) =
    (v : Version) × IsVersion v
    × (cv.version ≡ print_version v)
    × (contains ks (print_version v) ≡ true)
    × (meets op v w ≡ true)
    × ((u : Version)
        → IsVersion u
        → contains ks (print_version u) ≡ true
        → meets op u w ≡ true
        → ver_ltb v u ≡ false)

module _ (op : Op) (w : Version) (hw : IsVersion w) (hc : IsVersion (ceiling w)) where
  meets-printed :
      (u v : Version)
      → IsVersion u
      → IsVersion v
      → print_version u ≡ print_version v
      → meets op u w ≡ meets op v w
  meets-printed u v hu hv e =
      ground (arith, e, (judge op w hw hc u hu).passes_iff, (judge op w hw hc v hv).passes_iff)

  -- One version more, which is first in order.
  IsBest-first :
      (cv : CookbookVersion) (ks : List Text) (v : Version)
      → IsVersion v
      → cv.version ≡ print_version v
      → All (λ y. version_greater y cv.version ≡ false) ks
      → meets op v w ≡ true
      → IsBest op w (cv.version ∷ ks) (some cv)
  unfolding IsBest version_greater
  IsBest-first cv ks v hv ev s m =
      (v, hv, ev, ground (arith, ==_iff cv.version (print_version v)), m, highest)
    where
      highest :
          (u : Version)
          → IsVersion u
          → contains (cv.version ∷ ks) (print_version u) ≡ true
          → meets op u w ≡ true
          → ver_ltb v u ≡ false
      highest u hu c mu = elim (Bool-cases (cv.version == print_version u)) [
        | inl same ↦
            print_version-ver_ltb v u hv hu (sym ev ∙ (==_iff cv.version (print_version u)).0 same)
        | inr differ ↦
            sym (version_less-print_version v u hv hu)
            ∙ rw ev at (
                All-contains (λ y. version_greater y cv.version ≡ false) ks (print_version u) s
                  (ground arith))
      ]

  IsBest-later :
      (t : Text) (ks : List Text) (v : Version) (o : Option CookbookVersion)
      → IsVersion v
      → t ≡ print_version v
      → meets op v w ≡ false
      → IsBest op w ks o
      → IsBest op w (t ∷ ks) o
  unfolding IsBest
  IsBest-later t ks v none hv et m b =
      λ u hu c. ground (arith, b u hu, ==_iff t (print_version u), meets-printed u v hu hv)
  IsBest-later t ks v (some cv) hv et m (x, hx, ex, c, mx, highest) = (
    x,
    hx,
    ex,
    ground arith,
    mx,
    λ u hu cu mu. ground (arith, highest u hu, ==_iff t (print_version u), meets-printed u v hu hv),
  )

  first_passing-cons :
      (cv : CookbookVersion) (cvs : List CookbookVersion) (v : Version)
      → IsVersion v
      → cv.version ≡ print_version v
      → All (λ y. version_greater y cv.version ≡ false) (versions_of cvs)
      → IsBest op w (versions_of cvs) (first_passing (print_op op) (print_version w) cvs)
      → (a : Action) → ver_constraint_check cv.version (print_version w) (print_op op) ≡ a
      → IsBest op w
          (versions_of (cv ∷ cvs))
          (first_passing (print_op op) (print_version w) (cv ∷ cvs))
  unfolding first_passing verdict
  first_passing-cons cv cvs v hv ev s b a e = by_action a e
    where
      fails :
          (x : Action)
          → x ≢ pass
          → ver_constraint_check cv.version (print_version w) (print_op op) ≡ x
          → meets op v w ≡ false
      fails x ne e' = ground (arith, (judge op w hw hc v hv).passes_iff, ne, rw ev at e')

      by_action :
          (a : Action)
          → ver_constraint_check cv.version (print_version w) (print_op op) ≡ a
          → IsBest op w
              (versions_of (cv ∷ cvs))
              (first_passing (print_op op) (print_version w) (cv ∷ cvs))
      by_action pass e =
          rw (e, first_passing)
            (IsBest-first cv (versions_of cvs) v hv ev s
              ((judge op w hw hc v hv).passes_iff.0 (rw ev at e)))
      by_action skip e =
          rw (e, first_passing)
            (IsBest-later cv.version (versions_of cvs) v _ hv ev
              (fails skip (λ x. ground (arith, x)) e) b)
      by_action stop e =
          rw (e, first_passing)
            (IsBest-later cv.version (versions_of cvs) v _ hv ev
              (fails stop (λ x. ground (arith, x)) e) b)
      by_action invalid e =
          rw (e, first_passing)
            (IsBest-later cv.version (versions_of cvs) v _ hv ev
              (fails invalid (λ x. ground (arith, x)) e) b)

  pub first_passing-IsBest :
      (cvs : List CookbookVersion)
      → All IsPrinted (versions_of cvs)
      → IsSorted version_greater (versions_of cvs)
      → IsBest op w (versions_of cvs) (first_passing (print_op op) (print_version w) cvs)
  unfolding first_passing IsBest
  first_passing-IsBest [] p s = λ u hu e. ground (arith, e)
  first_passing-IsBest (cv ∷ cvs) ((v, hv, ev), p) (s, ss) =
      first_passing-cons cv cvs v hv ev s (first_passing-IsBest cvs p ss)
        (ver_constraint_check cv.version (print_version w) (print_op op)) refl
