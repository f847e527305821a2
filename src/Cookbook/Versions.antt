-- ===== src/Cookbook/Versions.antt =====
-- cookbook/cookbook.go: the versions of a cookbook in order, and the choice among them by a
-- constraint. Methods that mark nil slices empty or remember the latest version change the
-- cookbook: they return it.
pub mod Printed
pub mod Choice
pub mod Best
pub mod Latest
pub mod Highest
use goiardi.Base.{
  ℕ, zero, suc, Bool, true, false, not, ◌&&◌, ◌||◌, Option, none, some, List, [], ◌∷◌, ◌++◌, ◌==◌,
  nat_eq, list_eq, if◌then◌else◌, all, filter, head?, map, ◌>>=◌, ◌+◌,
}
use goiardi.Base.Text.{Text, codes}
use goiardi.Base.Int.{int_ltb}
use goiardi.Base.Split.{split}
use goiardi.Base.Decimal.{atoi}
use goiardi.Base.Dict.{Dict, keys, lookup, insert}
use goiardi.Base.Sort.{sort}
use goiardi.Datastore.NilArrays.{Reflect, chk_nil_array}
use goiardi.Objects.{Cookbook, CookbookVersion, Result, ok, err, errorf}
use goiardi.Cookbook.Versioning.{
  version_less, ver_constraint_check, Action, pass, skip, stop, invalid,
}

-- `sort.Reverse` on `VersionStrings`.
unfoldable pub version_greater : Text → Text → Bool
version_greater a b = version_less b a

-- `c.Versions[s]` for the keys in turn, each of which is in the map.
unfoldable pub pick : Dict Text CookbookVersion → List Text → List CookbookVersion
unfolding lookup
pick versions [] = []
pick versions (s ∷ ks) =
    let rest = pick versions ks in elim (lookup s versions) [ none ↦ rest | some cbv ↦ cbv ∷ rest ]

-- `numResults`: all, or a number.
unfoldable pub num_versions : Text → Option ℕ
num_versions num_results =
    if not (num_results == []) && not (num_results == codes "all")
    then some (atoi num_results)
    else if num_results == []
    then some 1
    else none

unfoldable pub is_enough : Option ℕ → ℕ → Bool
is_enough none nr = false
is_enough (some n) nr = not (int_ltb nr n)

-- The verdict of a constraint, an operator and a version, or of none.
unfoldable pub verdict : Option (Text × Text) → CookbookVersion → Action
verdict none cv = pass
verdict (some (op, ver)) cv = ver_constraint_check cv.version ver op

-- The loop `VerLoop` of `infoHashBase`, with `nr` versions taken; "invalid" counts as "ok".
unfoldable pub ver_loop :
    Option ℕ → Option (Text × Text) → ℕ → List CookbookVersion → List CookbookVersion
unfolding verdict is_enough
ver_loop num con nr [] = []
ver_loop num con nr (cv ∷ cvs) =
    let skipped = ver_loop num con nr cvs in
    let taken = cv ∷ ver_loop num con (nr + 1) cvs in
    if is_enough num nr
    then []
    else elim (verdict con cv) [ pass ↦ taken | skip ↦ skipped | stop ↦ [] | invalid ↦ taken ]

-- A constraint of the form "op version".
unfoldable pub traints : List Text → Option (Text × Text)
traints (op ∷ ver ∷ []) = some (op, ver)
traints _ = none

-- The loop of `LatestConstrained`.
unfoldable pub first_passing : Text → Text → List CookbookVersion → Option CookbookVersion
unfolding verdict
first_passing op ver [] = none
first_passing op ver (cv ∷ cvs) =
    let rest = first_passing op ver cvs in
    elim (verdict (some (op, ver)) cv) [
      | pass ↦ some cv
      | skip ↦ rest
      | stop ↦ rest
      | invalid ↦ rest
    ]

-- How a pass of a loop body ends: at its end, by `continue Ver`, or by `break Ver` with what `cbv`
-- is then.
pub data Pass : Type 0 where
  fell_through : Pass
  continue_ver : Pass
  break_ver : CookbookVersion → Pass

-- The body of the inner loop of `latestMultiConstraint`.
unfoldable pub check_one : {C : Type 0} → (C → Text → Bool) → CookbookVersion → C → Pass
check_one check cver cs = if not (check cs cver.version) then continue_ver else break_ver cver

-- The inner loop, over the constraints.
unfoldable pub check_each : {C : Type 0} → (C → Text → Bool) → CookbookVersion → List C → Pass
unfolding check_one
check_each check cver [] = fell_through
check_each check cver (cs ∷ constraints) =
    let rest = check_each check cver constraints in
    elim (check_one check cver cs) [
      | fell_through ↦ rest
      | continue_ver ↦ continue_ver
      | break_ver cbv ↦ break_ver cbv
    ]

-- The loop `Ver` of `latestMultiConstraint`, where `check` is `Check` of go-version on the version.
unfoldable pub multi_loop :
    {C : Type 0} → (C → Text → Bool) → List C → List CookbookVersion → Option CookbookVersion
unfolding check_each
multi_loop check constraints [] = none
multi_loop check constraints (cver ∷ cvs) =
    let rest = multi_loop check constraints cvs in
    elim (check_each check cver constraints) [
      | fell_through ↦ rest
      | continue_ver ↦ rest
      | break_ver cbv ↦ some cbv
    ]

module _ ⦃r : Reflect CookbookVersion⦄ where
  unfoldable pub chk_versions : Dict Text CookbookVersion → Dict Text CookbookVersion
  chk_versions [] = []
  chk_versions ((k, cbv) ∷ versions) = (k, chk_nil_array cbv) ∷ chk_versions versions

  -- `sortedVersions`.
  unfoldable pub sorted_versions : Cookbook → Cookbook × List CookbookVersion
  unfolding chk_versions pick version_greater
  sorted_versions c =
      let versions = chk_versions c.versions in
      (record c { versions = versions }, pick versions (sort version_greater (keys versions)))

  unfoldable pub remember : Cookbook → List CookbookVersion → Option (Cookbook × CookbookVersion)
  remember c [] = none
  remember c (v ∷ sorted) = let v' = chk_nil_array v in some (record c { latest = some v' }, v')

  -- `LatestVersion`; without versions the index 0 is out of range, a panic.
  unfoldable pub latest_version : Cookbook → Option (Cookbook × CookbookVersion)
  unfolding sorted_versions remember
  latest_version c = elim c.latest [
    | some cbv ↦ some (c, cbv)
    | none ↦ let (c', sorted) = sorted_versions c in remember c' sorted
  ]

  -- `UpdateLatestVersion`.
  unfoldable pub update_latest_version : Cookbook → Option Cookbook
  unfolding latest_version
  update_latest_version c = do (c', cbv) ← latest_version (record c { latest = none }); some c'

  -- `infoHashBase`: the versions that it lists, or nil for a malformed constraint.
  unfoldable pub info_hash_base : Cookbook → Text → Text → Option (List CookbookVersion)
  unfolding sorted_versions ver_loop num_versions traints split
  info_hash_base c num_results constraint =
      let num = num_versions num_results in
      let listed = sorted_versions c in
      if constraint == []
      then some (ver_loop num none 0 (listed.1))
      else elim (traints (split b' ' constraint)) [
        | none ↦ none
        | some con ↦ some (ver_loop num (some con) 0 (listed.1))
      ]

  -- `LatestConstrained`; the inner `none` is the nil pointer.
  unfoldable pub latest_constrained : Cookbook → Text → Option (Option CookbookVersion)
  unfolding sorted_versions latest_version first_passing traints split
  latest_constrained c constraint =
      let listed = sorted_versions c in
      let latest = latest_version c in
      if constraint == []
      then latest >>= (λ (c', cbv). some (some cbv))
      else elim (traints (split b' ' constraint)) [
        | none ↦ some none
        | some (op, ver) ↦ some (first_passing op ver (listed.1))
      ]

  -- `latestMultiConstraint`; constraints that are nil give the latest version.
  unfoldable pub latest_multi_constraint :
      {C : Type 0}
      → (C → Text → Bool)
      → Cookbook
      → Option (List C)
      → Option (Option CookbookVersion)
  unfolding sorted_versions latest_version multi_loop
  latest_multi_constraint check c none = latest_version c >>= (λ (c', cbv). some (some cbv))
  latest_multi_constraint check c (some constraints) =
      let listed = sorted_versions c in some (multi_loop check constraints (listed.1))

  -- `badConstraints`, the constraints as they print.
  unfoldable pub bad_constraints :
      {C : Type 0} → (C → Text → Bool) → (C → Text) → Cookbook → Option (List C) → List Text
  unfolding sorted_versions
  bad_constraints check print c none = []
  bad_constraints check print c (some constraints) =
      let listed = sorted_versions c in
      map print (filter (λ cs. not (all (λ cver. check cs cver.version) (listed.1))) constraints)

  -- `GetVersion`, where a panic is `none`. The version found is changed in the map.
  unfoldable pub fill_recipes : CookbookVersion → CookbookVersion
  fill_recipes cbv = elim cbv.recipes [ none ↦ record cbv { recipes = some [] } | some rs ↦ cbv ]

  unfoldable pub get_version : Cookbook → Text → Option (Cookbook × Result CookbookVersion)
  unfolding latest_version fill_recipes
  get_version c cb_version =
      let latest = latest_version c in
      if cb_version == codes "_latest"
      then latest >>= (λ (c', cbv). some (c', ok cbv))
      else elim (lookup cb_version c.versions) [
        | none ↦ some (
          c,
          err (record {
            message =
                codes "Cannot find a cookbook named "
                ++ (c.name ++ (codes " with version " ++ cb_version));
            status = 404;
          }),
        )
        | some cbv ↦
            let cbv' = fill_recipes (chk_nil_array cbv) in
            some (record c { versions = insert cb_version cbv' c.versions }, ok cbv')
      ]

  -- `DoesVersionExist`.
  unfoldable pub does_version_exist : Cookbook → Text → Option (Result Bool)
  unfolding get_version
  does_version_exist c cb_version = do
    (c', res) ← get_version c cb_version
    some (elim res [ err e ↦ err e | ok cbv ↦ ok true ])
