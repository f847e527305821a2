-- ===== src/Cookbook/Versions/Latest.antt =====
-- cookbook/cookbook.go: the methods that choose a version, on a cookbook whose versions are printed.
use goiardi.Base.{
  ◌≡◌, refl, ap, sym, ◌∙◌, subst, Bool, true, false, not, ◌&&◌, Option, none, some, List, [], ◌∷◌,
  ◌==◌, nat_eq, list_eq, if◌then◌else◌, arith, contains, All, filter,
}
use goiardi.Base.Text.{Text, codes}
use goiardi.Base.Dict.{Dict, keys}
use goiardi.Base.Decimal.{atoi, atoi-lt}
use goiardi.Base.Sort.{sort, IsSorted, sort-IsSorted-on, sort-All, contains-sort}
use goiardi.Datastore.NilArrays.{Reflect}
use goiardi.Objects.{Cookbook, CookbookVersion}
use goiardi.Cookbook.Versioning.Canonical.{Version, IsVersion, print_version}
use goiardi.Cookbook.Versioning.Constraints.{Op, print_op, ceiling}
use goiardi.Cookbook.Versions.{
  version_greater, chk_versions, sorted_versions, num_versions, info_hash_base, latest_constrained,
  first_passing, traints,
}
use goiardi.Cookbook.Versions.Best.{IsBest, first_passing-IsBest}
use goiardi.Cookbook.Versions.Choice.{
  Within, IsPrinted, versions_of, passes, limit, ver_loop-filter,
}
use goiardi.Cookbook.Versions.Printed.{
  greater-asymm, greater-nless_trans, print_constraint, split-print_constraint,
  print_constraint-nonempty, IsFiledDict, pick-versions, All-from,
}

num_versions-Within : (t : Text) → Within (num_versions t) 0
unfolding num_versions
num_versions-Within t = by_tests (t == []) (t == codes "all")
  where
    by_tests :
        (a b : Bool)
        → Within (if not a && not b then some (atoi t) else if a then some 1 else none) 0
    by_tests true b = (omega arith, omega arith)
    by_tests false true = tt
    by_tests false false = (atoi-lt t, omega arith)

module _ ⦃r : Reflect CookbookVersion⦄ where
  keys-chk_versions : (d : Dict Text CookbookVersion) → keys (chk_versions d) ≡ keys d
  unfolding chk_versions
  keys-chk_versions [] = refl
  keys-chk_versions ((k, cbv) ∷ d) = ap (◌∷◌ k) (keys-chk_versions d)

  -- Every version stands under its own printed form, also after `ChkNilArray`.
  abbrev pub IsCanonical : Cookbook → Type 0
  IsCanonical c = IsFiledDict (chk_versions c.versions)

  -- What `sortedVersions` lists.
  pub sorted_versions-lem :
      (c : Cookbook)
      → IsCanonical c
      → (versions_of (sorted_versions c).1 ≡ sort version_greater (keys c.versions))
        × All IsPrinted (versions_of (sorted_versions c).1)
        × IsSorted version_greater (versions_of (sorted_versions c).1)
  unfolding sorted_versions
  sorted_versions-lem c h =
      let d = chk_versions c.versions in
      let named : All (λ k. contains (keys d) k ≡ true) (sort version_greater (keys d)) =
        sort-All version_greater _ (keys d) (All-from _ (keys d) (λ a e. e)) in
      let (same, printed) = pick-versions d (sort version_greater (keys d)) h named in
      let (_, ps) = pick-versions d (keys d) h (All-from _ (keys d) (λ a e. e)) in
      (
        same ∙ ap (sort version_greater) (keys-chk_versions c.versions),
        subst (All IsPrinted) (sym same) printed,
        subst (IsSorted version_greater) (sym same) (
            sort-IsSorted-on version_greater IsPrinted greater-asymm greater-nless_trans (keys d)
              ps),
      )

  pub contains-listed :
      (c : Cookbook)
      → IsCanonical c
      → (k : Text) → contains (versions_of (sorted_versions c).1) k ≡ contains (keys c.versions) k
  contains-listed c h k =
      ap (λ l. contains l k) (sorted_versions-lem c h).0
      ∙ contains-sort version_greater (keys c.versions) k

  -- On a cookbook whose versions stand under their own printed forms, `LatestConstrained` with an
  -- operator and a printed version, whose numbers leave room for one more, returns. The result is
  -- a version of the cookbook that satisfies the constraint and that none that does is above; it is
  -- nil only if no version satisfies the constraint.
  pub latest_constrained_lem :
      (c : Cookbook) (op : Op) (w : Version)
      → IsCanonical c
      → (hw : IsVersion w) → (hc : IsVersion (ceiling w))
      → (o : Option CookbookVersion) × (latest_constrained c (print_constraint op w) ≡ some o)
        × IsBest op w (keys c.versions) o
  unfolding latest_constrained traints IsBest
  latest_constrained_lem c op w h hw hc =
      let (_, printed, sorted) = sorted_versions-lem c h in
      let listed = (sorted_versions c).1 in
      let o = first_passing (print_op op) (print_version w) listed in
      (
        o,
        rw (print_constraint-nonempty op w, split-print_constraint op w hw) refl,
        same_names (versions_of listed) (keys c.versions) o (contains-listed c h)
            (first_passing-IsBest op w hw hc listed printed sorted),
      )
    where
      same_names :
          (ks js : List Text) (o : Option CookbookVersion)
          → ((k : Text) → contains ks k ≡ contains js k)
          → IsBest op w ks o
          → IsBest op w js o
      same_names ks js none e b = λ u hu k. b u hu (e (print_version u) ∙ k)
      same_names ks js (some cv) e (v, hv, ev, k, m, highest) = (
        v,
        hv,
        ev,
        sym (e (print_version v)) ∙ k,
        m,
        λ u hu ku mu. highest u hu (e (print_version u) ∙ ku) mu,
      )

  -- On a cookbook whose versions stand under their own printed forms, `infoHashBase` with an
  -- operator and a printed version, whose numbers leave room for one more, lists the first of the
  -- versions in descending order that pass the constraint, as many as the number asks for, or all.
  -- So nothing is lost where the loop ends early at a "break".
  pub info_hash_base_lem :
      (c : Cookbook) (num_results : Text) (op : Op) (w : Version)
      → IsCanonical c
      → IsVersion w
      → IsVersion (ceiling w)
      → info_hash_base c num_results (print_constraint op w)
        ≡ some (limit (num_versions num_results) 0 (filter (passes op w) (sorted_versions c).1))
  unfolding info_hash_base traints
  info_hash_base_lem c num_results op w h hw hc =
      let (_, printed, sorted) = sorted_versions-lem c h in
      rw (print_constraint-nonempty op w, split-print_constraint op w hw)
        (ap some (
          ver_loop-filter op w hw hc (num_versions num_results) 0 (sorted_versions c).1
            (num_versions-Within num_results) printed sorted))
