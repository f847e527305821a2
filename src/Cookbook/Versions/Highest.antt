-- ===== src/Cookbook/Versions/Highest.antt =====
-- cookbook/cookbook.go: the version that `UpdateLatestVersion` remembers.
use goiardi.Base.{
  ◌≡◌, refl, sym, ◌∙◌, true, false, none, some, List, [], ◌∷◌, ◌>>=◌, ◌==◌, nat_eq, list_eq, arith,
  contains, All, Bool-cases, ==_iff, subst, inl, inr,
}
use goiardi.Base.Text.{Text}
use goiardi.Base.Dict.{keys}
use goiardi.Base.Sort.{IsSorted}
use goiardi.Datastore.NilArrays.{Reflect, chk_nil_array}
use goiardi.Objects.{Cookbook, CookbookVersion}
use goiardi.Cookbook.Versioning.{version_less}
use goiardi.Cookbook.Versions.{
  version_greater, chk_versions, sorted_versions, remember, latest_version, update_latest_version,
}
use goiardi.Cookbook.Versions.Choice.{IsPrinted, versions_of, All-contains}
use goiardi.Cookbook.Versions.Latest.{IsCanonical, sorted_versions-lem, contains-listed}
use goiardi.Cookbook.Versions.Printed.{greater-asymm}

-- A version among the names that none of them is above.
pub record IsHighest (ks : List Text) (k : Text) : Type 0 where
  pub listed : contains ks k ≡ true
  pub highest : (j : Text) → contains ks j ≡ true → version_less k j ≡ false

version_less_self : (k : Text) → IsPrinted k → version_less k k ≡ false
unfolding version_greater
version_less_self k p = elim (Bool-cases (version_less k k)) [
  | inl less ↦ greater-asymm k k p p less
  | inr not_less ↦ not_less
]

first-IsHighest :
    (k : Text) (ks : List Text)
    → IsPrinted k
    → IsSorted version_greater (k ∷ ks)
    → IsHighest (k ∷ ks) k
unfolding version_greater
first-IsHighest k ks p (least, s) = record {
  listed = ground (arith, ==_iff k k);
  highest = λ j m. elim (Bool-cases (k == j)) [
    | inl same ↦ subst (λ i. version_less k i ≡ false) ((==_iff k j).0 same) (version_less_self k p)
    | inr other ↦
        All-contains (λ y. version_greater y k ≡ false) ks j least (ground (arith, m, other))
  ];
}

module _ ⦃r : Reflect CookbookVersion⦄ where
  -- On a cookbook with a version, whose versions stand under their own printed forms,
  -- `UpdateLatestVersion` returns, and the latest version is then one of the cookbook's that none
  -- of them is above, whatever was remembered before.
  pub update_latest_version_lem :
      (c : Cookbook) (n : Text)
      → IsCanonical c
      → contains (keys c.versions) n ≡ true
      → (c' : Cookbook) × (v : CookbookVersion) × (update_latest_version c ≡ some c')
        × (c'.latest ≡ some (chk_nil_array v))
        × IsHighest (keys c.versions) v.version
  unfolding update_latest_version latest_version sorted_versions remember
  update_latest_version_lem c n h m =
      let (_, printed, sorted) = sorted_versions-lem c h in
      chosen (record c { versions = chk_versions c.versions; latest = none }) (keys c.versions)
        (sorted_versions c).1 (contains-listed c h) printed sorted m
    where
      chosen :
          (c0 : Cookbook) (ks : List Text) (l : List CookbookVersion)
          → ((k : Text) → contains (versions_of l) k ≡ contains ks k)
          → All IsPrinted (versions_of l)
          → IsSorted version_greater (versions_of l)
          → contains ks n ≡ true
          → (c' : Cookbook) × (v : CookbookVersion) × ((do (c1, cbv) ← remember c0 l; some c1)
              ≡ some c')
            × (c'.latest ≡ some (chk_nil_array v))
            × IsHighest ks v.version
      chosen c0 ks [] e p s m = absurd (ground (arith, e n, m))
      chosen c0 ks (v ∷ l) e p s m =
          let best = first-IsHighest v.version (versions_of l) p.0 s in
          (
            record c0 { latest = some (chk_nil_array v) },
            v,
            refl,
            refl,
            record {
              listed = sym (e v.version) ∙ best.listed;
              highest = λ j k. best.highest j (e j ∙ k);
            },
          )
