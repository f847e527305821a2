-- ===== src/Tests/Cookbooks.antt =====
-- Tests of cookbook/: the order of versions and the choice among them, on a cookbook with three.
use goiardi.Base.{
  ℕ, ◌<◌, ◌≡◌, refl, false, Option, none, some, List, [], ◌∷◌, ◌++◌, nat_eq, list_eq, filter, arith,
}
use goiardi.Base.Text.{Text, codes}
use goiardi.Base.Decimal.{format_int, to_digits}
use goiardi.Base.Dict.{keys}
use goiardi.Datastore.NilArrays.{chk_nil_array, string, Members, member, none_left}
use goiardi.Objects.{Cookbook, CookbookVersion}
use goiardi.Cookbook.Versioning.{version_less, ver_constraint_check}
use goiardi.Cookbook.Versioning.Canonical.{Version, IsVersion, print_version, ver_ltb}
use goiardi.Cookbook.Versioning.Order.{version_less-print_version}
use goiardi.Cookbook.Versioning.Constraints.{
  below, at_least, pessimistic, print_op, Judges, ver_constraint_check_lem,
}
use goiardi.Cookbook.Versions.{
  sorted_versions, chk_versions, latest_constrained, info_hash_base, num_versions,
}
use goiardi.Cookbook.Versions.Best.{IsBest}
use goiardi.Cookbook.Versions.Choice.{limit, passes}
use goiardi.Cookbook.Versions.Printed.{print_constraint}
use goiardi.Cookbook.Versions.Latest.{IsCanonical, latest_constrained_lem, info_hash_base_lem}
use goiardi.Tests.{no_fields}

abbrev version_of : ℕ → ℕ → Option ℕ → Version
version_of a b c = record { major = a; minor = b; patch = c }

is_version : (a b c : ℕ) → a < 100 → b < 100 → c < 100 → IsVersion (version_of a b (some c))
is_version a b c h k l = record {
  major_fits = omega arith;
  minor_fits = omega arith;
  patch_fits = omega arith;
}

is_short-IsVersion : (a b : ℕ) → a < 100 → b < 100 → IsVersion (version_of a b none)
is_short-IsVersion a b h k = record {
  major_fits = omega arith;
  minor_fits = omega arith;
  patch_fits = tt;
}

version_less-print_version_example :
    version_less
      (print_version (version_of 1 9 (some 0)))
      (print_version (version_of 1 10 (some 0)))
    ≡ ver_ltb (version_of 1 9 (some 0)) (version_of 1 10 (some 0))
version_less-print_version_example =
    version_less-print_version (version_of 1 9 (some 0)) (version_of 1 10 (some 0))
      (is_version 1 9 0 (omega arith) (omega arith) (omega arith))
      (is_version 1 10 0 (omega arith) (omega arith) (omega arith))

ver_constraint_check_lem_example :
    Judges pessimistic (version_of 1 9 (some 0)) (version_of 1 2 none) (
      ver_constraint_check
        (print_version (version_of 1 9 (some 0)))
        (print_version (version_of 1 2 none))
        (print_op pessimistic))
ver_constraint_check_lem_example =
    ver_constraint_check_lem pessimistic (version_of 1 9 (some 0)) (version_of 1 2 none)
      (is_version 1 9 0 (omega arith) (omega arith) (omega arith))
      (is_short-IsVersion 1 2 (omega arith) (omega arith))
      (is_short-IsVersion 2 0 (omega arith) (omega arith))

-- One file, or none.
abbrev pub with_files : Text → List Members → CookbookVersion
with_files version files = record {
  cookbook_name = codes "apt";
  name = codes "apt-" ++ version;
  version = version;
  chef_type = codes "cookbook_version";
  json_class = codes "Chef::CookbookVersion";
  definitions = none;
  libraries = none;
  attributes = none;
  recipes = some files;
  providers = none;
  resources = none;
  templates = none;
  root_files = none;
  files = none;
  is_frozen = false;
  metadata = none_left;
}

abbrev pub file_named : Text → Members
file_named h = member (codes "checksum") (string h) none_left

abbrev pub apt : Cookbook
apt = record {
  name = codes "apt";
  versions =
      (codes "1.2.0", with_files (codes "1.2.0") (file_named (codes "x") ∷ []))
      ∷ (codes "1.10.0", with_files (codes "1.10.0") (file_named (codes "y") ∷ []))
      ∷ (codes "2.0.0", with_files (codes "2.0.0") [])
      ∷ [];
  latest = none;
}

apt-IsCanonical : IsCanonical apt
unfolding chk_versions chk_nil_array format_int to_digits
apt-IsCanonical = (
  (
    (version_of 1 2 (some 0), is_version 1 2 0 (omega arith) (omega arith) (omega arith), refl),
    refl,
  ),
  (
    (
      (version_of 1 10 (some 0), is_version 1 10 0 (omega arith) (omega arith) (omega arith), refl),
      refl,
    ),
    (
      (
        (version_of 2 0 (some 0), is_version 2 0 0 (omega arith) (omega arith) (omega arith), refl),
        refl,
      ),
      tt,
    ),
  ),
)

latest_constrained_lem_example :
    (o : Option CookbookVersion) × (latest_constrained apt
        (print_constraint below (version_of 2 0 (some 0)))
      ≡ some o)
    × IsBest below (version_of 2 0 (some 0)) (keys apt.versions) o
latest_constrained_lem_example =
    latest_constrained_lem apt below (version_of 2 0 (some 0)) apt-IsCanonical
      (is_version 2 0 0 (omega arith) (omega arith) (omega arith))
      (is_short-IsVersion 2 1 (omega arith) (omega arith))

info_hash_base_lem_example :
    info_hash_base apt (codes "1") (print_constraint at_least (version_of 1 2 none))
    ≡ some (
        limit
          (num_versions (codes "1"))
          0
          (filter (passes at_least (version_of 1 2 none)) (sorted_versions apt).1))
info_hash_base_lem_example =
    info_hash_base_lem apt (codes "1") at_least (version_of 1 2 none) apt-IsCanonical
      (is_short-IsVersion 1 2 (omega arith) (omega arith))
      (is_short-IsVersion 2 0 (omega arith) (omega arith))
