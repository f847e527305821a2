-- ===== src/Cookbook/Versioning.antt =====
-- cookbook/versioning.go: the order of version strings, and version constraints.
pub mod Canonical
pub mod Order
pub mod Constraints
pub mod Numbers
use goiardi.Base.{
  ℕ, zero, suc, Bool, true, false, not, ◌&&◌, ◌||◌, Option, none, some, List, [], ◌∷◌, ◌++◌, ◌==◌,
  nat_eq, list_eq, nat_beq, if◌then◌else◌,
}
use goiardi.Base.Text.{Text, codes, join}
use goiardi.Base.Int.{int_ltb, int_suc}
use goiardi.Base.Split.{split}
use goiardi.Base.Decimal.{atoi, format_int}

-- `splitConstraint`: the operator and the version, or an error.
unfoldable pub split_constraint : Text → Option (Text × Text)
unfolding split
split_constraint constraint = two_parts (split b' ' constraint)
  where
    two_parts : List Text → Option (Text × Text)
    two_parts (op ∷ ver ∷ []) = some (op, ver)
    two_parts _ = none

-- The loop of `versionLess`; the first argument is how many rounds are left.
unfoldable pub less_loop : ℕ → List Text → List Text → Bool
less_loop zero i_ver j_ver = false
less_loop (suc q) [] j_ver = true
less_loop (suc q) (ic ∷ i_ver) [] = false
less_loop (suc q) (ic ∷ i_ver) (jc ∷ j_ver) =
    let rest = less_loop q i_ver j_ver in
    if not (nat_beq (atoi ic) (atoi jc)) then int_ltb (atoi ic) (atoi jc) else rest

-- `versionLess`.
unfoldable pub version_less : Text → Text → Bool
unfolding less_loop
version_less ver_a ver_b =
    if ver_a == ver_b then false else less_loop 3 (split b'.' ver_a) (split b'.' ver_b)

-- The string that `verConstraintCheck` returns.
pub data Action : Type 0 where
  pass skip stop invalid : Action

-- The version that a pessimistic constraint stays below, from the parts of its version.
unfoldable pub upper_bound : List Text → Text
upper_bound (major ∷ minor ∷ patch ∷ []) = major ++ (codes "." ++ format_int (int_suc (atoi minor)))
upper_bound (major ∷ parts) = format_int (int_suc (atoi major)) ++ codes ".0"
upper_bound [] = []

-- `verConstraintCheck`; "ok" is `pass` and "break" is `stop`.
unfoldable pub ver_constraint_check : Text → Text → Text → Action
unfolding upper_bound
ver_constraint_check ver_a ver_b op =
    if op == codes "="
    then (if ver_a == ver_b then pass else if version_less ver_a ver_b then stop else skip)
    else if op == codes ">"
    then (if (ver_a == ver_b) || version_less ver_a ver_b then stop else pass)
    else if op == codes "<"
    then (if (ver_a == ver_b) || not (version_less ver_a ver_b) then skip else pass)
    else if op == codes ">="
    then (if not (version_less ver_a ver_b) then pass else stop)
    else if op == codes "<="
    then (if (ver_a == ver_b) || version_less ver_a ver_b then pass else skip)
    else if op == codes "~>"
    then (if version_less ver_a ver_b
        then stop
        else if not (version_less ver_a ver_b)
            && version_less ver_a (upper_bound (split b'.' ver_b))
        then pass
        else skip)
    else invalid
