-- ===== src/Cookbook/Versioning/Constraints.antt =====
-- cookbook/versioning.go: `verConstraintCheck` on printed versions.
use goiardi.Base.{
  ℕ, ◌+◌, ◌<◌, ◌≡◌, ◌↔◌, refl, ap, sym, Bool, true, false, not, ◌&&◌, Option, none, some, ◌∷◌, ◌++◌,
  arith, ◌==◌, ==_iff, nat_eq, list_eq, if◌then◌else◌, ◌≢◌, list_beq, Bool-cases, inl, inr,
}
use mathlib.Core.List.{append-nil}
use goiardi.Base.Text.{Text, codes}
use goiardi.Base.Int.{int_bound, int_suc-eq-add_one}
use goiardi.Base.Split.{split}
use goiardi.Base.Decimal.{format_int, to_digits, atoi-format_int}
use goiardi.Cookbook.Versioning.{
  version_less, Action, pass, skip, stop, invalid, ver_constraint_check, upper_bound,
}
use goiardi.Cookbook.Versioning.Canonical.{
  Version, IsVersion, print_version, split-print_version, ver_ltb, patch_parts,
}
use goiardi.Cookbook.Versioning.Order.{
  version_less-print_version, print_version-ver_ltb, ver_ltb-asymm, ver_ltb-nless_trans,
  ver_ltb-connected,
}

pub data Op : Type 0 where
  exactly above below at_least at_most pessimistic : Op

abbrev pub print_op : Op → Text
print_op exactly = codes "="
print_op above = codes ">"
print_op below = codes "<"
print_op at_least = codes ">="
print_op at_most = codes "<="
print_op pessimistic = codes "~>"

-- The first version that `~>` rules out: the last part is dropped, the one before it grows by one.
abbrev pub ceiling : Version → Version
ceiling v = above_patch v.patch
  where
    above_patch : Option ℕ → Version
    above_patch none = record { major = v.major + 1; minor = 0; patch = none }
    above_patch (some n) = record { major = v.major; minor = v.minor + 1; patch = none }

-- Whether `v` satisfies `op w`.
unfoldable pub meets : Op → Version → Version → Bool
meets exactly v w = not (ver_ltb v w) && not (ver_ltb w v)
meets above v w = ver_ltb w v
meets below v w = ver_ltb v w
meets at_least v w = not (ver_ltb v w)
meets at_most v w = not (ver_ltb w v)
meets pessimistic v w = not (ver_ltb v w) && ver_ltb v (ceiling w)

upper_bound-parts :
    (a b : ℕ) (p : Option ℕ)
    → a < int_bound
    → b < int_bound
    → upper_bound (format_int a ∷ format_int b ∷ patch_parts p)
      ≡ print_version (ceiling (record { major = a; minor = b; patch = p }))
unfolding upper_bound format_int to_digits
upper_bound-parts a b none h k =
    rw (atoi-format_int a h, int_suc-eq-add_one a h) (ap (λ t. format_int (a + 1) ++ t) refl)
upper_bound-parts a b (some n) h k =
    rw (atoi-format_int b k, int_suc-eq-add_one b k, append-nil (format_int (b + 1))) refl

upper_bound-print_version :
    (w : Version)
    → IsVersion w
    → upper_bound (split b'.' (print_version w)) ≡ print_version (ceiling w)
upper_bound-print_version w h =
    rw (split-print_version w h)
      (upper_bound-parts w.major w.minor w.patch h.major_fits h.minor_fits)

==_print_version :
    (v w : Version)
    → IsVersion v
    → IsVersion w
    → (print_version v == print_version w) ≡ (not (ver_ltb v w) && not (ver_ltb w v))
==_print_version v w h k = elim (Bool-cases (print_version v == print_version w)) [
  | inl same ↦
      let e = (==_iff (print_version v) (print_version w)).0 same in
      rw (same, print_version-ver_ltb v w h k e, print_version-ver_ltb w v k h (sym e)) refl
  | inr differ ↦ ground (arith, ver_ltb-connected v w, ==_iff (print_version v) (print_version w))
]

-- The checks of `verConstraintCheck`, on the numbers.
outcome : Op → Version → Version → Action
outcome exactly v w =
    if not (ver_ltb v w) && not (ver_ltb w v) then pass else if ver_ltb v w then stop else skip
outcome above v w = if ver_ltb w v then pass else stop
outcome below v w = if ver_ltb v w then pass else skip
outcome at_least v w = if ver_ltb v w then stop else pass
outcome at_most v w = if ver_ltb w v then skip else pass
outcome pessimistic v w = if ver_ltb v w then stop else if ver_ltb v (ceiling w) then pass else skip

check-outcome :
    (op : Op) (v w : Version)
    → IsVersion v
    → IsVersion w
    → IsVersion (ceiling w)
    → ver_constraint_check (print_version v) (print_version w) (print_op op) ≡ outcome op v w
unfolding ver_constraint_check outcome list_eq list_beq
check-outcome op v w h k c =
    by_op op (==_print_version v w h k) (version_less-print_version v w h k)
  where
    by_op :
        (op : Op)
        → (print_version v == print_version w) ≡ (not (ver_ltb v w) && not (ver_ltb w v))
        → version_less (print_version v) (print_version w) ≡ ver_ltb v w
        → ver_constraint_check (print_version v) (print_version w) (print_op op) ≡ outcome op v w
    by_op exactly e l = rw (e, l) refl
    by_op above e l = rw (e, l) (ground (arith, ver_ltb-asymm v w, ver_ltb-asymm w v))
    by_op below e l = rw (e, l) (ground (arith, ver_ltb-asymm v w, ver_ltb-asymm w v))
    by_op at_least e l = rw l (ground arith)
    by_op at_most e l = rw (e, l) (ground (arith, ver_ltb-asymm v w, ver_ltb-asymm w v))
    by_op pessimistic e l =
        rw (l, upper_bound-print_version w k, version_less-print_version v (ceiling w) h c)
          (ground arith)

-- What the verdict on one version tells of it and of the versions that are not above it.
pub record Judges (op : Op) (v w : Version) (a : Action) : Type 0 where
  pub passes_iff : (a ≡ pass) ↔ (meets op v w ≡ true)
  pub stop_sound : a ≡ stop → (u : Version) → ver_ltb v u ≡ false → meets op u w ≡ false
  pub valid : a ≢ invalid

-- With one of the six operators and with versions in printed form, where the numbers of the
-- constraint's version leave room for one more, `verConstraintCheck` says "ok" exactly if the
-- version satisfies the constraint. If it says "break", no version up to this one satisfies it. It
-- never says "invalid".
pub ver_constraint_check_lem :
    (op : Op) (v w : Version)
    → IsVersion v
    → IsVersion w
    → IsVersion (ceiling w)
    → Judges op v w (ver_constraint_check (print_version v) (print_version w) (print_op op))
unfolding outcome meets
ver_constraint_check_lem op v w h k c = rw (check-outcome op v w h k c) (judged op)
  where
    judged : (op : Op) → Judges op v w (outcome op v w)
    judged exactly = record {
      passes_iff = ground arith;
      stop_sound = λ e u l. ground (arith, ver_ltb-nless_trans w u v);
      valid = λ e. ground arith;
    }
    judged above = record {
      passes_iff = ground arith;
      stop_sound = λ e u l. ground (arith, ver_ltb-nless_trans w v u, ver_ltb-nless_trans u v w);
      valid = λ e. ground arith;
    }
    judged below = record {
      passes_iff = ground arith;
      stop_sound = λ e u l. ground arith;
      valid = λ e. ground arith;
    }
    judged at_least = record {
      passes_iff = ground arith;
      stop_sound = λ e u l. ground (arith, ver_ltb-nless_trans w u v, ver_ltb-nless_trans u v w);
      valid = λ e. ground arith;
    }
    judged at_most = record {
      passes_iff = ground arith;
      stop_sound = λ e u l. ground arith;
      valid = λ e. ground arith;
    }
    judged pessimistic = record {
      passes_iff = ground arith;
      stop_sound = λ e u l. ground (arith, ver_ltb-nless_trans w u v, ver_ltb-nless_trans u v w);
      valid = λ e. ground arith;
    }
