-- ===== src/Cookbook/Versions/Printed.antt =====
-- cookbook/cookbook.go: `sortedVersions` on entries that stand under their own printed versions.
use goiardi.Base.{
  nat_beq, ℕ, ◌≡◌, refl, ap, sym, ◌∙◌, subst, true, false, Option, none, some, List, [], ◌∷◌, ◌++◌,
  ◌==◌, ==_iff, nat_eq, list_eq, list_beq, arith, contains, contains-append, Bool-cases, inl, inr,
  All,
}
use goiardi.Base.Text.{Text}
use goiardi.Base.Dict.{Dict, keys, lookup}
use goiardi.Base.Decimal.{is_digit, format_int, contains-format_int}
use goiardi.Base.Split.{split, split-append, split-lacks}
use goiardi.Objects.{CookbookVersion}
use goiardi.Cookbook.Versioning.Canonical.{Version, IsVersion, Fits, print_version, print_patch}
use goiardi.Cookbook.Versioning.Order.{
  version_less-print_version, ver_ltb-asymm, ver_ltb-nless_trans,
}
use goiardi.Cookbook.Versioning.Constraints.{
  Op, exactly, above, below, at_least, at_most, pessimistic, print_op,
}
use goiardi.Cookbook.Versions.{version_greater, pick}
use goiardi.Cookbook.Versions.Choice.{IsPrinted, versions_of}

-- An order on printed versions.
pub greater-asymm :
    (a b : Text)
    → IsPrinted a
    → IsPrinted b
    → version_greater a b ≡ true
    → version_greater b a ≡ false
unfolding version_greater
greater-asymm a b (v, hv, ev) (w, hw, ew) h =
    rw (ev, ew)
      (version_less-print_version v w hv hw
        ∙ ver_ltb-asymm w v (sym (version_less-print_version w v hw hv) ∙ rw (ev, ew) at h))

pub greater-nless_trans :
    (a b c : Text)
    → IsPrinted a
    → IsPrinted b
    → IsPrinted c
    → version_greater b a ≡ false
    → version_greater c b ≡ false
    → version_greater c a ≡ false
unfolding version_greater
greater-nless_trans a b c (u, hu, eu) (v, hv, ev) (w, hw, ew) h k =
    rw (eu, ew)
      (version_less-print_version u w hu hw
        ∙ ver_ltb-nless_trans w v u (sym (version_less-print_version v w hv hw) ∙ rw (ev, ew) at k)
            (sym (version_less-print_version u v hu hv) ∙ rw (eu, ev) at h))

-- A printed version holds digits and full stops only.
pub contains-print_version :
    (v : Version) (x : ℕ)
    → IsVersion v
    → is_digit x ≡ false
    → nat_beq b'.' x ≡ false
    → contains (print_version v) x ≡ false
contains-print_version v x h d e =
    contains-append (format_int v.major) (b'.' ∷ (format_int v.minor ++ print_patch v.patch)) x
    ∙ ground (
      arith,
      contains-format_int v.major x h.major_fits d,
      contains-append (format_int v.minor) (print_patch v.patch) x,
      contains-format_int v.minor x h.minor_fits d,
      by_patch v.patch h.patch_fits,
    )
  where
    by_patch : (p : Option ℕ) → Fits p → contains (print_patch p) x ≡ false
    by_patch none k = refl
    by_patch (some n) k = ground (arith, contains-format_int n x k d)

-- A constraint as text.
abbrev pub print_constraint : Op → Version → Text
print_constraint op w = print_op op ++ b' ' ∷ print_version w

pub split-print_constraint :
    (op : Op) (w : Version)
    → IsVersion w
    → split b' ' (print_constraint op w) ≡ print_op op ∷ print_version w ∷ []
split-print_constraint op w h =
    split-append b' ' (print_op op) (print_version w) (lacks op)
    ∙ ap (◌∷◌ (print_op op))
        (split-lacks b' ' (print_version w) (contains-print_version w b' ' h refl refl))
  where
    lacks : (op : Op) → contains (print_op op) b' ' ≡ false
    lacks exactly = refl
    lacks above = refl
    lacks below = refl
    lacks at_least = refl
    lacks at_most = refl
    lacks pessimistic = refl

pub print_constraint-nonempty : (op : Op) (w : Version) → (print_constraint op w == []) ≡ false
unfolding list_eq list_beq
print_constraint-nonempty exactly w = refl
print_constraint-nonempty above w = refl
print_constraint-nonempty below w = refl
print_constraint-nonempty at_least w = refl
print_constraint-nonempty at_most w = refl
print_constraint-nonempty pessimistic w = refl

-- Each entry is under its own version.
abbrev pub IsFiledDict : Dict Text CookbookVersion → Type 0
IsFiledDict = All (λ (k, cbv). IsPrinted k × (cbv.version ≡ k))

pub lookup-IsFiledDict :
    (d : Dict Text CookbookVersion) (k : Text)
    → IsFiledDict d
    → contains (keys d) k ≡ true
    → (cbv : CookbookVersion) × (lookup k d ≡ some cbv) × IsPrinted k × (cbv.version ≡ k)
unfolding lookup
lookup-IsFiledDict [] k h c = absurd (ground (arith, c))
lookup-IsFiledDict ((j, cbv) ∷ d) k h c = elim (Bool-cases (j == k)) [
  | inl same ↦
      let e = (==_iff j k).0 same in (cbv, rw same refl, subst IsPrinted e h.0.0, h.0.1 ∙ e)
  | inr differ ↦
      let (cbv', l, p, e) = lookup-IsFiledDict d k h.1 (ground arith) in (cbv', rw differ l, p, e)
]

pub pick-versions :
    (d : Dict Text CookbookVersion) (ks : List Text)
    → IsFiledDict d
    → All (λ k. contains (keys d) k ≡ true) ks
    → (versions_of (pick d ks) ≡ ks) × All IsPrinted ks
unfolding pick
pick-versions d [] h a = (refl, tt)
pick-versions d (k ∷ ks) h a =
    let (cbv, l, p, e) = lookup-IsFiledDict d k h a.0 in
    let (rest, ps) = pick-versions d ks h a.1 in
    (rw (l, pick) (ap (◌∷◌ cbv.version) rest ∙ ap (λ x. x ∷ ks) e), (p, ps))

pub All-from :
    (P : Text → Type 0) (xs : List Text) → ((a : Text) → contains xs a ≡ true → P a) → All P xs
All-from P [] f = tt
All-from P (x ∷ xs) f =
    (f x (ground (arith, ==_iff x x)), All-from P xs (λ a c. f a (ground (arith, c))))
