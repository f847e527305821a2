-- ===== src/Cookbook/Versioning/Canonical.antt =====
-- Versions as numbers, x.y or x.y.z, and their printed form with no leading zeros. On printed
-- versions `versionLess` of cookbook/versioning.go is the lexicographic order.
use goiardi.Base.{
  ℕ, ◌<◌, ◌≡◌, refl, ap, ◌∙◌, Bool, true, false, Option, none, some, List, [], ◌∷◌, ◌++◌, nat_eq,
  list_eq, nat_beq, ltb, if◌then◌else◌, contains,
}
use mathlib.Core.List.{append-nil}
use goiardi.Base.Text.{Text, codes}
use goiardi.Base.Int.{int_bound}
use goiardi.Base.Split.{split, split-lacks, split-append}
use goiardi.Base.Decimal.{format_int, contains-format_int}

pub record Version : Type 0 where
  pub major : ℕ
  pub minor : ℕ
  pub patch : Option ℕ

-- Each number is an `int`.
abbrev pub Fits : Option ℕ → Type 0
Fits none = Unit
Fits (some n) = n < int_bound

pub record IsVersion (v : Version) : Type 0 where
  pub major_fits : v.major < int_bound
  pub minor_fits : v.minor < int_bound
  pub patch_fits : Fits v.patch

abbrev pub print_patch : Option ℕ → Text
print_patch none = []
print_patch (some n) = codes "." ++ format_int n

abbrev pub print_version : Version → Text
print_version v = format_int v.major ++ b'.' ∷ (format_int v.minor ++ print_patch v.patch)

abbrev pub patch_parts : Option ℕ → List Text
patch_parts none = []
patch_parts (some n) = format_int n ∷ []

-- `strings.Split` takes a printed version apart.
pub split-print_version :
    (v : Version)
    → IsVersion v
    → split b'.' (print_version v) ≡ format_int v.major ∷ format_int v.minor ∷ patch_parts v.patch
split-print_version v h =
    split-append b'.' (format_int v.major) _ (contains-format_int v.major b'.' h.major_fits refl)
    ∙ ap (◌∷◌ (format_int v.major)) (minor_part v.patch h.patch_fits)
  where
    lacks : contains (format_int v.minor) b'.' ≡ false
    lacks = contains-format_int v.minor b'.' h.minor_fits refl

    minor_part :
        (p : Option ℕ)
        → Fits p
        → split b'.' (format_int v.minor ++ print_patch p) ≡ format_int v.minor ∷ patch_parts p
    minor_part none k = rw append-nil (split-lacks b'.' (format_int v.minor) lacks)
    minor_part (some n) k =
        split-append b'.' (format_int v.minor) (format_int n) lacks
        ∙ ap (◌∷◌ (format_int v.minor))
            (split-lacks b'.' (format_int n) (contains-format_int n b'.' k refl))

-- Absent comes before present.
abbrev pub patch_ltb : Option ℕ → Option ℕ → Bool
patch_ltb none none = false
patch_ltb none (some n) = true
patch_ltb (some m) none = false
patch_ltb (some m) (some n) = ltb m n

-- The lexicographic order.
unfoldable pub ver_ltb : Version → Version → Bool
ver_ltb v w =
    if nat_beq v.major w.major
    then (if nat_beq v.minor w.minor then patch_ltb v.patch w.patch else ltb v.minor w.minor)
    else ltb v.major w.major
