-- ===== src/Cookbook/Versioning/Order.antt =====
-- cookbook/versioning.go: `versionLess` on printed versions is a strict total order.
use goiardi.Base.{
  ℕ, ◌<◌, ◌≡◌, ◌≢◌, refl, ap, sym, ◌∙◌, true, false, Option, none, some, List, ◌∷◌, arith, ◌==◌,
  ==_iff, nat_eq, list_eq, nat_beq, ltb, if◌then◌else◌, Bool-cases, inl, inr, get_elem?,
}
use goiardi.Base.Text.{Text}
use goiardi.Base.Int.{int_bound, int_ltb-eq-ltb}
use goiardi.Base.Split.{split}
use goiardi.Base.Decimal.{atoi, format_int, atoi-format_int}
use goiardi.Cookbook.Versioning.{less_loop, version_less}
use goiardi.Cookbook.Versioning.Canonical.{
  Version, IsVersion, Fits, print_version, print_patch, patch_parts, split-print_version, ver_ltb,
  patch_ltb,
}

format_int-inj : (m n : ℕ) → m < int_bound → n < int_bound → format_int m ≡ format_int n → m ≡ n
format_int-inj m n h k e = sym (atoi-format_int m h) ∙ ap atoi e ∙ atoi-format_int n k

-- The number at a place of a list of parts.
abbrev num_at : ℕ → List Text → Option ℕ
num_at i parts = elim (get_elem? parts i) [ none ↦ none | some t ↦ some (atoi t) ]

patch-num : (a b : Text) (p : Option ℕ) → Fits p → num_at 2 (a ∷ b ∷ patch_parts p) ≡ p
patch-num a b none h = refl
patch-num a b (some n) h = ap some (atoi-format_int n h)

pub print_version-inj :
    (v w : Version)
    → IsVersion v
    → IsVersion w
    → print_version v ≡ print_version w
    → (v.major ≡ w.major) × (v.minor ≡ w.minor) × (v.patch ≡ w.patch)
print_version-inj v w h k e =
    let parts = sym (split-print_version v h) ∙ ap (split b'.') e ∙ split-print_version w k in
    let first = ap (num_at 0) parts in
    let second = ap (num_at 1) parts in
    let third = ap (num_at 2) parts in
    (
      ground (
        arith,
        first,
        atoi-format_int v.major h.major_fits,
        atoi-format_int w.major k.major_fits,
      ),
      ground (
        arith,
        second,
        atoi-format_int v.minor h.minor_fits,
        atoi-format_int w.minor k.minor_fits,
      ),
      sym (patch-num (format_int v.major) (format_int v.minor) v.patch h.patch_fits)
          ∙ third
          ∙ patch-num (format_int w.major) (format_int w.minor) w.patch k.patch_fits,
    )

ver_ltb_irrefl :
    (v w : Version)
    → v.major ≡ w.major
    → v.minor ≡ w.minor
    → v.patch ≡ w.patch
    → ver_ltb v w ≡ false
unfolding ver_ltb
ver_ltb_irrefl v w h k p = rw p (same w.patch)
  where
    same :
        (p : Option ℕ)
        → (if nat_beq v.major w.major
            then (if nat_beq v.minor w.minor then patch_ltb p p else ltb v.minor w.minor)
            else ltb v.major w.major)
          ≡ false
    same none = ground arith
    same (some n) = ground arith

pub print_version-ver_ltb :
    (v w : Version)
    → IsVersion v
    → IsVersion w
    → print_version v ≡ print_version w
    → ver_ltb v w ≡ false
print_version-ver_ltb v w h k e =
    let (a, b, c) = print_version-inj v w h k e in ver_ltb_irrefl v w a b c

less_loop-patch :
    (p r : Option ℕ)
    → Fits p
    → Fits r
    → print_patch p ≢ print_patch r
    → less_loop 1 (patch_parts p) (patch_parts r) ≡ patch_ltb p r
unfolding less_loop
less_loop-patch none none h k ne = absurd (ne refl)
less_loop-patch none (some n) h k ne = refl
less_loop-patch (some m) none h k ne = refl
less_loop-patch (some m) (some n) h k ne =
    rw (atoi-format_int m h, atoi-format_int n k, int_ltb-eq-ltb m n h k) (ground arith)

less_loop-parts :
    (v w : Version)
    → IsVersion v
    → IsVersion w
    → print_version v ≢ print_version w
    → less_loop 3
        (format_int v.major ∷ format_int v.minor ∷ patch_parts v.patch)
        (format_int w.major ∷ format_int w.minor ∷ patch_parts w.patch)
      ≡ ver_ltb v w
unfolding less_loop ver_ltb
less_loop-parts v w h k ne =
    rw
      (
        atoi-format_int v.major h.major_fits,
        atoi-format_int w.major k.major_fits,
        atoi-format_int v.minor h.minor_fits,
        atoi-format_int w.minor k.minor_fits,
        int_ltb-eq-ltb v.major w.major h.major_fits k.major_fits,
        int_ltb-eq-ltb v.minor w.minor h.minor_fits k.minor_fits,
      )
      (ground (arith, last))
  where
    last :
        v.major ≡ w.major
        → v.minor ≡ w.minor
        → less_loop 1 (patch_parts v.patch) (patch_parts w.patch) ≡ patch_ltb v.patch w.patch
    last a b =
        less_loop-patch v.patch w.patch h.patch_fits k.patch_fits (λ e. ne (rw (a, b, e) refl))

-- On the printed forms of versions whose numbers fit an `int`, `versionLess` compares the numbers
-- in order, and x.y comes before x.y.z.
pub version_less-print_version :
    (v w : Version)
    → IsVersion v
    → IsVersion w
    → version_less (print_version v) (print_version w) ≡ ver_ltb v w
unfolding version_less
version_less-print_version v w h k = elim (Bool-cases (print_version v == print_version w)) [
  | inl same ↦
      let (a, b, c) =
        print_version-inj v w h k ((==_iff (print_version v) (print_version w)).0 same) in
      rw same (sym (ver_ltb_irrefl v w a b c))
  | inr differ ↦
      rw (differ, split-print_version v h, split-print_version w k)
        (less_loop-parts v w h k
          (λ e. ground (arith, (==_iff (print_version v) (print_version w)).1 e)))
]

pub ver_ltb-asymm : (v w : Version) → ver_ltb v w ≡ true → ver_ltb w v ≡ false
unfolding ver_ltb
ver_ltb-asymm v w h = ground (arith, patch v.patch w.patch)
  where
    patch : (p r : Option ℕ) → patch_ltb p r ≡ true → patch_ltb r p ≡ false
    patch none none h = refl
    patch none (some n) h = refl
    patch (some m) none h = ground arith
    patch (some m) (some n) h = ground arith

pub ver_ltb-nless_trans :
    (u v w : Version) → ver_ltb v u ≡ false → ver_ltb w v ≡ false → ver_ltb w u ≡ false
unfolding ver_ltb
ver_ltb-nless_trans u v w h k = ground (arith, patch u.patch v.patch w.patch)
  where
    patch :
        (p r s : Option ℕ) → patch_ltb r p ≡ false → patch_ltb s r ≡ false → patch_ltb s p ≡ false
    patch none none s h k = k
    patch none (some n) none h k = refl
    patch none (some n) (some o) h k = ground arith
    patch (some m) none s h k = ground arith
    patch (some m) (some n) none h k = ground arith
    patch (some m) (some n) (some o) h k = ground arith

pub ver_ltb-connected :
    (v w : Version) → ver_ltb v w ≡ false → ver_ltb w v ≡ false → print_version v ≡ print_version w
unfolding ver_ltb
ver_ltb-connected v w h k = rw (major_eq, minor_eq, patch_eq) refl
  where
    major_eq : v.major ≡ w.major
    major_eq = ground arith

    minor_eq : v.minor ≡ w.minor
    minor_eq = ground arith

    patch : (p r : Option ℕ) → patch_ltb p r ≡ false → patch_ltb r p ≡ false → p ≡ r
    patch none none h k = refl
    patch none (some n) h k = ground arith
    patch (some m) none h k = ground arith
    patch (some m) (some n) h k = ground arith

    patch_eq : v.patch ≡ w.patch
    patch_eq = patch v.patch w.patch (ground arith) (ground arith)
