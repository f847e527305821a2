-- ===== src/Base/Sort.antt =====
-- Go's `sort.Sort` by a `Less` function. The standard library promises an ascending permutation;
-- insertion sort is one, and keeps the order of elements of which neither is less.
use Prim.Native.Nat.{suc}
use mathlib.Core.Path.{◌≡◌, refl, ap, sym, ◌∙◌}
use mathlib.Core.Bool.{Bool, true, false, ◌||◌}
use mathlib.Core.List.{List, [], ◌∷◌, ◌++◌, Perm, reverse, reverse-append}
use mathlib.Core.List.Perm
use native.Mathlib.Omega.{arith}
use goiardi.Base.Tests.{if◌then◌else◌, Bool-cases}
use goiardi.Base.Equality.{Eq, ◌==◌, contains, IsNodup}
use goiardi.Base.Lists.{All, length}
use mathlib.Core.Logic.{inl, inr}

module _ {ℓ} {A : Type ℓ} (less : A → A → Bool) where
  -- `x` goes behind the elements that `x` is not less than.
  insert_sorted : A → List A → List A
  insert_sorted x [] = x ∷ []
  insert_sorted x (y ∷ ys) =
      let rest = insert_sorted x ys in if less x y then x ∷ y ∷ ys else y ∷ rest

  unfoldable pub sort : List A → List A
  unfolding insert_sorted
  sort [] = []
  sort (x ∷ xs) = insert_sorted x (sort xs)

  -- Nothing later is less than `x`.
  abbrev pub IsLeast : A → List A → Type 0
  IsLeast x = All (λ y. less y x ≡ false)

  abbrev pub IsSorted : List A → Type 0
  IsSorted [] = Unit
  IsSorted (x ∷ xs) = IsLeast x xs × IsSorted xs

  insert_sorted-perm : (x : A) (xs : List A) → Perm (insert_sorted x xs) (x ∷ xs)
  unfolding insert_sorted
  insert_sorted-perm x [] = Perm.rfl
  insert_sorted-perm x (y ∷ ys) = elim (Bool-cases (less x y)) [
    | inl lt ↦ rw lt Perm.rfl
    | inr ge ↦ rw ge (Perm.trans (Perm.cons y (insert_sorted-perm x ys)) (Perm.swap x y ys))
  ]

  pub sort-perm : (xs : List A) → Perm (sort xs) xs
  unfolding sort
  sort-perm [] = Perm.rfl
  sort-perm (x ∷ xs) = Perm.trans (insert_sorted-perm x (sort xs)) (Perm.cons x (sort-perm xs))

  length-insert_sorted : (x : A) (xs : List A) → length (insert_sorted x xs) ≡ suc (length xs)
  unfolding insert_sorted
  length-insert_sorted x [] = refl
  length-insert_sorted x (y ∷ ys) = ground (arith, length-insert_sorted x ys)

  pub length-sort : (xs : List A) → length (sort xs) ≡ length xs
  unfolding sort
  length-sort [] = refl
  length-sort (x ∷ xs) = omega (arith, length-insert_sorted x (sort xs), length-sort xs)

  insert_sorted-All {κ} :
      (P : A → Type κ) (x : A) (xs : List A) → P x → All P xs → All P (insert_sorted x xs)
  unfolding insert_sorted
  insert_sorted-All P x [] h k = (h, tt)
  insert_sorted-All P x (y ∷ ys) h k = elim (Bool-cases (less x y)) [
    | inl lt ↦ rw lt (h, k)
    | inr ge ↦ rw ge (k.0, insert_sorted-All P x ys h k.1)
  ]

  pub sort-All {κ} : (P : A → Type κ) (xs : List A) → All P xs → All P (sort xs)
  unfolding sort
  sort-All P [] h = tt
  sort-All P (x ∷ xs) h = insert_sorted-All P x (sort xs) h.0 (sort-All P xs h.1)

  -- Each element is less than the next one.
  abbrev pub IsAscending : List A → Type 0
  IsAscending [] = Unit
  IsAscending (x ∷ []) = Unit
  IsAscending (x ∷ y ∷ ys) = (less x y ≡ true) × IsAscending (y ∷ ys)

  -- Sorting such a list changes nothing.
  pub sort-IsAscending : (xs : List A) → IsAscending xs → sort xs ≡ xs
  unfolding sort insert_sorted
  sort-IsAscending [] h = refl
  sort-IsAscending (x ∷ []) h = refl
  sort-IsAscending (x ∷ y ∷ ys) h =
      ap (insert_sorted x) (sort-IsAscending (y ∷ ys) h.1) ∙ rw h.0 refl

  -- Every element comes after those that it is less than: the opposite of what `sort` makes.
  abbrev pub IsReversed : List A → Type 0
  IsReversed [] = Unit
  IsReversed (x ∷ xs) = All (λ y. less x y ≡ false) xs × IsReversed xs

  insert_sorted-last :
      (x : A) (ys : List A) → All (λ y. less x y ≡ false) ys → insert_sorted x ys ≡ ys ++ x ∷ []
  unfolding insert_sorted
  insert_sorted-last x [] h = refl
  insert_sorted-last x (y ∷ ys) h = ground (arith, insert_sorted-last x ys h.1)

  -- Sorting such a list turns it round.
  pub sort-reverse : (xs : List A) → IsReversed xs → sort xs ≡ reverse xs
  unfolding sort
  sort-reverse [] h = refl
  sort-reverse (x ∷ xs) h =
      insert_sorted-last x (sort xs) (sort-All _ xs h.0)
      ∙ ap (λ l. l ++ x ∷ []) (sort-reverse xs h.1)
      ∙ sym (reverse-append (x ∷ []) xs)

  -- What a strict weak order on the elements that satisfy `P` gives: an ascending result.
  module _ {κ} (P : A → Type κ) (asymm : (a b : A) → P a → P b → less a b ≡ true → less b a ≡ false)
      (nless_trans : (a b c : A)
        → P a
        → P b
        → P c
        → less b a ≡ false
        → less c b ≡ false
        → less c a ≡ false) where
    IsLeast-insert :
        (x y : A) (ys : List A)
        → P x
        → P y
        → less x y ≡ true
        → All P ys
        → IsLeast y ys
        → IsLeast x ys
    IsLeast-insert x y [] p q lt h k = tt
    IsLeast-insert x y (z ∷ ys) p q lt h k =
        (nless_trans x y z p q h.0 (asymm x y p q lt) k.0, IsLeast-insert x y ys p q lt h.1 k.1)

    insert_sorted-IsSorted :
        (x : A) (xs : List A) → P x → All P xs → IsSorted xs → IsSorted (insert_sorted x xs)
    unfolding insert_sorted
    insert_sorted-IsSorted x [] p a h = (tt, tt)
    insert_sorted-IsSorted x (y ∷ ys) p a h = elim (Bool-cases (less x y)) [
      | inl lt ↦ rw lt ((asymm x y p a.0 lt, IsLeast-insert x y ys p a.0 lt a.1 h.0), h)
      | inr ge ↦ rw ge (insert_sorted-All _ x ys ge h.0, insert_sorted-IsSorted x ys p a.1 h.1)
    ]

    pub sort-IsSorted-on : (xs : List A) → All P xs → IsSorted (sort xs)
    unfolding sort
    sort-IsSorted-on [] a = tt
    sort-IsSorted-on (x ∷ xs) a =
        insert_sorted-IsSorted x (sort xs) a.0 (sort-All P xs a.1) (sort-IsSorted-on xs a.1)

  -- The same for an order on all elements.
  module _ (asymm : (a b : A) → less a b ≡ true → less b a ≡ false)
      (nless_trans : (a b c : A) → less b a ≡ false → less c b ≡ false → less c a ≡ false) where
    pub sort-IsSorted : (xs : List A) → IsSorted (sort xs)
    sort-IsSorted xs =
        sort-IsSorted-on (λ a. a ≡ a) (λ a b p q. asymm a b) (λ a b c p q s. nless_trans a b c) xs
          (all_refl xs)
      where
        all_refl : (ys : List A) → All (λ a. a ≡ a) ys
        all_refl [] = tt
        all_refl (y ∷ ys) = (refl, all_refl ys)

module _ {ℓ} {A : Type ℓ} ⦃e : Eq A⦄ (less : A → A → Bool) where
  contains-insert_sorted :
      (x a : A) (xs : List A) → contains (insert_sorted less x xs) a ≡ ((x == a) || contains xs a)
  unfolding insert_sorted
  contains-insert_sorted x a [] = refl
  contains-insert_sorted x a (y ∷ ys) = ground (arith, contains-insert_sorted x a ys)

  pub contains-sort : (xs : List A) (a : A) → contains (sort less xs) a ≡ contains xs a
  unfolding sort
  contains-sort [] a = refl
  contains-sort (x ∷ xs) a =
      ground (arith, contains-insert_sorted x a (sort less xs), contains-sort xs a)

  insert_sorted-IsNodup :
      (x : A) (xs : List A) → contains xs x ≡ false → IsNodup xs → IsNodup (insert_sorted less x xs)
  unfolding insert_sorted
  insert_sorted-IsNodup x [] h k = (refl, tt)
  insert_sorted-IsNodup x (y ∷ ys) h k = ground (
    arith,
    insert_sorted-IsNodup x ys,
    contains-insert_sorted x y ys,
    e.beq_iff x y,
    e.beq_iff y x,
  )

  pub sort-IsNodup : (xs : List A) → IsNodup xs → IsNodup (sort less xs)
  unfolding sort
  sort-IsNodup [] h = tt
  sort-IsNodup (x ∷ xs) h =
      insert_sorted-IsNodup x (sort less xs) (contains-sort xs x ∙ h.0) (sort-IsNodup xs h.1)
