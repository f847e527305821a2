-- ===== src/Util/Validations/Laws.antt =====
-- util/validations.go: what `ValidateRunList` makes of a run list.
use goiardi.Base.{
  ◌≡◌, ◌⊎◌, refl, ap, sym, subst, Bool, true, false, not, ◌&&◌, ◌||◌, Option, none, some, List, [],
  ◌∷◌, ◌++◌, ◌==◌, ==_iff, nat_eq, list_eq, list_beq, if◌then◌else◌, all, All, contains, IsNodup,
  arith, Bool-cases, >>=-eq-some, inl, inr,
}
use mathlib.Core.Option.{some-injective}
use goiardi.Base.Text.{Text, codes}
use goiardi.Datastore.NilArrays.{strings}
use goiardi.Objects.{ok}
use goiardi.Util.Validations.{is_word}
use goiardi.Util.Validations.RunList.{
  validate_recipe_name, validate_role_name, before_close, match_brackets, is_item_byte, check_item,
  validate_rl_item, normalize, remove_dupes, run_list_result, validate_run_list,
}

all-append :
    {A : Type 0} (p : A → Bool) (xs ys : List A)
    → all p xs ≡ true
    → all p ys ≡ true
    → all p (xs ++ ys) ≡ true
all-append p [] ys h k = k
all-append p (x ∷ xs) ys h k = ground (arith, all-append p xs ys)

all-map :
    {A : Type 0} (p q : A → Bool) (f : (a : A) → p a ≡ true → q a ≡ true) (xs : List A)
    → all p xs ≡ true
    → all q xs ≡ true
all-map p q f [] h = refl
all-map p q f (x ∷ xs) h = ground (arith, f x, all-map p q f xs)

before_close-append : (s : Text) → before_close (s ++ codes "]") ≡ some s
unfolding before_close
before_close-append [] = refl
before_close-append (c ∷ []) = refl
before_close-append (c ∷ d ∷ s) = rw (before_close-append (d ∷ s)) refl

match_brackets-recipe :
    (s : Text) → match_brackets (codes "recipe[" ++ (s ++ codes "]")) ≡ some (codes "recipe", s)
unfolding match_brackets
match_brackets-recipe s = rw (before_close-append s) refl

recipe-bytes :
    (s : Text)
    → validate_recipe_name s ≡ true
    → all is_item_byte (codes "recipe[" ++ (s ++ codes "]")) ≡ true
unfolding validate_recipe_name is_item_byte
recipe-bytes s h =
    all-append is_item_byte s (codes "]")
      (all-map (λ c. is_word c || contains (codes "@.:-") c) is_item_byte (λ c k. ground arith) s
        (ground arith))
      refl

check_item-recipe :
    (item s : Text)
    → validate_recipe_name s ≡ true
    → check_item item (some (codes "recipe", s)) ≡ some item
unfolding check_item list_eq list_beq
check_item-recipe item s h = rw h refl

wrapped :
    (s : Text)
    → validate_recipe_name s ≡ true
    → validate_rl_item (codes "recipe[" ++ (s ++ codes "]"))
      ≡ some (codes "recipe[" ++ (s ++ codes "]"))
unfolding validate_rl_item list_eq list_beq
wrapped s h =
    rw (recipe-bytes s h, match_brackets-recipe s)
      (check_item-recipe (codes "recipe[" ++ (s ++ codes "]")) s h)

-- An item in the form that `validateRLItem` returns.
abbrev pub IsItem : Text → Type 0
IsItem j = validate_rl_item j ≡ some j

if_some : (b : Bool) (x j : Text) → (if b then some x else none) ≡ some j → (b ≡ true) × (x ≡ j)
if_some true x j h = (refl, some-injective _ _ h)
if_some false x j h = ground (arith, h)

check_item-cases :
    (item j : Text) (m : Option (Text × Text))
    → check_item item m ≡ some j
    → (j ≡ item)
      ⊎ ((validate_recipe_name item ≡ true) × (j ≡ codes "recipe[" ++ (item ++ codes "]")))
unfolding check_item
check_item-cases item j none h =
    let (v, e) = if_some (validate_recipe_name item) _ j h in inr (v, sym e)
check_item-cases item j (some (t, i)) h = elim (Bool-cases (t == codes "role")) [
  | inl role ↦ inl (sym (if_some (validate_role_name i) item j (rw role at h)).1)
  | inr a ↦ elim (Bool-cases (t == codes "recipe")) [
    | inl recipe ↦ inl (sym (if_some (validate_recipe_name i) item j (rw (a, recipe) at h)).1)
    | inr b ↦ elim (Bool-cases (t == [])) [
      | inl empty ↦
          let (v, e) = if_some (validate_recipe_name item) _ j (rw (a, b, empty) at h) in
          inr (v, sym e)
      | inr c ↦ absurd (ground (arith, rw (a, b, c) at h))
    ]
  ]
]

validate_rl_item-IsItem : (item j : Text) → validate_rl_item item ≡ some j → IsItem j
unfolding validate_rl_item
validate_rl_item-IsItem item j h = elim (Bool-cases ((item == []) || not (all is_item_byte item))) [
  | inl bad ↦ absurd (ground (arith, rw bad at h))
  | inr good ↦ elim (check_item-cases item j (match_brackets item) (rw good at h)) [
    | inl same ↦ subst IsItem (sym same) (subst (λ k. validate_rl_item item ≡ some k) same h)
    | inr (v, e) ↦ subst IsItem (sym e) (wrapped item v)
  ]
]

remove_dupes-contains :
    (found rl : List Text) (a : Text)
    → contains (remove_dupes found rl) a ≡ (not (contains found a) && contains rl a)
unfolding remove_dupes
remove_dupes-contains found [] a = ground arith
remove_dupes-contains found (u ∷ rl) a = elim (Bool-cases (contains found u)) [
  | inl old ↦ rw old (ground (arith, remove_dupes-contains found rl a, ==_iff u a))
  | inr new ↦ rw new (ground (arith, remove_dupes-contains (u ∷ found) rl a, ==_iff u a))
]

remove_dupes-IsNodup : (found rl : List Text) → IsNodup (remove_dupes found rl)
unfolding remove_dupes
remove_dupes-IsNodup found [] = tt
remove_dupes-IsNodup found (u ∷ rl) = elim (Bool-cases (contains found u)) [
  | inl old ↦ rw old (remove_dupes-IsNodup found rl)
  | inr new ↦ rw new (
    ground (arith, remove_dupes-contains (u ∷ found) rl u, ==_iff u u),
    remove_dupes-IsNodup (u ∷ found) rl,
  )
]

remove_dupes-All :
    (P : Text → Type 0) (found rl : List Text) → All P rl → All P (remove_dupes found rl)
unfolding remove_dupes
remove_dupes-All P found [] h = tt
remove_dupes-All P found (u ∷ rl) h = elim (Bool-cases (contains found u)) [
  | inl old ↦ rw old (remove_dupes-All P found rl h.1)
  | inr new ↦ rw new (h.0, remove_dupes-All P (u ∷ found) rl h.1)
]

-- Nothing of the list is found before.
abbrev AllNew : List Text → List Text → Type 0
AllNew found = All (λ u. contains found u ≡ false)

AllNew-cons :
    (found rl : List Text) (u : Text)
    → contains rl u ≡ false
    → AllNew found rl
    → AllNew (u ∷ found) rl
AllNew-cons found [] u h k = tt
AllNew-cons found (x ∷ rl) u h k =
    (ground (arith, ==_iff x u, ==_iff u x, k.0), AllNew-cons found rl u (ground arith) k.1)

remove_dupes-nodup :
    (found rl : List Text) → IsNodup rl → AllNew found rl → remove_dupes found rl ≡ rl
unfolding remove_dupes
remove_dupes-nodup found [] h k = refl
remove_dupes-nodup found (u ∷ rl) h k =
    rw (k.0) (ap (◌∷◌ u) (remove_dupes-nodup (u ∷ found) rl h.1 (AllNew-cons found rl u h.0 k.1)))

AllNew-nil : (rl : List Text) → AllNew [] rl
AllNew-nil [] = tt
AllNew-nil (u ∷ rl) = (refl, AllNew-nil rl)

normalize-IsItem : (rl js : List Text) → normalize rl ≡ some js → All IsItem js
unfolding normalize
normalize-IsItem [] js h = subst (All IsItem) (some-injective _ _ h) tt
normalize-IsItem (r ∷ rl) js h =
    let (j, e, rest) = >>=-eq-some (validate_rl_item r) _ h in
    let (ks, n, p) = >>=-eq-some (normalize rl) _ rest in
    subst (All IsItem) (some-injective _ _ p)
      (validate_rl_item-IsItem r j e, normalize-IsItem rl ks n)

normalize-id : (js : List Text) → All IsItem js → normalize js ≡ some js
unfolding normalize
normalize-id [] h = refl
normalize-id (j ∷ js) h = rw (normalize, h.0, normalize-id js h.1) refl

-- What `ValidateRunList` returns for a list.
pub record IsRunList (js res : List Text) : Type 0 where
  pub same : (j : Text) → contains res j ≡ contains js j
  pub once : IsNodup res
  pub items : All IsItem res

run_list_result-ok :
    (n : Option (List Text)) (res : List Text)
    → run_list_result n ≡ ok (some res)
    → (js : List Text) × (n ≡ some js) × (remove_dupes [] js ≡ res)
unfolding run_list_result
run_list_result-ok none res h = absurd (ground (arith, h))
run_list_result-ok (some js) res h = (js, refl, ground (arith, h))

-- If `ValidateRunList` returns a list, `validateRLItem` accepts every item that was given. The
-- result holds exactly the forms that it gives the items, each once, and each in a form that it
-- returns as it is.
pub validate_run_list_lem :
    (rl res : List Text)
    → validate_run_list (strings rl) ≡ ok (some res)
    → (js : List Text) × (normalize rl ≡ some js) × IsRunList js res
unfolding validate_run_list
validate_run_list_lem rl res h =
    let (js, n, e) = run_list_result-ok (normalize rl) res h in
    (
      js,
      n,
      subst (IsRunList js) e (record {
        same = λ j. remove_dupes-contains [] js j;
        once = remove_dupes-IsNodup [] js;
        items = remove_dupes-All IsItem [] js (normalize-IsItem rl js n);
      }),
    )

-- `ValidateRunList` returns its own results unchanged.
pub validate_run_list-validate_run_list :
    (rl res : List Text)
    → validate_run_list (strings rl) ≡ ok (some res)
    → validate_run_list (strings res) ≡ ok (some res)
unfolding validate_run_list run_list_result
validate_run_list-validate_run_list rl res h =
    let (js, n, good) = validate_run_list_lem rl res h in
    rw (normalize-id res good.items)
      (ap (λ l. ok (some l)) (remove_dupes-nodup [] res good.once (AllNew-nil res)))
