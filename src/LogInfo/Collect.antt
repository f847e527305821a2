-- ===== src/LogInfo/Collect.antt =====
-- loginfo/log_info.go: what the loop of `GetLogInfos` collects.
use goiardi.Base.{
  ℕ, ◌≤◌, ◌≡◌, refl, ap, sym, ◌∙◌, Bool, true, false, Option, none, some, List, [], ◌∷◌, nat_beq,
  length, nat_eq, list_eq, arith, All, Bool-cases, Option-cases, inl, inr, contains, map, IsNodup,
  ◌&&◌, ==_iff, nat_beq_iff,
}
use goiardi.Base.Text.{Text}
use goiardi.Base.Dict.{Dict, lookup}
use goiardi.Base.Sort.{IsSorted}
use goiardi.Datastore.NextId.{int_gtb}
use goiardi.LogInfo.Matches.{Matches, is_match-Matches}
use goiardi.LogInfo.{Event, is_match, collect}

pub length-collect :
    (from until : ℕ) (sp : Dict Text Text) (arr : Dict ℕ Event) (ks : List ℕ)
    → length (collect from until sp arr ks) ≤ length ks
unfolding collect
length-collect from until sp arr [] = omega arith
length-collect from until sp arr (i ∷ ks) = elim (Option-cases (lookup i arr)) [
  | inl e ↦ rw (e, collect) (omega (arith, length-collect from until sp arr ks))
  | inr (item, e) ↦ elim (Bool-cases (is_match from until sp item)) [
    | inl yes' ↦ rw (e, collect, yes') (omega (arith, length-collect from until sp arr ks))
    | inr no' ↦ rw (e, collect, no') (omega (arith, length-collect from until sp arr ks))
  ]
]

-- Whether an entry of the log is there and matches.
unfoldable pub holds : ℕ → ℕ → Dict Text Text → Option Event → Bool
holds from until sp none = false
holds from until sp (some item) = is_match from until sp item

abbrev pub ids : List Event → List ℕ
ids = map (λ (e : Event). e.id)

pub contains-collect :
    (from until : ℕ) (sp : Dict Text Text) (arr : Dict ℕ Event) (ks : List ℕ) (j : ℕ)
    → contains (ids (collect from until sp arr ks)) j
      ≡ (contains ks j && holds from until sp (lookup j arr))
unfolding collect holds
contains-collect from until sp arr [] j = refl
contains-collect from until sp arr (i ∷ ks) j = elim (Option-cases (lookup i arr)) [
  | inl e ↦
      rw (e, collect)
        (contains-collect from until sp arr ks j ∙ ground (arith, ==_iff i j, e, missing i j e))
  | inr (item, e) ↦ elim (Bool-cases (is_match from until sp item)) [
    | inl match' ↦
        rw (e, collect, match')
          (ground (arith, contains-collect from until sp arr ks j, present i j item e match'))
    | inr other ↦
        rw (e, collect, other)
          (contains-collect from until sp arr ks j ∙ ground (arith, absent i j item e other))
  ]
]
  where
    missing :
        (i j : ℕ)
        → lookup i arr ≡ none
        → nat_beq i j ≡ true
        → holds from until sp (lookup j arr) ≡ false
    missing i j e same =
        ap (λ k. holds from until sp (lookup k arr)) (sym ((nat_beq_iff i j).0 same))
        ∙ ap (holds from until sp) e

    present :
        (i j : ℕ) (item : Event)
        → lookup i arr ≡ some item
        → is_match from until sp item ≡ true
        → nat_beq i j ≡ true
        → holds from until sp (lookup j arr) ≡ true
    present i j item e m same =
        ap (λ k. holds from until sp (lookup k arr)) (sym ((nat_beq_iff i j).0 same))
        ∙ ap (holds from until sp) e
        ∙ m

    absent :
        (i j : ℕ) (item : Event)
        → lookup i arr ≡ some item
        → is_match from until sp item ≡ false
        → nat_beq i j ≡ true
        → holds from until sp (lookup j arr) ≡ false
    absent i j item e m same =
        ap (λ k. holds from until sp (lookup k arr)) (sym ((nat_beq_iff i j).0 same))
        ∙ ap (holds from until sp) e
        ∙ m

collect-All :
    (P : ℕ → Type 0) (from until : ℕ) (sp : Dict Text Text) (arr : Dict ℕ Event) (ks : List ℕ)
    → All P ks
    → All P (ids (collect from until sp arr ks))
unfolding collect
collect-All P from until sp arr [] h = tt
collect-All P from until sp arr (i ∷ ks) h = elim (Option-cases (lookup i arr)) [
  | inl e ↦ rw (e, collect) (collect-All P from until sp arr ks h.1)
  | inr (item, e) ↦ elim (Bool-cases (is_match from until sp item)) [
    | inl match' ↦ rw (e, collect, match') ((h.0, collect-All P from until sp arr ks h.1))
    | inr other ↦ rw (e, collect, other) (collect-All P from until sp arr ks h.1)
  ]
]

pub collect-IsSorted :
    (from until : ℕ) (sp : Dict Text Text) (arr : Dict ℕ Event) (ks : List ℕ)
    → IsSorted int_gtb ks
    → IsSorted int_gtb (ids (collect from until sp arr ks))
unfolding collect
collect-IsSorted from until sp arr [] h = tt
collect-IsSorted from until sp arr (i ∷ ks) h = elim (Option-cases (lookup i arr)) [
  | inl e ↦ rw (e, collect) (collect-IsSorted from until sp arr ks h.1)
  | inr (item, e) ↦ elim (Bool-cases (is_match from until sp item)) [
    | inl match' ↦
        rw (e, collect, match')
          ((
            collect-All (λ y. int_gtb y i ≡ false) from until sp arr ks h.0,
            collect-IsSorted from until sp arr ks h.1,
          ))
    | inr other ↦ rw (e, collect, other) (collect-IsSorted from until sp arr ks h.1)
  ]
]

-- An event that is found is the one of the log under its id, with that id.
abbrev pub IsFrom : (from until : ℕ) → Dict Text Text → Dict ℕ Event → Event → Type 0
IsFrom from until sp arr e =
    (item : Event) × (lookup e.id arr ≡ some item)
    × Matches from until sp item
    × (e ≡ record item { id = e.id })

pub collect-IsFrom :
    (from until : ℕ) (sp : Dict Text Text) (arr : Dict ℕ Event) (ks : List ℕ)
    → All (IsFrom from until sp arr) (collect from until sp arr ks)
unfolding collect
collect-IsFrom from until sp arr [] = tt
collect-IsFrom from until sp arr (i ∷ ks) = elim (Option-cases (lookup i arr)) [
  | inl e ↦ rw (e, collect) (collect-IsFrom from until sp arr ks)
  | inr (item, e) ↦ elim (Bool-cases (is_match from until sp item)) [
    | inl match' ↦
        rw (e, collect, match')
          (
            (item, e, is_match-Matches from until sp item match', refl),
            collect-IsFrom from until sp arr ks,
          )
    | inr other ↦ rw (e, collect, other) (collect-IsFrom from until sp arr ks)
  ]
]

pub collect-IsNodup :
    (from until : ℕ) (sp : Dict Text Text) (arr : Dict ℕ Event) (ks : List ℕ)
    → IsNodup ks
    → IsNodup (ids (collect from until sp arr ks))
unfolding collect
collect-IsNodup from until sp arr [] h = tt
collect-IsNodup from until sp arr (i ∷ ks) h = elim (Option-cases (lookup i arr)) [
  | inl e ↦ rw (e, collect) (collect-IsNodup from until sp arr ks h.1)
  | inr (item, e) ↦ elim (Bool-cases (is_match from until sp item)) [
    | inl match' ↦
        rw (e, collect, match')
          ((
            ground (arith, contains-collect from until sp arr ks i, h.0),
            collect-IsNodup from until sp arr ks h.1,
          ))
    | inr other ↦ rw (e, collect, other) (collect-IsNodup from until sp arr ks h.1)
  ]
]
