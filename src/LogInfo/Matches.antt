-- ===== src/LogInfo/Matches.antt =====
-- loginfo/log_info.go: what a search in the log asks of an event.
use goiardi.Base.{
  ℕ, ◌<◌, ◌≡◌, ◌⊎◌, ◌↔◌, refl, Bool, true, false, ◌&&◌, [], ◌==◌, ==_iff, nat_eq, list_eq, ltb,
  arith, Bool-cases, inl, inr,
}
use goiardi.Base.Text.{Text, codes}
use goiardi.Base.Dict.{Dict}
use goiardi.LogInfo.{Event, is_match, check_time_range, is_wanted, param}

-- A field is as asked for, or nothing is asked of it.
abbrev pub Wants : Text → Text → Type 0
Wants wanted given = (wanted ≡ []) ⊎ (wanted ≡ given)

-- An event lies strictly between the two times, and its fields are as asked for.
pub record Matches (from until : ℕ) (sp : Dict Text Text) (item : Event) : Type 0 where
  pub after : from < item.time
  pub before : item.time < until
  pub action : Wants (param sp (codes "action")) item.action
  pub object_type : Wants (param sp (codes "object_type")) item.object_type
  pub object_name : Wants (param sp (codes "object_name")) item.object_name
  pub doer : Wants (param sp (codes "doer")) item.doer

is_wanted_iff : (wanted given : Text) → (is_wanted wanted given ≡ true) ↔ Wants wanted given
unfolding is_wanted
is_wanted_iff wanted given = (to, from)
  where
    to : is_wanted wanted given ≡ true → Wants wanted given
    to h = elim (Bool-cases (wanted == [])) [
      | inl e ↦ inl ((==_iff wanted []).0 e)
      | inr e ↦ inr ((==_iff wanted given).0 (ground (arith, h, e)))
    ]

    from : Wants wanted given → is_wanted wanted given ≡ true
    from (inl e) = ground (arith, (==_iff wanted []).1 e)
    from (inr e) = ground (arith, (==_iff wanted given).1 e)

and-true : (a b : Bool) → (a && b) ≡ true → (a ≡ true) × (b ≡ true)
and-true true b h = (refl, h)
and-true false b h = ground (arith, h)

pub is_match-Matches :
    (from until : ℕ) (sp : Dict Text Text) (item : Event)
    → is_match from until sp item ≡ true
    → Matches from until sp item
unfolding is_match check_time_range
is_match-Matches from until sp item h =
    let (times, h1) = and-true _ _ h in
    let (after, before) = and-true (ltb from item.time) (ltb item.time until) times in
    let (action, h2) = and-true _ _ h1 in
    let (object_type, h3) = and-true _ _ h2 in
    let (object_name, doer) = and-true _ _ h3 in
    record {
      after = ground (arith, after);
      before = ground (arith, before);
      action = (is_wanted_iff _ _).0 action;
      object_type = (is_wanted_iff _ _).0 object_type;
      object_name = (is_wanted_iff _ _).0 object_name;
      doer = (is_wanted_iff _ _).0 doer;
    }

pub Matches-is_match :
    (from until : ℕ) (sp : Dict Text Text) (item : Event)
    → Matches from until sp item
    → is_match from until sp item ≡ true
unfolding is_match check_time_range
Matches-is_match from until sp item m =
    let after : ltb from item.time ≡ true = ground (arith, m.after) in
    let before : ltb item.time until ≡ true = ground (arith, m.before) in
    rw
      (
        after,
        before,
        (is_wanted_iff _ _).1 m.action,
        (is_wanted_iff _ _).1 m.object_type,
        (is_wanted_iff _ _).1 m.object_name,
        (is_wanted_iff _ _).1 m.doer,
      )
      refl
