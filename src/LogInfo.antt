-- ===== src/LogInfo.antt =====
-- loginfo/log_info.go: the search in the log of events, in the in-memory store.
pub mod Limits
pub mod Matches
pub mod Collect
pub mod Page
use goiardi.Base.{
  ℕ, zero, suc, ◌+◌, ◌-◌, ◌%◌, ◌^◌, Bool, true, false, not, ◌&&◌, ◌||◌, Option, none, some, List,
  [], ◌∷◌, ◌++◌, ◌==◌, nat_eq, list_eq, if◌then◌else◌, ltb, nat_beq, length, take, drop, contains,
  ◌>>=◌,
}
use goiardi.Base.Text.{Text, codes}
use goiardi.Base.Int.{int_ltb}
use goiardi.Base.Dict.{Dict, lookup, insert, keys}
use goiardi.Base.Sort.{sort}
use goiardi.Datastore.{Gob, DataStore}
use goiardi.Datastore.NextId.{int_gtb}
use goiardi.Datastore.LogInfo.{
  get_log_info_list, get_log_info, set_log_info, delete_log_info, purge_log_info_before,
}

-- `doer` is the name of the actor; a time is its number of nanoseconds.
pub record Event : Type 0 where
  pub doer : Text
  pub actor_info : Text
  pub actor_type : Text
  pub time : ℕ
  pub action : Text
  pub object_type : Text
  pub object_name : Text
  pub extended_info : Text
  pub id : ℕ

-- `checkTimeRange`.
unfoldable pub check_time_range : Event → ℕ → ℕ → Bool
check_time_range le from until = ltb from le.time && ltb le.time until

-- `searchParams[key]`, empty where there is none.
unfoldable pub param : Dict Text Text → Text → Text
unfolding lookup
param search_params key = elim (lookup key search_params) [ none ↦ [] | some v ↦ v ]

-- The name of a type as the log has it; `title` is `strings.Title`.
unfoldable pub type_name : (Text → Text) → Text → Text
type_name title ot =
    if contains ot b'*' || contains ot b'.'
    then ot
    else if ot == codes "environment"
    then codes "*environment.ChefEnvironment"
    else if ot == codes "cookbook_version"
    then codes "*cookbook.CookbookVersion"
    else codes "*" ++ (ot ++ (codes "." ++ title ot))

unfoldable pub name_type : (Text → Text) → Dict Text Text → Dict Text Text
unfolding lookup insert type_name
name_type title search_params = elim (lookup (codes "object_type") search_params) [
  | none ↦ search_params
  | some ot ↦ insert (codes "object_type") (type_name title ot) search_params
]

unfoldable pub is_wanted : Text → Text → Bool
is_wanted wanted given = (wanted == []) || (wanted == given)

-- The test of one event in the loop of `GetLogInfos`.
unfoldable pub is_match : ℕ → ℕ → Dict Text Text → Event → Bool
unfolding check_time_range param is_wanted
is_match from until search_params item =
    check_time_range item from until
    && (is_wanted (param search_params (codes "action")) item.action
        && (is_wanted (param search_params (codes "object_type")) item.object_type
            && (is_wanted (param search_params (codes "object_name")) item.object_name
                && is_wanted (param search_params (codes "doer")) item.doer)))

-- That loop, over the ids.
unfoldable pub collect : ℕ → ℕ → Dict Text Text → Dict ℕ Event → List ℕ → List Event
unfolding is_match lookup
collect from until search_params arr [] = []
collect from until search_params arr (i ∷ ks) =
    let rest = collect from until search_params arr ks in
    elim (lookup i arr) [
      | none ↦ rest
      | some item ↦
          if is_match from until search_params item then record item { id = i } ∷ rest else rest
    ]

-- The end of the page: `total` is the length of `lis`, of which the first `n` are filled.
unfoldable pub page_end : List ℕ → ℕ → ℕ → ℕ
page_end (offset ∷ limit ∷ more) total n =
    let limit' = (offset + limit) % 2 ^ 64 in
    let limit'' = if int_ltb total limit' then total else limit' in
    if int_ltb n limit'' then n else limit''
page_end limits total n = if int_ltb n total then n else total

unfoldable pub page_start : List ℕ → ℕ
page_start [] = 0
page_start (offset ∷ limits) = offset

-- `lis[offset:limit]`, where bounds out of order are a panic.
unfoldable pub cut : ℕ → ℕ → List Event → Option (List Event)
cut offset limit lis =
    if int_ltb offset 0 || int_ltb limit offset
    then none
    else some (take (limit - offset) (drop offset lis))

-- What follows the loop.
unfoldable pub page : List ℕ → ℕ → List Event → Option (List Event)
unfolding page_end page_start cut
page limits total lis =
    if nat_beq total 0
    then some []
    else cut (page_start limits) (page_end limits total (length lis)) lis

module _ (g : Gob Event) where
  -- `GetLogInfos`, with the times of the parameters `from` and `until` at hand.
  unfoldable pub get_log_infos :
      (Text → Text) → DataStore g.Bytes → ℕ → ℕ → Dict Text Text → List ℕ → Option (List Event)
  unfolding collect page name_type
  get_log_infos title ds from until search_params limits = do
    arr ← get_log_info_list g ds
    let ks = sort int_gtb (keys arr)
    page limits (length arr) (collect from until (name_type title search_params) arr ks)

  -- `Get`; the inner `none` is the error of the store.
  unfoldable pub get_event : DataStore g.Bytes → ℕ → Option (Option Event)
  get_event ds id = do
    c ← get_log_info g ds id
    some (elim c [ none ↦ none | some le ↦ some (record le { id = id }) ])

  -- `writeEventInMem` and `importEventInMem`.
  unfoldable pub write_event : DataStore g.Bytes → Event → Option (DataStore g.Bytes)
  write_event ds le = set_log_info g ds le none

  unfoldable pub import_event : DataStore g.Bytes → Event → Option (DataStore g.Bytes)
  import_event ds le = set_log_info g ds le (some le.id)

  -- `Delete`.
  unfoldable pub delete_event : DataStore g.Bytes → Event → Option (DataStore g.Bytes)
  delete_event ds le = delete_log_info g ds le.id

  -- `PurgeLogInfos`.
  unfoldable pub purge_log_infos : DataStore g.Bytes → ℕ → Option (DataStore g.Bytes × ℕ)
  purge_log_infos ds id = purge_log_info_before g ds id
