-- ===== src/LogInfo/Page.antt =====
-- loginfo/log_info.go: which events `GetLogInfos` returns.
use goiardi.Base.{
  ℕ, suc, ◌+◌, ◌<◌, ◌≡◌, refl, ap, ◌∙◌, true, none, some, List, [], ◌∷◌, if◌then◌else◌, leb, length,
  take, drop, nat_eq, list_eq, arith, All, contains, IsNodup,
}
use goiardi.Base.Text.{Text}
use goiardi.Base.Int.{int_bound}
use goiardi.Base.Dict.{Dict, lookup, keys, contains-keys}
use goiardi.Base.Sort.{sort, IsSorted, length-sort, contains-sort, sort-IsNodup}
use goiardi.Datastore.{Gob, DataStore}
use goiardi.Datastore.NextId.{int_gtb, keys_desc-IsSorted}
use goiardi.Datastore.LogInfo.{get_log_info_list}
use goiardi.LogInfo.Limits.{page-two}
use goiardi.LogInfo.Matches.{Matches, Matches-is_match}
use goiardi.LogInfo.{Event, collect, get_log_infos, name_type}
use goiardi.LogInfo.Collect.{
  holds, ids, IsFrom, length-collect, contains-collect, collect-IsSorted, collect-IsFrom,
  collect-IsNodup,
}

-- The events of a log that match, each once and whole, latest id first.
pub record AreMatches (from until : ℕ) (sp : Dict Text Text) (arr : Dict ℕ Event)
    (found : List Event) : Type 0 where
  pub sound : All (IsFrom from until sp arr) found
  pub complete :
      (i : ℕ) (item : Event)
      → lookup i arr ≡ some item
      → Matches from until sp item
      → contains (ids found) i ≡ true
  pub descending : IsSorted int_gtb (ids found)
  pub once : IsNodup (ids found)

module _ (g : Gob Event) where
  -- If the log can be read and is not empty, has each id once, and its length and the sum of the offset and the
  -- limit are not above the highest `int`, then `GetLogInfos` with the offset and the limit
  -- returns, of exactly the events that match, each whole and under its id, in descending order of
  -- their ids, up to `limit` from the offset on, and it panics exactly if the offset is above their
  -- number.
  pub get_log_infos_lem :
      (title : Text → Text) (ds : DataStore g.Bytes) (arr : Dict ℕ Event) (from until : ℕ)
      (sp : Dict Text Text) (offset limit : ℕ)
      → get_log_info_list g ds ≡ some arr
      → IsNodup (keys arr)
      → 0 < length arr
      → length arr < int_bound
      → offset + limit < int_bound
      → (found : List Event) × AreMatches from until (name_type title sp) arr found
        × (get_log_infos g title ds from until sp (offset ∷ limit ∷ [])
            ≡ (if leb offset (length found) then some (take limit (drop offset found)) else none))
  unfolding get_log_infos holds
  get_log_infos_lem title ds arr from until sp offset limit e each_once some_events few small =
      let sp' = name_type title sp in
      let ks = sort int_gtb (keys arr) in
      let found = collect from until sp' arr ks in
      (
        found,
        record {
          sound = collect-IsFrom from until sp' arr ks;
          complete = λ i item there m.
              contains-collect from until sp' arr ks i
              ∙ rw
                  (
                    contains-sort int_gtb (keys arr) i ∙ contains-keys arr i,
                    there,
                    Matches-is_match from until sp' item m,
                  )
                  refl;
          once = collect-IsNodup from until sp' arr ks (sort-IsNodup int_gtb (keys arr) each_once);
          descending = collect-IsSorted from until sp' arr ks (keys_desc-IsSorted (keys arr));
        },
        rw e (
            page-two offset limit (length arr) found small few
              (omega (
                arith,
                length-collect from until sp' arr ks,
                length-sort int_gtb (keys arr),
                length-keys arr,
              ))
              some_events),
      )
    where
      length-keys : (d : Dict ℕ Event) → length (keys d) ≡ length d
      length-keys [] = refl
      length-keys ((k, v) ∷ d) = ap suc (length-keys d)
