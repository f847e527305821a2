-- ===== src/Report/Json.antt =====
-- report/report.go: what `NewFromJSON` and `UpdateFromJSON` check, with `UpdateFromJSON`.
use goiardi.Base.{
  ℕ, ◌-◌, ◌%◌, ◌^◌, not, ◌&&◌, Option, none, some, [], ◌∷◌, ◌++◌, ◌==◌, nat_eq, list_eq, nat_beq,
  if◌then◌else◌, ltb, leb, ◌>>=◌,
}
use goiardi.Base.Text.{Text, codes}
use goiardi.Base.Int.{int_bound}
use goiardi.Base.Decimal.{parse_unsigned}
use goiardi.Datastore.NilArrays.{Value, number, string, items, members, Items, Members}
use goiardi.Objects.{Report, Result, ok, err, errorf, Gerror}
use goiardi.Util.Members.{get_member}

-- `strconv.Atoi` with its error as `none`.
unfoldable pub checked_atoi : Text → Option ℕ
checked_atoi [] = none
checked_atoi (c ∷ s) =
    if nat_beq c b'-'
    then (do n ← parse_unsigned s; if leb n int_bound then some ((2 ^ 64 - n) % 2 ^ 64) else none)
    else (do
      n ← parse_unsigned (if nat_beq c b'+' then s else c ∷ s)
      if ltb n int_bound then some n else none)

-- The value of "total_res_count", where `sprint` has the text of an error.
unfoldable pub res_count : (Value → Text) → Value → Result ℕ
unfolding checked_atoi
res_count sprint (number n) = ok n
res_count sprint (string t) = elim (checked_atoi t) [
  | none ↦ err (errorf (sprint (string t)))
  | some n ↦ ok n
]
res_count sprint v = err (errorf (sprint v))

unfoldable pub as_text : Text → Value → Result Text
as_text message (string t) = ok t
as_text message _ = err (errorf message)

unfoldable pub as_resources : (Value → Text) → Value → Result Items
as_resources sprint (items l) = ok l
as_resources sprint v = err (errorf (sprint v))

unfoldable pub as_data : Value → Result Members
as_data (members m) = ok m
as_data _ = err (errorf (codes "invalid data"))

-- The check of "action".
unfoldable pub check_action : Text → Value → Option Gerror
check_action wanted (string action) =
    if not (action == wanted) then some (errorf (codes "invalid action " ++ action)) else none
check_action wanted _ = some (errorf (codes "invalid action"))

unfoldable pub check_status : Text → Result Text
check_status status =
    if not (status == codes "success")
      && (not (status == codes "failure") && not (status == codes "started"))
    then err (errorf (codes "invalid status " ++ status))
    else ok status

abbrev pub then_ok : {A B : Type 0} → Result A → (A → Result B) → Result B
then_ok (err e) f = err e
then_ok (ok a) f = f a

-- `UpdateFromJSON`, with `time.Parse` as `parse_time`.
unfoldable pub update_from_json :
    (Value → Text) → (Text → Result ℕ) → Report → Members → Result Report
unfolding check_action as_text res_count check_status as_resources as_data get_member
update_from_json sprint parse_time r json =
    elim (check_action (codes "end") (get_member (codes "action") json)) [
      | some e ↦ err e
      | none ↦
          then_ok (as_text (codes "invalid end time") (get_member (codes "end_time") json))
            (λ etime. then_ok (parse_time etime) (λ end_time.
              then_ok (res_count sprint (get_member (codes "total_res_count") json)) (λ trc.
                then_ok (as_text (codes "invalid status") (get_member (codes "status") json)) (λ st.
                  then_ok (check_status st) (λ status.
                    then_ok
                      (as_text (codes "invalid run_list") (get_member (codes "run_list") json))
                      (λ run_list.
                        then_ok (as_resources sprint (get_member (codes "resources") json))
                          (λ resources.
                            then_ok (as_data (get_member (codes "data") json)) (λ run_data.
                              ok (record r {
                                end_time = end_time;
                                total_res_count = trc;
                                status = status;
                                run_list = run_list;
                                resources = resources;
                                run_data = run_data;
                              })))))))))
    ]
