-- ===== src/Search/Token.antt =====
-- search/parse.go: `Token`, which the parser's actions drive. The chain is a list with the latest
-- link in front. The actions that need a latest link panic without one.
use goiardi.Base.{Bool, true, false, Option, none, some, List, [], ◌∷◌, if◌then◌else◌}
use goiardi.Base.Text.{Text}
use goiardi.Search.{
  Op, not_an_op, bin_or, unary_not, Link, basic, grouped, range, sub, negation, add_op, add_field,
  add_term, add_term_op, is_incomplete, set_completed, op_of, new_term, prev_op,
}

abbrev pub Token : Type 0
Token = List Link

abbrev pub latest : Token → Option Link
latest [] = none
latest (l ∷ z) = some l

-- Whether the next part of the query wants a link of its own.
unfoldable pub wants_link : Token → Bool
unfolding is_incomplete
wants_link [] = true
wants_link (l ∷ z) = if is_incomplete l then false else true

unfoldable pub change_latest : (Link → Link) → Token → Option Token
change_latest f [] = none
change_latest f (l ∷ z) = some (f l ∷ z)

-- `AddOp`.
unfoldable pub put_op : Op → Token → Option Token
unfolding add_op change_latest
put_op o z = change_latest (add_op o) z

-- `AddField`.
unfoldable pub put_field : (Text → Text) → Text → Token → Option Token
unfolding add_field change_latest
put_field convert s z = change_latest (add_field convert s) z

-- `StartBasic`.
unfoldable pub start_basic : Token → Token
unfolding wants_link
start_basic z =
    if wants_link z
    then basic (record { field = []; term = new_term not_an_op []; op = bin_or; complete = false })
      ∷ z
    else z

abbrev pub with_prev : (Option Link → Link → Link) → Token → Option Token
with_prev f [] = none
with_prev f (l ∷ z) = some (f (latest z) l ∷ z)

-- `AddTerm`.
unfoldable pub put_term : Text → Token → Option Token
unfolding start_basic add_term
put_term s z = with_prev (λ prev l. add_term prev s l) (start_basic z)

-- `AddTermOp`.
unfoldable pub put_term_op : Op → Token → Option Token
unfolding start_basic add_term_op change_latest
put_term_op o z = change_latest (add_term_op o) (start_basic z)

-- `AddRange`.
unfoldable pub put_range : Text → Token → Option Token
unfolding add_term
put_range s z = with_prev (λ prev l. add_term prev s l) z

abbrev pub is_not : Op → Bool
is_not unary_not = true
is_not _ = false

abbrev pub range_from : Bool → Op → Bool → Link
range_from inclusive o negated = range (record {
  field = [];
  start = [];
  end_term = [];
  inclusive = inclusive;
  op = o;
  complete = false;
  negated = negated;
})

-- `StartRange`: the operator is that of the link before the latest.
unfoldable pub start_range : Bool → Token → Token
unfolding op_of
start_range inclusive [] = range_from inclusive bin_or false ∷ []
start_range inclusive (l ∷ z) =
    range_from inclusive (prev_op (latest z)) (is_not (op_of l)) ∷ (l ∷ z)

-- `StartGrouped`.
unfoldable pub start_grouped : Token → Token
unfolding wants_link
start_grouped z =
    if wants_link z
    then grouped (record { field = []; terms = []; op = bin_or; complete = false }) ∷ z
    else z

-- `SetCompleted`.
unfoldable pub complete_latest : Token → Option Token
unfolding set_completed change_latest
complete_latest z = change_latest set_completed z

-- `StartSubQuery`.
unfoldable pub start_sub_query : Token → Token
unfolding wants_link
start_sub_query z =
    if wants_link z
    then sub (record { start = true; end_mark = false; op = not_an_op; complete = true }) ∷ z
    else z

-- `EndSubQuery`; a marker with no link in front, which the grammar rules out, is not in the chain.
unfoldable pub end_sub_query : Token → Token
unfolding wants_link
end_sub_query [] = []
end_sub_query (l ∷ z) =
    if wants_link (l ∷ z)
    then sub (record { start = false; end_mark = true; op = not_an_op; complete = true }) ∷ (l ∷ z)
    else l ∷ z

-- `SetNotQuery`.
unfoldable pub set_not_query : Op → Token → Token
set_not_query op z = negation op ∷ z
