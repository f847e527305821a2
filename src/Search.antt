-- ===== src/Search.antt =====
-- search/parse.go: the links of a query chain, and the methods of `Queryable` that build them. A
-- method gets the link in front, `Prev`, where it reads it. The parser itself is generated.
pub mod Token
pub mod Execute
pub mod Termination
pub mod Meaning
pub mod Links
pub mod Finds
pub mod Groups
pub mod Laws
use goiardi.Base.{
  ℕ, Bool, true, false, ◌||◌, ◌&&◌, not, Option, none, some, List, [], ◌∷◌, ◌++◌, ◌==◌, nat_eq,
  list_eq, nat_beq, if◌then◌else◌, ◌>>=◌,
}
use goiardi.Base.Text.{Text, codes, join}
use goiardi.Base.Dict.{Dict, insert, keys, lookup, is_some}

pub data Op : Type 0 where
  not_an_op : Op
  unary_not : Op
  unary_req : Op
  unary_pro : Op
  bin_and : Op
  bin_or : Op
  boost : Op
  fuzzy : Op
  start_group : Op
  end_group : Op
  start_incl : Op
  end_incl : Op
  start_excl : Op
  end_excl : Op

abbrev pub is_and : Op → Bool
is_and bin_and = true
is_and _ = false

abbrev pub is_or : Op → Bool
is_or bin_or = true
is_or _ = false

abbrev pub is_required : Op → Bool
is_required unary_req = true
is_required _ = false

-- The two operators that negate a term.
unfoldable pub is_negation : Op → Bool
is_negation unary_not = true
is_negation unary_pro = true
is_negation _ = false

pub record QueryTerm : Type 0 where
  pub term : Text
  pub mod_op : Op
  pub fuzzboost : Op
  pub fuzzparam : Text

pub record BasicQuery : Type 0 where
  pub field : Text
  pub term : QueryTerm
  pub op : Op
  pub complete : Bool

pub record GroupedQuery : Type 0 where
  pub field : Text
  pub terms : List QueryTerm
  pub op : Op
  pub complete : Bool

pub record RangeQuery : Type 0 where
  pub field : Text
  pub start : Text
  pub end_term : Text
  pub inclusive : Bool
  pub op : Op
  pub complete : Bool
  pub negated : Bool

pub record SubQuery : Type 0 where
  pub start : Bool
  pub end_mark : Bool
  pub op : Op
  pub complete : Bool

pub data Link : Type 0 where
  basic : BasicQuery → Link
  grouped : GroupedQuery → Link
  range : RangeQuery → Link
  sub : SubQuery → Link
  negation : Op → Link

-- `Op`.
unfoldable pub op_of : Link → Op
op_of (basic q) = q.op
op_of (grouped q) = q.op
op_of (range q) = q.op
op_of (sub q) = q.op
op_of (negation op) = op

-- `AddOp`.
unfoldable pub add_op : Op → Link → Link
add_op o (basic q) = basic (record q { op = o })
add_op o (grouped q) = grouped (record q { op = o })
add_op o (range q) = range (record q { op = o })
add_op o (sub q) = sub (record q { op = o })
add_op o (negation op) = negation o

-- `AddField`; `convert` is what `ConvertSearch` has done to a field, nothing by default.
unfoldable pub add_field : (Text → Text) → Text → Link → Link
add_field convert s (basic q) = basic (record q { field = convert s })
add_field convert s (grouped q) = grouped (record q { field = convert s })
add_field convert s (range q) = range (record q { field = convert s })
add_field convert s l = l

unfoldable pub is_negated : Option Link → Bool
unfolding op_of is_negation
is_negated none = false
is_negated (some prev) = is_negation (op_of prev)

abbrev pub prev_op : Option Link → Op
prev_op none = not_an_op
prev_op (some prev) = op_of prev

abbrev pub new_term : Op → Text → QueryTerm
new_term o s = record { term = s; mod_op = o; fuzzboost = not_an_op; fuzzparam = [] }

-- `AddTerm` of a group: the last term gets the text if it has none.
unfoldable pub add_group_term : Text → List QueryTerm → List QueryTerm
add_group_term s [] = new_term not_an_op s ∷ []
add_group_term s (t ∷ []) =
    if t.term == [] then record t { term = s } ∷ [] else t ∷ new_term not_an_op s ∷ []
add_group_term s (t ∷ u ∷ terms) = t ∷ add_group_term s (u ∷ terms)

-- `AddTerm`.
unfoldable pub add_term : Option Link → Text → Link → Link
unfolding is_negated add_group_term
add_term prev s (basic q) = basic (record q {
  term = record q.term {
    term = s;
    mod_op = if is_negated prev then prev_op prev else q.term.mod_op;
  };
  complete = true;
})
add_term prev s (grouped q) = grouped (record q { terms = add_group_term s q.terms })
add_term prev s (range q) = range (
    if q.start == []
    then record q { start = s; complete = true }
    else record q { end_term = s; complete = true })
add_term prev s l = l

-- `AddTermOp`.
unfoldable pub add_term_op : Op → Link → Link
add_term_op o (basic q) = basic (record q { term = record q.term { mod_op = o } })
add_term_op o (grouped q) = grouped (record q { terms = q.terms ++ new_term o [] ∷ [] })
add_term_op o l = l

-- `IsIncomplete`.
unfoldable pub is_incomplete : Link → Bool
is_incomplete (basic q) = not q.complete
is_incomplete (grouped q) = not q.complete
is_incomplete (range q) = q.start == [] || q.end_term == []
is_incomplete (sub q) = not q.complete
is_incomplete (negation op) = false

-- `SetCompleted`.
unfoldable pub set_completed : Link → Link
set_completed (basic q) = basic (record q { complete = true })
set_completed (grouped q) = grouped (record q { complete = true })
set_completed (range q) = range (record q { complete = true })
set_completed (sub q) = sub (record q { complete = true })
set_completed (negation op) = negation op

-- `makeSearchTerm`.
unfoldable pub make_search_term : Text → Text → Text
unfolding join
make_search_term field term = join (field ∷ term ∷ []) (codes ":")
