-- ===== src/Query/Operators.antt =====
-- src/query.js: the operators of a constraint, the controls and the logical keys of criteria, and
-- matchesOperator, which is given what the recursion of Query/Match.antt finds for the operand.
use objy.Common.{
  ℕ, Bool, true, false, not, ◌&&◌, Option, none, some, List, [], ◌∷◌, if◌then◌else◌, any,
}
use objy.Common.Text.{Text, text, text_eq}
use objy.Common.Dict.{Dict, get}
use objy.Value.{Value, undefined, str, arr, item, Fields}
use objy.Query.{Js}
use objy.Query.Strings.{to_text, to_number, truthy, starts_with, ends_with}
use objy.Query.Key.{stable_key, same_key}
use objy.Query.Compare.{
  list_of, values_of, is_nullish_constraint, null_operator, strict_eq, equal, js_less, js_at_most,
  resolve_operand, before_after, contains, some_string, like_operator, regex_matches,
  regex_from_legacy_spec, regex_from_operand, type_of, size_of, exists_operator, mod_operator,
}

pub data Operator : Type 0 where
  callback deep_equals equals differs none_of all_of any_of is_null among like_i like starts ends :
      Operator
  elem_match holds not_among regex at_least above below at_most before after has_type has_size
        modulo :
      Operator
  between exists : Operator

-- the set rhsOperators, with what matchesOperator does for each
abbrev operators : Dict Operator
operators =
    (text "$cb", callback)
    ∷ (text "$deepEquals", deep_equals)
    ∷ (text "$eq", equals)
    ∷ (text "$equal", equals)
    ∷ (text "$ne", differs)
    ∷ (text "$not", differs)
    ∷ (text "$nor", none_of)
    ∷ (text "$and", all_of)
    ∷ (text "$or", any_of)
    ∷ (text "$any", any_of)
    ∷ (text "$all", all_of)
    ∷ (text "$null", is_null)
    ∷ (text "$in", among)
    ∷ (text "$likeI", like_i)
    ∷ (text "$like", like)
    ∷ (text "$startsWith", starts)
    ∷ (text "$endsWith", ends)
    ∷ (text "$elemMatch", elem_match)
    ∷ (text "$contains", holds)
    ∷ (text "$nin", not_among)
    ∷ (text "$regex", regex)
    ∷ (text "$gte", at_least)
    ∷ (text "$gt", above)
    ∷ (text "$lt", below)
    ∷ (text "$lte", at_most)
    ∷ (text "$before", before)
    ∷ (text "$after", after)
    ∷ (text "$type", has_type)
    ∷ (text "$size", has_size)
    ∷ (text "$mod", modulo)
    ∷ (text "$between", between)
    ∷ (text "$exists", exists)
    ∷ []

unfoldable pub operator_of : Text → Option Operator
operator_of op = get op operators

-- the set queryControls
abbrev controls : List Text
controls =
    text "$aggregate"
    ∷ text "$cursor"
    ∷ text "$limit"
    ∷ text "$offset"
    ∷ text "$page"
    ∷ text "$pageSize"
    ∷ text "$refDepth"
    ∷ text "$skip"
    ∷ text "$sort"
    ∷ text "$vector"
    ∷ []

unfoldable pub is_control : Text → Bool
is_control key = any (λ c. text_eq c key) controls

pub data Logic : Type 0 where
  every_of some_of nor_of not_of count_of where_of : Logic

-- the keys that matchesQuery treats by themselves
abbrev logic_keys : Dict Logic
logic_keys =
    (text "$and", every_of)
    ∷ (text "$or", some_of)
    ∷ (text "$nor", nor_of)
    ∷ (text "$not", not_of)
    ∷ (text "$count", count_of)
    ∷ (text "$where", where_of)
    ∷ []

unfoldable pub logic_of : Text → Option Logic
logic_of key = get key logic_keys

module _ {N : Type 0} (js : Js N) where
  -- what the recursion finds for the operand of an operator
  pub record Found : Type 0 where
    pub whole : Bool
    pub all : Bool
    pub some_for : Value N → Bool
    pub query_for : Value N → Bool

  abbrev is_array : Value N → Bool
  is_array (arr xs) = true
  is_array v = false

  abbrev items_of : Value N → List (Value N)
  items_of (arr xs) = list_of xs
  items_of v = []

  abbrev same_text : Value N → Text → Bool
  same_text (str s) t = text_eq t s
  same_text v t = false

  abbrev same_size : Value N → Option ℕ → Bool
  same_size v none = false
  same_size v (some n) = js.num_eq (js.num_of_nat n) (to_number js v)

  abbrev between_operands : Value N → Value N → Bool
  between_operands actual (arr (item lo (item hi xs))) =
      (not (null_operator actual) && js_less js (resolve_operand js lo) actual)
      && (not (null_operator actual) && js_less js actual (resolve_operand js hi))
  between_operands actual v = false

  -- matchesOperator(operator, actual, operand)
  unfoldable pub matches_operator : Operator → Value N → Value N → Found → Bool
  unfolding null_operator equal stable_key truthy to_text to_number js_less js_at_most
      resolve_operand before_after contains like_operator regex_from_operand exists_operator
      mod_operator starts_with ends_with
  matches_operator callback actual operand f = false
  matches_operator deep_equals actual operand f =
      same_key (stable_key js actual) (stable_key js operand)
  matches_operator equals actual operand f = equal js actual operand
  matches_operator differs actual operand f = not f.whole
  matches_operator none_of actual operand f = not (any f.some_for (values_of actual))
  matches_operator all_of actual operand f = f.all
  matches_operator any_of actual operand f = any f.some_for (values_of actual)
  matches_operator is_null actual operand f =
      if truthy js operand then null_operator actual else not (null_operator actual)
  matches_operator among actual operand f = any f.some_for (values_of actual)
  matches_operator like_i actual operand f = like_operator js true actual operand
  matches_operator like actual operand f = like_operator js false actual operand
  matches_operator starts actual operand f =
      some_string js (λ s. starts_with (to_text js operand) s) actual
  matches_operator ends actual operand f =
      some_string js (λ s. ends_with (to_text js operand) s) actual
  matches_operator elem_match actual operand f = any f.query_for (items_of actual)
  matches_operator holds actual operand f = contains js actual operand
  matches_operator not_among actual operand f = not (any f.some_for (values_of actual))
  matches_operator regex actual operand f = regex_from_operand js actual operand
  matches_operator at_least actual operand f =
      not (null_operator actual) && js_at_most js (resolve_operand js operand) actual
  matches_operator above actual operand f =
      not (null_operator actual) && js_less js (resolve_operand js operand) actual
  matches_operator below actual operand f =
      not (null_operator actual) && js_less js actual (resolve_operand js operand)
  matches_operator at_most actual operand f =
      not (null_operator actual) && js_at_most js actual (resolve_operand js operand)
  matches_operator before actual operand f = before_after js true actual operand
  matches_operator after actual operand f = before_after js false actual operand
  matches_operator has_type actual operand f = same_text operand (type_of js actual)
  matches_operator has_size actual operand f = same_size operand (size_of js actual)
  matches_operator modulo actual operand f = mod_operator js actual operand
  matches_operator between actual operand f = between_operands actual operand
  matches_operator exists actual operand f = exists_operator js actual operand

  -- the end of matchesConstraint, for an expected value that is no object
  unfoldable pub plain_constraint : Value N → Value N → Bool
  unfolding strict_eq equal null_operator
  plain_constraint actual expected =
      if strict_eq js actual expected
      then true
      else if is_array actual
      then any (λ entry. equal js entry expected) (items_of actual)
      else if is_nullish_constraint expected
      then null_operator actual
      else equal js actual expected

  abbrev pub is_undefined : Value N → Bool
  is_undefined undefined = true
  is_undefined v = false

  unfoldable pub regex_constraint : Value N → Fields N → Bool
  unfolding regex_from_legacy_spec regex_matches
  regex_constraint actual spec =
      let r = regex_from_legacy_spec js spec in regex_matches js actual r.0 r.1
