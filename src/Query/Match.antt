-- ===== src/Query/Match.antt =====
-- src/query.js: matchesQuery and matchesConstraint. Both follow the criteria down, so they are
-- recursive on them; an object in place of a list of criteria stands for its entries one by one.
use objy.Common.{ℕ, ◌+◌, Bool, true, false, not, ◌&&◌, ◌||◌, Option, none, some, if◌then◌else◌, any}
use objy.Common.Text.{Text, text, text_eq}
use objy.Value.{
  Value, undefined, null, bool, num, str, arr, obj, Items, nil, item, Fields, end, field, get_field,
}
use objy.Query.{Js}
use objy.Query.Key.{get_path_value}
use objy.Query.Compare.{values_of, equal}
use objy.Query.Operators.{
  operator_of, is_control, every_of, some_of, nor_of, not_of, count_of, where_of, logic_of, Found,
  matches_operator, plain_constraint, is_undefined, regex_constraint,
}

-- one entry of the criteria, given what the recursion finds for its value
pub record Entry : Type 0 where
  pub every : Bool
  pub exists_one : Bool
  pub nested : Bool
  pub counted : Bool
  pub constraint : Bool

unfoldable pub matches_entry : Text → Entry → Bool
matches_entry key e = elim (logic_of key) [
  | none ↦ e.constraint
  | some every_of ↦ e.every
  | some some_of ↦ e.exists_one
  | some nor_of ↦ not e.exists_one
  | some not_of ↦ not e.nested
  | some count_of ↦ e.counted
  | some where_of ↦ false
]

module _ {N : Type 0} (js : Js N) where
  unfoldable mutual
    unfolding operator_of matches_operator plain_constraint regex_constraint equal matches_entry
        get_path_value get_field

    -- matchesConstraint(actual, expected)
    pub matches_constraint : Value N → Value N → Bool
    matches_constraint actual (arr xs) = any (λ v. some_constraint v xs) (values_of actual)
    matches_constraint actual (obj fs) =
        let by_operators = matches_operators actual fs fs in
        if is_undefined js (get_field (text "$regex") fs)
        then by_operators
        else regex_constraint js actual fs
    matches_constraint actual undefined = plain_constraint js actual undefined
    matches_constraint actual null = plain_constraint js actual null
    matches_constraint actual (bool b) = plain_constraint js actual (bool b)
    matches_constraint actual (num n) = plain_constraint js actual (num n)
    matches_constraint actual (str s) = plain_constraint js actual (str s)

    -- `constraints.some((constraint) => matchesConstraint(value, constraint))`
    pub some_constraint : Value N → Items N → Bool
    some_constraint v nil = false
    some_constraint v (item c cs) = matches_constraint v c || some_constraint v cs

    pub every_constraint : Value N → Items N → Bool
    every_constraint v nil = true
    every_constraint v (item c cs) = matches_constraint v c && every_constraint v cs

    -- the same for an operand that may be no list
    pub some_operand : Value N → Value N → Bool
    some_operand v (arr cs) = some_constraint v cs
    some_operand v c = false

    pub every_operand : Value N → Value N → Bool
    every_operand v (arr cs) = every_constraint v cs
    every_operand v c = false

    -- the loop over the operators of `whole`
    pub matches_operators : Value N → Fields N → Fields N → Bool
    matches_operators actual whole end = true
    matches_operators actual whole (field op operand fs) =
        let found : Found js = record {
          whole = matches_constraint actual operand;
          all = every_operand actual operand;
          some_for = λ v. some_operand v operand;
          query_for = λ v. matches_query v operand;
        } in
        let rest = matches_operators actual whole fs in
        elim (operator_of op) [
          | none ↦ equal js actual (obj whole)
          | some o ↦ matches_operator js o actual operand found && rest
        ]

    -- matchesQuery(object, query)
    pub matches_query : Value N → Value N → Bool
    matches_query object (obj fs) = matches_entries object fs
    matches_query object undefined = true
    matches_query object v = false

    -- the loop over the criteria without the controls
    pub matches_entries : Value N → Fields N → Bool
    matches_entries object end = true
    matches_entries object (field key expected fs) =
        let e : Entry = record {
          every = every_query object expected;
          exists_one = some_query object expected;
          nested = matches_query object expected;
          counted = matches_count object expected;
          constraint = matches_constraint (get_path_value js object key) expected;
        } in
        let rest = matches_entries object fs in
        if is_control key then rest else matches_entry key e && rest

    pub some_entry : Value N → Fields N → Bool
    some_entry object end = false
    some_entry object (field key expected fs) =
        let e : Entry = record {
          every = every_query object expected;
          exists_one = some_query object expected;
          nested = matches_query object expected;
          counted = matches_count object expected;
          constraint = matches_constraint (get_path_value js object key) expected;
        } in
        (is_control key || matches_entry key e) || some_entry object fs

    -- `logicalConstraints(expected).every(...)` and `.some(...)`
    pub every_query : Value N → Value N → Bool
    every_query object (arr cs) = every_item object cs
    every_query object (obj fs) = matches_entries object fs
    every_query object v = true

    pub some_query : Value N → Value N → Bool
    some_query object (arr cs) = some_item object cs
    some_query object (obj fs) = some_entry object fs
    some_query object v = false

    pub every_item : Value N → Items N → Bool
    every_item object nil = true
    every_item object (item c cs) = matches_query object c && every_item object cs

    pub some_item : Value N → Items N → Bool
    some_item object nil = false
    some_item object (item c cs) = matches_query object c || some_item object cs

    -- matchesCount(object, condition)
    pub matches_count : Value N → Value N → Bool
    matches_count object (obj fs) = elim (counted object fs) [
      | none ↦ false
      | some n ↦ counted_constraint n fs
    ]
    matches_count object v = false

    pub counted_constraint : ℕ → Fields N → Bool
    counted_constraint n end = plain_constraint js (num (js.num_of_nat n)) undefined
    counted_constraint n (field key v fs) =
        let here = matches_constraint (num (js.num_of_nat n)) v in
        let later = counted_constraint n fs in
        if text_eq key (text "$constraint") then here else later

    -- how many of `$constraints` match, none where it is no list
    pub counted : Value N → Fields N → Option ℕ
    counted object end = none
    counted object (field key v fs) =
        let here = counted_value object v in
        let later = counted object fs in if text_eq key (text "$constraints") then here else later

    pub counted_value : Value N → Value N → Option ℕ
    counted_value object (arr cs) = some (count_matching object cs)
    counted_value object v = none

    pub count_matching : Value N → Items N → ℕ
    count_matching object nil = 0
    count_matching object (item c cs) =
        let rest = count_matching object cs in if matches_query object c then rest + 1 else rest
