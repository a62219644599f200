-- ===== src/Query/Compare.antt =====
-- src/query.js: the operators that compare two values.
use objy.Common.{
  ℕ, ◌+◌, Bool, true, false, not, ◌&&◌, ◌||◌, Option, none, some, List, [], ◌∷◌, if◌then◌else◌, any,
  length,
}
use objy.Common.Text.{Text, text, text_eq, text_gt}
use objy.Value.{
  Value, undefined, null, bool, num, str, arr, obj, Items, nil, item, Fields, end, field, get_field,
}
use objy.Query.{Js}
use objy.Query.Strings.{to_text, to_number, truthy, includes}
use objy.Query.Key.{stable_key, same_key}

abbrev bool_eq : Bool → Bool → Bool
bool_eq true b = b
bool_eq false b = not b

module _ {N : Type 0} where
  abbrev pub list_of : Items N → List (Value N)
  list_of nil = []
  list_of (item v xs) = v ∷ list_of xs

  -- `Array.isArray(value) ? value : [value]`
  abbrev pub values_of : Value N → List (Value N)
  values_of (arr xs) = list_of xs
  values_of v = v ∷ []

  abbrev pub is_nullish_constraint : Value N → Bool
  is_nullish_constraint undefined = true
  is_nullish_constraint null = true
  is_nullish_constraint (str []) = true
  is_nullish_constraint v = false

  -- nullOperator(value)
  unfoldable mutual
    pub null_operator : Value N → Bool
    null_operator undefined = true
    null_operator null = true
    null_operator (str []) = true
    null_operator (arr xs) = all_null xs
    null_operator v = false

    pub all_null : Items N → Bool
    all_null nil = true
    all_null (item v xs) = null_operator v && all_null xs

  abbrev pub is_object : Value N → Bool
  is_object (arr xs) = true
  is_object (obj fs) = true
  is_object v = false

module _ {N : Type 0} (js : Js N) where
  -- `a === b` and `Object.is(a, b)` on values of which one came with the query: two objects are
  -- never the same one
  unfoldable pub strict_eq : Value N → Value N → Bool
  strict_eq undefined undefined = true
  strict_eq null null = true
  strict_eq (bool a) (bool b) = bool_eq a b
  strict_eq (num a) (num b) = js.num_eq a b
  strict_eq (str a) (str b) = text_eq a b
  strict_eq a b = false

  -- `a == b` on a boolean, a number or a string each
  unfoldable pub loose_eq : Value N → Value N → Bool
  unfolding to_number
  loose_eq (str a) (str b) = text_eq a b
  loose_eq a b = js.num_eq (to_number js a) (to_number js b)

  -- equal(left, right) once neither is the same, null-like or an array
  abbrev equal_keys : Value N → Value N → Bool
  equal_keys a b =
      if is_object a || is_object b
      then same_key (stable_key js a) (stable_key js b)
      else loose_eq a b

  abbrev equal_single : Value N → Value N → Bool
  equal_single a b =
      if strict_eq a b
      then true
      else if is_nullish_constraint b
      then null_operator a
      else if is_nullish_constraint a
      then false
      else equal_keys a b

  -- equal(left, right)
  unfoldable mutual
    unfolding strict_eq loose_eq null_operator stable_key

    pub equal : Value N → Value N → Bool
    equal (arr xs) b = some_equal xs b
    equal undefined b = equal_single undefined b
    equal null b = equal_single null b
    equal (bool a) b = equal_single (bool a) b
    equal (num n) b = equal_single (num n) b
    equal (str s) b = equal_single (str s) b
    equal (obj fs) b = equal_single (obj fs) b

    pub some_equal : Items N → Value N → Bool
    some_equal nil b = false
    some_equal (item v xs) b = equal v b || some_equal xs b

  -- `a < b` and `a <= b`: two strings by their units, all else as numbers
  abbrev primitive : Value N → Value N
  primitive (arr xs) = str (to_text js (arr xs))
  primitive (obj fs) = str (to_text js (obj fs))
  primitive v = v

  abbrev less_primitive : Value N → Value N → Bool
  less_primitive (str a) (str b) = text_gt b a
  less_primitive a b = js.num_lt (to_number js a) (to_number js b)

  abbrev at_most_primitive : Value N → Value N → Bool
  at_most_primitive (str a) (str b) = not (text_gt a b)
  at_most_primitive a b = js.num_le (to_number js a) (to_number js b)

  unfoldable pub js_less : Value N → Value N → Bool
  unfolding to_text to_number
  js_less a b = less_primitive (primitive a) (primitive b)

  unfoldable pub js_at_most : Value N → Value N → Bool
  unfolding to_text to_number
  js_at_most a b = at_most_primitive (primitive a) (primitive b)

  -- resolveOperand(value)
  abbrev date_of : Value N → Value N → Value N
  date_of undefined v = v
  date_of d v = num (js.date_parse (to_text js d))

  unfoldable pub resolve_operand : Value N → Value N
  unfolding to_text
  resolve_operand (obj fs) = date_of (get_field (text "$date") fs) (obj fs)
  resolve_operand v = v

  -- `Number.isFinite(dateComparable(value))`, with the number
  unfoldable pub date_comparable : Value N → Option N
  date_comparable (str s) = if js.num_finite (js.date_parse s) then some (js.date_parse s) else none
  date_comparable (num n) = if js.num_finite n then some n else none
  date_comparable v = none

  -- beforeAfter(actual, operand, operator)
  abbrev dates_in_order : Bool → Option N → Option N → Bool
  dates_in_order true (some l) (some r) = js.num_le l r
  dates_in_order false (some l) (some r) = js.num_le r l
  dates_in_order before _ _ = false

  unfoldable pub before_after : Bool → Value N → Value N → Bool
  unfolding date_comparable resolve_operand
  before_after before actual operand =
      dates_in_order before (date_comparable actual) (date_comparable (resolve_operand operand))

  -- contains(actual, expected)
  unfoldable pub contains : Value N → Value N → Bool
  unfolding includes equal to_text
  contains (str s) expected = includes (to_text js expected) s
  contains (arr xs) expected = some_equal xs expected
  contains v expected = false

  -- `stringList(actual).some(test)`
  abbrev text_of : Value N → Option Text
  text_of (str s) = some s
  text_of v = none

  abbrev pub some_string : (Text → Bool) → Value N → Bool
  some_string test actual =
      any (λ v. elim (text_of v) [ none ↦ false | some s ↦ test s ]) (values_of actual)

  -- likeOperator(actual, expected, { ignoreCase })
  unfoldable pub like_operator : Bool → Value N → Value N → Bool
  unfolding includes to_text
  like_operator true actual expected =
      some_string (λ s. includes (js.to_lower (to_text js expected)) (js.to_lower s)) actual
  like_operator false actual expected = some_string (λ s. includes (to_text js expected) s) actual

  -- regexMatches(actual, regex) for the pattern and flags of the expression
  unfoldable pub regex_matches : Value N → Text → Text → Bool
  unfolding to_text
  regex_matches actual pattern flags =
      any (λ v. js.regex_test pattern flags (to_text js v)) (values_of actual)

  -- `flags || ""`
  abbrev or_empty : Value N → Text
  or_empty v = if truthy js v then to_text js v else []

  -- regexFromLegacySpec(spec): the pattern and the flags
  abbrev legacy_spec : Value N → Value N → Fields N → Text × Text
  legacy_spec (str pattern) regex spec = (
    pattern,
    if truthy js (flags_of regex)
        then to_text js (flags_of regex)
        else or_empty (get_field (text "$options") spec),
  )
    where
      flags_of : Value N → Value N
      flags_of (obj fs) = get_field (text "flags") fs
      flags_of v = undefined
  legacy_spec other regex spec = (to_text js regex, or_empty (get_field (text "$options") spec))

  abbrev pattern_of : Value N → Value N
  pattern_of (obj fs) = get_field (text "pattern") fs
  pattern_of v = undefined

  unfoldable pub regex_from_legacy_spec : Fields N → Text × Text
  unfolding to_text truthy get_field
  regex_from_legacy_spec spec =
      legacy_spec (pattern_of (get_field (text "$regex") spec)) (get_field (text "$regex") spec)
        spec

  -- typeOf(value)
  abbrev pub type_of : Value N → Text
  type_of undefined = text "undefined"
  type_of null = text "object"
  type_of (bool b) = text "boolean"
  type_of (num n) = text "number"
  type_of (str s) = text "string"
  type_of (arr xs) = text "array"
  type_of (obj fs) = text "object"

  abbrev count_fields : Fields N → ℕ
  count_fields end = 0
  count_fields (field k v fs) = count_fields fs + 1

  -- sizeOf(value); none is NaN
  abbrev pub size_of : Value N → Option ℕ
  size_of (str s) = some (length s)
  size_of (arr xs) = some (length (list_of xs))
  size_of (obj fs) = some (count_fields fs)
  size_of v = none

  -- existsOperator(value, expected)
  abbrev is_missing : Value N → Bool
  is_missing undefined = true
  is_missing null = true
  is_missing v = false

  unfoldable pub exists_operator : Value N → Value N → Bool
  unfolding truthy
  exists_operator v expected = if truthy js expected then not (is_missing v) else is_missing v

  -- `actual % operand[0] == operand[1]`
  abbrev mod_equals : Value N → Value N → Value N → Bool
  mod_equals actual d undefined = false
  mod_equals actual d null = false
  mod_equals actual d r =
      js.num_eq (js.num_mod (to_number js actual) (to_number js d)) (to_number js r)

  unfoldable pub mod_operator : Value N → Value N → Bool
  unfolding to_number
  mod_operator actual (arr (item d (item r xs))) = mod_equals actual d r
  mod_operator actual operand = false

  -- `regexMatches(actual, regexFromOperand(operand))`
  abbrev operand_pattern : Value N → Value N → Fields N → Bool
  operand_pattern actual (str pattern) spec =
      regex_matches actual pattern (or_empty (get_field (text "flags") spec))
  operand_pattern actual v spec = false

  unfoldable pub regex_from_operand : Value N → Value N → Bool
  unfolding regex_matches truthy to_text
  regex_from_operand actual (str pattern) = regex_matches actual pattern []
  regex_from_operand actual (obj fs) = operand_pattern actual (get_field (text "pattern") fs) fs
  regex_from_operand actual v = false
