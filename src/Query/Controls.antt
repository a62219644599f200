-- ===== src/Query/Controls.antt =====
-- src/query.js: the controls that travel with the criteria, and how their numbers are read.
use objy.Common.{
  ℕ, ◌-◌, ◌==◌, if◌then◌else◌, ◌*◌, Bool, true, false, not, ◌&&◌, Option, none, some, List, [], ◌∷◌,
  if◌then◌else◌,
}
use objy.Common.Text.{Text, text, text_eq}
use objy.Value.{Value, undefined, null, num, str, obj, Fields, end, field}
use objy.Query.{Js}
use objy.Query.Strings.{to_number}
use objy.Query.Operators.{is_control}

module _ {N : Type 0} where
  -- the entries that are controls, or that are not
  unfoldable pub entries_where : Bool → Fields N → Fields N
  entries_where control end = end
  entries_where control (field k v fs) =
      let rest = entries_where control fs in
      if (if control then is_control k else not (is_control k)) then field k v rest else rest

  -- stripQueryControls(query)
  unfoldable pub strip_query_controls : Value N → Value N
  unfolding entries_where
  strip_query_controls (obj fs) = obj (entries_where false fs)
  strip_query_controls undefined = obj end
  strip_query_controls v = v

  -- splitQueryControls(query): the criteria and the controls
  unfoldable pub split_query_controls : Value N → Fields N × Fields N
  unfolding entries_where
  split_query_controls (obj fs) = (entries_where false fs, entries_where true fs)
  split_query_controls v = (end, end)

-- a field to sort by, and whether it goes down
pub record Sorting : Type 0 where
  pub sort_by : Text
  pub descending : Bool

abbrev without_plus : Text → Text
without_plus [] = []
without_plus (u ∷ us) = if u == 43 then us else u ∷ us

-- a leading minus sign goes down, a leading plus sign is dropped
abbrev sort_text : Text → Option Sorting
sort_text [] = none
sort_text (u ∷ us) =
    if u == 45
    then some (record { sort_by = us; descending = true })
    else some (record { sort_by = without_plus (u ∷ us); descending = false })

module _ {N : Type 0} (js : Js N) where
  -- `direction === -1 || direction === "desc"`
  abbrev is_down : Value N → Bool
  is_down (num n) = js.num_eq n (js.num_of_text (text "-1"))
  is_down (str s) = text_eq s (text "desc")
  is_down v = false

  abbrev sort_entry : Text → Value N → Option Sorting
  sort_entry [] v = none
  sort_entry (u ∷ us) v = some (record { sort_by = u ∷ us; descending = is_down v })

  -- parseQuerySort(value)
  unfoldable pub parse_query_sort : Value N → Option Sorting
  parse_query_sort (str s) = sort_text s
  parse_query_sort (obj (field k v fs)) = sort_entry k v
  parse_query_sort v = none

  abbrev integer_of : N → Option ℕ
  integer_of n =
      if js.num_finite n && js.num_le (js.num_of_nat 0) n then some (js.num_floor n) else none

  -- queryInteger(value)
  unfoldable pub query_integer : Value N → Option ℕ
  unfolding to_number
  query_integer undefined = none
  query_integer null = none
  query_integer (str []) = none
  query_integer v = integer_of (to_number js v)

  -- firstQueryInteger(...values)
  unfoldable pub first_query_integer : List (Value N) → Option ℕ
  unfolding query_integer
  first_query_integer [] = none
  first_query_integer (v ∷ vs) =
      let later = first_query_integer vs in
      elim (query_integer v) [ none ↦ later | some n ↦ some n ]

  -- queryPageOffset(page, pageSize)
  unfoldable pub query_page_offset : Value N → Option ℕ → Option ℕ
  unfolding query_integer
  query_page_offset page none = none
  query_page_offset page (some size) = elim (query_integer page) [
    | none ↦ none
    | some p ↦ some ((p - 1) * size)
  ]
