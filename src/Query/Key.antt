-- ===== src/Query/Key.antt =====
-- src/query.js: stableKey, which is `JSON.stringify` of the value with its keys sorted, and
-- getPathValue.
use objy.Common.{
  ℕ, ◌+◌, ◌==◌, ◌/◌, ◌%◌, ltb, Bool, true, false, not, ◌&&◌, Option, none, some, List, [], ◌∷◌,
  ◌++◌, if◌then◌else◌,
}
use objy.Common.Decimal.{decimal}
use objy.Common.Text.{Text, text, text_eq}
use objy.Value.{
  Value, undefined, null, bool, num, str, arr, obj, Items, nil, item, Fields, end, field, get_field,
  split_dots,
}
use objy.Query.{Js}

hex_unit : ℕ → ℕ
hex_unit d = if ltb d 10 then 48 + d else 87 + d

-- a unit as `\uXXXX`
unfoldable unicode_escape : ℕ → Text
unfolding hex_unit
unicode_escape u =
    92
    ∷ 117
    ∷ (hex_unit (u / 4096 % 16)
        ∷ hex_unit (u / 256 % 16)
        ∷ hex_unit (u / 16 % 16)
        ∷ hex_unit (u % 16)
        ∷ [])

-- a unit of a string literal that is no half of a surrogate pair
unfoldable escape_unit : ℕ → Text
unfolding unicode_escape
escape_unit u =
    if u == 34
    then 92 ∷ 34 ∷ []
    else if u == 92
    then 92 ∷ 92 ∷ []
    else if u == 8
    then 92 ∷ text "b"
    else if u == 12
    then 92 ∷ text "f"
    else if u == 10
    then 92 ∷ text "n"
    else if u == 13
    then 92 ∷ text "r"
    else if u == 9
    then 92 ∷ text "t"
    else if ltb u 32
    then unicode_escape u
    else if not (ltb u 0xd800) && ltb u 0xe000
    then unicode_escape u
    else u ∷ []

is_high : ℕ → Bool
is_high u = not (ltb u 0xd800) && ltb u 0xdc00

is_low : ℕ → Bool
is_low u = not (ltb u 0xdc00) && ltb u 0xe000

-- the units between the quotes; a surrogate pair stays as it is, half of one is escaped
unfoldable escape : Text → Text
unfolding escape_unit is_high is_low
escape [] = []
escape (u ∷ []) = escape_unit u
escape (u ∷ v ∷ us) =
    let pair = escape us in
    let single = escape (v ∷ us) in
    if is_high u && is_low v then u ∷ v ∷ pair else escape_unit u ++ single

unfoldable pub quote : Text → Text
unfolding escape
quote s = 34 ∷ (escape s ++ (34 ∷ []))

-- `stableKey(left) === stableKey(right)`
abbrev pub same_key : Option Text → Option Text → Bool
same_key none none = true
same_key (some a) (some b) = text_eq a b
same_key _ _ = false

module _ {N : Type 0} (js : Js N) where
  -- `Object.entries(value).sort(([a], [b]) => a.localeCompare(b))`
  unfoldable insert_field : Text → Value N → Fields N → Fields N
  insert_field k v end = field k v end
  insert_field k v (field j w fs) =
      let later = insert_field k v fs in
      if js.locale_gt k j then field j w later else field k v (field j w fs)

  -- sortForKey(value)
  unfoldable mutual
    unfolding insert_field

    pub sort_for_key : Value N → Value N
    sort_for_key (arr xs) = arr (sort_items xs)
    sort_for_key (obj fs) = obj (sort_fields fs)
    sort_for_key v = v

    pub sort_items : Items N → Items N
    sort_items nil = nil
    sort_items (item v xs) = item (sort_for_key v) (sort_items xs)

    pub sort_fields : Fields N → Fields N
    sort_fields end = end
    sort_fields (field k v fs) = insert_field k (sort_for_key v) (sort_fields fs)

  abbrev item_text : Option Text → Text
  item_text none = text "null"
  item_text (some s) = s

  abbrev with_field : Bool → Text → Option Text → Text → Text → Text
  with_field first k none same more = same
  with_field true k (some s) same more = quote k ++ (text ":" ++ (s ++ more))
  with_field false k (some s) same more = text "," ++ (quote k ++ (text ":" ++ (s ++ more)))

  -- `JSON.stringify(value)`: undefined has no text, is null in an array, and is dropped from an
  -- object
  unfoldable mutual
    unfolding quote

    pub stringify : Value N → Option Text
    stringify undefined = none
    stringify null = some (text "null")
    stringify (bool true) = some (text "true")
    stringify (bool false) = some (text "false")
    stringify (num n) = some (if js.num_finite n then js.num_to_text n else text "null")
    stringify (str s) = some (quote s)
    stringify (arr nil) = some (text "[]")
    stringify (arr (item v xs)) = some (text "[" ++ (item_text (stringify v) ++ stringify_items xs))
    stringify (obj fs) = some (text "{" ++ stringify_fields true fs)

    pub stringify_items : Items N → Text
    stringify_items nil = text "]"
    stringify_items (item v xs) = text "," ++ (item_text (stringify v) ++ stringify_items xs)

    pub stringify_fields : Bool → Fields N → Text
    stringify_fields first end = text "}"
    stringify_fields first (field k v fs) =
        with_field first k (stringify v) (stringify_fields first fs) (stringify_fields false fs)

  -- stableKey(value)
  unfoldable pub stable_key : Value N → Option Text
  unfolding sort_for_key stringify
  stable_key v = stringify (sort_for_key v)

  unfoldable count_items : Items N → ℕ
  count_items nil = 0
  count_items (item v xs) = count_items xs + 1

  -- the item whose index is written so, from `i` on
  unfoldable item_at : Text → ℕ → Items N → Value N
  item_at part i nil = undefined
  item_at part i (item v xs) =
      let later = item_at part (i + 1) xs in if text_eq part (decimal i) then v else later

  -- `cursor[part]`, undefined where the cursor is no object
  unfoldable pub member : Text → Value N → Value N
  unfolding item_at count_items
  member part (arr xs) =
      if text_eq part (text "length")
      then num (js.num_of_nat (count_items xs))
      else item_at part 0 xs
  member part (obj fs) = get_field part fs
  member part v = undefined

  unfoldable follow : List Text → Value N → Value N
  unfolding member
  follow [] v = v
  follow (part ∷ parts) v = follow parts (member part v)

  -- getPathValue(source, path)
  unfoldable pub get_path_value : Value N → Text → Value N
  unfolding follow
  get_path_value source path =
      if text_eq path (text "_id")
      then member path source
      else if text_eq path (text "id")
      then member path source
      else follow (split_dots path) source
