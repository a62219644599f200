-- ===== src/Query/Strings.antt =====
-- The methods of strings that src/query.js calls, and the conversions to a string or a number.
use objy.Common.{◌==◌, Bool, true, false, [], ◌∷◌, ◌++◌, if◌then◌else◌}
use objy.Common.Text.{Text, text, text_eq}
use objy.Value.{Value, undefined, null, bool, num, str, arr, obj, Items, nil, item}
use objy.Query.{Js}

-- `hay.startsWith(needle)`
unfoldable pub starts_with : Text → Text → Bool
starts_with [] hay = true
starts_with (n ∷ ns) [] = false
starts_with (n ∷ ns) (h ∷ hs) = if n == h then starts_with ns hs else false

-- `hay.endsWith(needle)`
unfoldable pub ends_with : Text → Text → Bool
ends_with needle [] = text_eq needle []
ends_with needle (h ∷ hs) =
    let later = ends_with needle hs in if text_eq needle (h ∷ hs) then true else later

-- `hay.includes(needle)`
unfoldable pub includes : Text → Text → Bool
unfolding starts_with
includes needle [] = text_eq needle []
includes needle (h ∷ hs) =
    let later = includes needle hs in if starts_with needle (h ∷ hs) then true else later

module _ {N : Type 0} (js : Js N) where
  -- `String(value)`; the items of an array are joined, where undefined and null are empty
  unfoldable mutual
    pub to_text : Value N → Text
    to_text undefined = text "undefined"
    to_text null = text "null"
    to_text (bool true) = text "true"
    to_text (bool false) = text "false"
    to_text (num n) = js.num_to_text n
    to_text (str s) = s
    to_text (arr xs) = join_items xs
    to_text (obj fs) = text "[object Object]"

    pub join_items : Items N → Text
    join_items nil = []
    join_items (item undefined xs) = more_items xs
    join_items (item null xs) = more_items xs
    join_items (item v xs) = to_text v ++ more_items xs

    pub more_items : Items N → Text
    more_items nil = []
    more_items (item undefined xs) = text "," ++ more_items xs
    more_items (item null xs) = text "," ++ more_items xs
    more_items (item v xs) = text "," ++ (to_text v ++ more_items xs)

  -- `Number(value)`
  unfoldable pub to_number : Value N → N
  unfolding to_text
  to_number undefined = js.nan
  to_number null = js.num_of_nat 0
  to_number (bool true) = js.num_of_nat 1
  to_number (bool false) = js.num_of_nat 0
  to_number (num n) = n
  to_number (str s) = js.num_of_text s
  to_number v = js.num_of_text (to_text v)

  -- `Boolean(value)`
  unfoldable pub truthy : Value N → Bool
  truthy undefined = false
  truthy null = false
  truthy (bool b) = b
  truthy (num n) = js.num_truthy n
  truthy (str []) = false
  truthy (str (u ∷ us)) = true
  truthy (arr xs) = true
  truthy (obj fs) = true
