-- ===== src/Tests/Patches.antt =====
-- Patches of an object with an `_id`: src/patch.js.
use objy.Common.{ℕ, ◌≡◌, refl, List, [], ◌∷◌}
use objy.Common.Fallible.{ok}
use objy.Common.Text.{Text, text, text_eq}
use objy.Patch.{
  Value, undefined, num, str, obj, Fields, end, field, get_field, set_field, delete_field,
  split_dots, id_name, apply_patch, set_all, unset_all, unset_paths, assert_supported_keys,
  clone_fields,
}
use objy.Patch.Paths.{get_at}
use objy.Patch.Apply.{patched_without_id, patched_value}

-- { _id: "u1", name: { first: "Ada" } }
abbrev current : Fields ℕ
current =
    field (text "_id") (str (text "u1"))
      (field (text "name") (obj (field (text "first") (str (text "Ada")) end)) end)

abbrev name_first : List Text
name_first = text "name" ∷ text "first" ∷ []

abbrev patch : Value ℕ
patch = obj (field (text "$set") (obj (field (text "name.last") (num 3) end)) end)

abbrev patched : Fields ℕ
patched =
    field (text "name")
      (obj (field (text "first") (str (text "Ada")) (field (text "last") (num 3) end))) end

patch_run : apply_patch current patch ≡ ok patched
unfolding apply_patch assert_supported_keys get_field text_eq set_all unset_paths unset_all
    delete_field clone_fields split_dots set_field
patch_run = refl

patched_without_id_example : get_field id_name patched ≡ undefined
patched_without_id_example = patched_without_id current patch patched patch_run

patched_value_example : get_at (split_dots (text "name.last")) patched ≡ num 3
patched_value_example = patched_value current (text "name.last") (num 3) patched patch_run
