-- ===== src/Patch.antt =====
-- src/patch.js: patches of an object by dot-notation paths, `$set` and `$unset`.
pub mod Paths
pub mod Apply
use objy.Common.{
  ◌==◌, ℕ, Bool, true, false, not, ◌&&◌, ◌||◌, Option, none, some, List, [], ◌∷◌, ◌++◌,
  if◌then◌else◌, any, length,
}
use objy.Common.Fallible.{Result, ok, err, ◌>>=◌, ◌>>◌, reject_if}
use objy.Common.Text.{Text, text, text_eq}
unfoldable pub use objy.Value.{cons_head, split_dots, get_field}
pub use objy.Value.{
  Value, undefined, null, bool, num, str, arr, obj, Items, nil, item, Fields, end, field,
}

pub data Failure : Type 0 where
  not_plain_body unsupported_key not_plain_set bad_unset empty_path invalid_path protected_root :
      Failure

abbrev pub id_name : Text
id_name = text "_id"

-- `PROTECTED_ROOTS.has(parts[0])`
abbrev pub is_protected : List Text → Bool
is_protected [] = false
is_protected (part ∷ parts) = text_eq part id_name

-- assertPatchPath(path, field), once the path is split
abbrev pub check_parts : List Text → Result Failure (List Text)
check_parts parts =
    if any (λ part. text_eq part []) parts
    then err invalid_path
    else if is_protected parts
    then err protected_root
    else ok parts

abbrev pub check_text : Text → Result Failure (List Text)
check_text [] = err empty_path
check_text (u ∷ us) = check_parts (split_dots (u ∷ us))

module _ {N : Type 0} where
  -- `o[k] = v` and `delete o[k]` on own properties
  unfoldable pub set_field : Text → Value N → Fields N → Fields N
  set_field k v end = field k v end
  set_field k v (field j w fs) = if text_eq j k then field k v fs else field j w (set_field k v fs)

  unfoldable pub delete_field : Text → Fields N → Fields N
  delete_field k end = end
  delete_field k (field j w fs) =
      let rest = delete_field k fs in if text_eq j k then rest else field j w rest

  -- clonePatchValue(value)
  unfoldable mutual
    pub clone : Value N → Value N
    clone undefined = undefined
    clone null = null
    clone (bool b) = bool b
    clone (num n) = num n
    clone (str s) = str s
    clone (arr xs) = arr (clone_items xs)
    clone (obj fs) = obj (clone_fields fs)

    pub clone_items : Items N → Items N
    clone_items nil = nil
    clone_items (item v xs) = item (clone v) (clone_items xs)

    pub clone_fields : Fields N → Fields N
    clone_fields end = end
    clone_fields (field k v fs) = field k (clone v) (clone_fields fs)

  -- the object that setPath goes down into: a fresh one where there is no plain object
  abbrev pub child_or_new : Value N → Fields N
  child_or_new (obj fs) = fs
  child_or_new _ = end

  -- the loop of setPath
  unfoldable pub set_at : List Text → Value N → Fields N → Fields N
  set_at [] value fs = fs
  set_at (part ∷ []) value fs = set_field part value fs
  set_at (part ∷ next ∷ parts) value fs =
      set_field part (obj (set_at (next ∷ parts) value (child_or_new (get_field part fs)))) fs

  -- the loop of unsetPath, which stops where there is no plain object
  abbrev pub as_object : Value N → Option (Fields N)
  as_object (obj fs) = some fs
  as_object _ = none

  unfoldable pub unset_at : List Text → Fields N → Fields N
  unset_at [] fs = fs
  unset_at (part ∷ []) fs = delete_field part fs
  unset_at (part ∷ next ∷ parts) fs = elim (as_object (get_field part fs)) [
    | none ↦ fs
    | some child ↦ set_field part (obj (unset_at (next ∷ parts) child)) fs
  ]

  -- assertPatchPath(path, field)
  unfoldable pub assert_patch_path : Value N → Result Failure (List Text)
  assert_patch_path (str path) = check_text path
  assert_patch_path _ = err empty_path

  -- the `$set` loop
  unfoldable pub set_all : Fields N → Fields N → Result Failure (Fields N)
  unfolding assert_patch_path set_at
  set_all end next = ok next
  set_all (field path value fs) next = do
    parts ← assert_patch_path (str path)
    set_all fs (set_at parts (clone value) next)

  -- the `$unset` loop
  unfoldable pub unset_all : Items N → Fields N → Result Failure (Fields N)
  unfolding assert_patch_path unset_at
  unset_all nil next = ok next
  unset_all (item path xs) next = do
    parts ← assert_patch_path path
    unset_all xs (unset_at parts next)

  -- unsetPaths(value): an object stands for its keys
  abbrev pub key_items : Fields N → Items N
  key_items end = nil
  key_items (field k v fs) = item (str k) (key_items fs)

  unfoldable pub unset_paths : Value N → Result Failure (Items N)
  unset_paths undefined = ok nil
  unset_paths (arr xs) = ok xs
  unset_paths (obj fs) = ok (key_items fs)
  unset_paths _ = err bad_unset

  -- assertSupportedPatchKeys(patch)
  unfoldable pub assert_supported_keys : Fields N → Result Failure (Unit {0})
  assert_supported_keys end = ok tt
  assert_supported_keys (field k v fs) =
      if text_eq k (text "$set") || text_eq k (text "$unset")
      then assert_supported_keys fs
      else err unsupported_key

  -- `patch.$set ?? {}`, which has to be a plain object
  abbrev pub set_of : Value N → Result Failure (Fields N)
  set_of undefined = ok end
  set_of null = ok end
  set_of (obj fs) = ok fs
  set_of _ = err not_plain_set

  abbrev pub plain : Value N → Result Failure (Fields N)
  plain (obj fs) = ok fs
  plain _ = err not_plain_body

  -- applyPatchToObject(current, patch), `current` being the empty object where it is missing
  unfoldable pub apply_patch : Fields N → Value N → Result Failure (Fields N)
  apply_patch current patch = do
    body ← plain patch
    assert_supported_keys body
    let next = delete_field id_name (clone_fields current)
    sets ← set_of (get_field (text "$set") body)
    changed ← set_all sets next
    paths ← unset_paths (get_field (text "$unset") body)
    unset_all paths changed
