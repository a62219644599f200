-- ===== src/Patch/Apply.antt =====
-- The patch of an object as a whole.
use objy.Common.{
  ◌==◌, ◌≡◌, refl, ap, ap₂, ◌∙◌, false, List, [], ◌∷◌, arith, Bool-cases, Option-cases, inl, inr,
}
use objy.Common.Fallible.{ok, bind-ok, then-ok}
use objy.Common.Text.{Text, text, text_eq, text_eq_refl}
use objy.Patch.{
  Value, undefined, null, bool, num, str, arr, obj, Items, nil, item, Fields, end, field, get_field,
  delete_field, clone, clone_items, clone_fields, set_at, unset_at, split_dots, is_protected,
  id_name, check_parts, assert_patch_path, set_all, unset_all, unset_paths, assert_supported_keys,
  set_of, plain, apply_patch, as_object,
}
use objy.Patch.Paths.{
  get_field-set_field, get_field-delete_field, get_at, get_at-set_at, unset_at-some, unset_at-none,
}

mutual
  unfolding clone

  clone_value_lem : {N : Type 0} (v : Value N) → clone v ≡ v
  clone_value_lem undefined = refl
  clone_value_lem null = refl
  clone_value_lem (bool b) = refl
  clone_value_lem (num n) = refl
  clone_value_lem (str s) = refl
  clone_value_lem (arr xs) = ap arr (clone_items_lem xs)
  clone_value_lem (obj fs) = ap obj (clone_fields_lem fs)

  clone_items_lem : {N : Type 0} (xs : Items N) → clone_items xs ≡ xs
  clone_items_lem nil = refl
  clone_items_lem (item v xs) = ap₂ item (clone_value_lem v) (clone_items_lem xs)

  clone_fields_lem : {N : Type 0} (fs : Fields N) → clone_fields fs ≡ fs
  clone_fields_lem end = refl
  clone_fields_lem (field k v fs) = ap₂ (field k) (clone_value_lem v) (clone_fields_lem fs)

-- splitting yields a first part
split_dots-cons : (path : Text) → (p : Text) × (ps : List Text) × (split_dots path ≡ p ∷ ps)
unfolding split_dots
split_dots-cons [] = ([], [], refl)
split_dots-cons (u ∷ us) = elim (Bool-cases (u == 46)) [
  | inl e ↦ ([], split_dots us, rw e)
  | inr e ↦ let (p, ps, f) = split_dots-cons us in (u ∷ p, ps, rw (e, f))
]

accepted_parts :
    (N : Type 0) (path : Text) (parts : List Text)
    → assert_patch_path {N = N} (str path) ≡ ok parts
    → split_dots path ≡ parts
unfolding assert_patch_path
accepted_parts N [] parts h = cc
accepted_parts N (u ∷ us) parts h = checked (split_dots (u ∷ us)) h
  where
    checked : (ps : List Text) → check_parts ps ≡ ok parts → ps ≡ parts
    checked ps h = ground arith

module _ {N : Type 0} where
  -- a path that passes leads neither to `_id` nor below it
  unprotected :
      (path : Value N) (parts : List Text)
      → assert_patch_path path ≡ ok parts
      → is_protected parts ≡ false
  unfolding assert_patch_path
  unprotected (str []) parts h = cc
  unprotected (str (u ∷ us)) parts h = checked (split_dots (u ∷ us)) h
    where
      checked : (ps : List Text) → check_parts ps ≡ ok parts → is_protected parts ≡ false
      checked ps h = ground arith
  unprotected undefined parts h = cc
  unprotected null parts h = cc
  unprotected (bool b) parts h = cc
  unprotected (num n) parts h = cc
  unprotected (arr xs) parts h = cc
  unprotected (obj fs) parts h = cc

  id-set_at :
      (parts : List Text) (v : Value N) (fs : Fields N)
      → is_protected parts ≡ false
      → get_field id_name (set_at parts v fs) ≡ get_field id_name fs
  unfolding set_at
  id-set_at [] v fs h = refl
  id-set_at (p ∷ []) v fs h = rw (get_field-set_field, h)
  id-set_at (p ∷ q ∷ ps) v fs h = rw (get_field-set_field, h)

  id-unset_at :
      (parts : List Text) (fs : Fields N)
      → is_protected parts ≡ false
      → get_field id_name (unset_at parts fs) ≡ get_field id_name fs
  id-unset_at [] fs h = unfold unset_at in refl
  id-unset_at (p ∷ []) fs h = unfold unset_at in rw (get_field-delete_field, h)
  id-unset_at (p ∷ q ∷ ps) fs h = elim (Option-cases (as_object (get_field p fs))) [
    | inl e ↦ rw (unset_at-none p q ps fs e)
    | inr (child, e) ↦ rw (unset_at-some p q ps fs child e) (rw (get_field-set_field, h))
  ]

  id-set_all :
      (sets fs next : Fields N)
      → set_all sets fs ≡ ok next
      → get_field id_name next ≡ get_field id_name fs
  unfolding set_all
  id-set_all end fs next h = cc
  id-set_all (field path v sets) fs next h =
      let (parts, p, q) =
        bind-ok (assert_patch_path {N = N} (str path)) (λ ps. set_all sets (set_at ps (clone v) fs))
          h in
      id-set_all sets (set_at parts (clone v) fs) next q
      ∙ id-set_at parts (clone v) fs (unprotected (str path) parts p)

  id-unset_all :
      (paths : Items N) (fs next : Fields N)
      → unset_all paths fs ≡ ok next
      → get_field id_name next ≡ get_field id_name fs
  unfolding unset_all
  id-unset_all nil fs next h = cc
  id-unset_all (item path paths) fs next h =
      let (parts, p, q) =
        bind-ok (assert_patch_path path) (λ ps. unset_all paths (unset_at ps fs)) h in
      id-unset_all paths (unset_at parts fs) next q
      ∙ id-unset_at parts fs (unprotected path parts p)

  -- A patched object has no `_id` of its own, whatever the patch: the caller's id stands.
  pub patched_without_id :
      (current : Fields N) (patch : Value N) (next : Fields N)
      → apply_patch current patch ≡ ok next
      → get_field id_name next ≡ undefined
  unfolding apply_patch
  patched_without_id current patch next h =
      let (body, _, h1) = bind-ok (plain patch) _ h in
      let (_, h2) = then-ok (assert_supported_keys body) _ h1 in
      let (sets, _, h3) = bind-ok (set_of (get_field (text "$set") body)) _ h2 in
      let (changed, s, h4) =
        bind-ok (set_all sets (delete_field id_name (clone_fields current))) _ h3 in
      let (paths, _, h5) = bind-ok (unset_paths (get_field (text "$unset") body)) _ h4 in
      id-unset_all paths changed next h5
      ∙ id-set_all sets (delete_field id_name (clone_fields current)) changed s
      ∙ get_field-delete_field id_name id_name (clone_fields current)
      ∙ rw (text_eq_refl id_name)

  get_at-set_path :
      (path : Text) (value : Value N) (fs : Fields N)
      → get_at (split_dots path) (set_at (split_dots path) (clone value) fs) ≡ value
  get_at-set_path path value fs =
      let (p, ps, e) = split_dots-cons path in
      rw e (get_at-set_at p ps (clone value) fs ∙ clone_value_lem value)

  -- what an accepted patch of one `$set` path makes of an object
  patched_set :
      (current : Fields N) (path : Text) (value : Value N) (next : Fields N)
      → apply_patch current (obj (field (text "$set") (obj (field path value end)) end)) ≡ ok next
      → next ≡ set_at (split_dots path) (clone value) (delete_field id_name (clone_fields current))
  unfolding apply_patch assert_supported_keys get_field text_eq set_all unset_paths unset_all
  patched_set current path value next h =
      let fs = delete_field id_name (clone_fields current) in
      let (changed, s, e) =
        bind-ok (set_all (field path value end) fs) (λ (c : Fields N). ok c) h in
      let (parts, a, f) =
        bind-ok (assert_patch_path {N = N} (str path)) (λ ps. ok (set_at ps (clone value) fs)) s in
      cc (e, f, accepted_parts N path parts a)

  -- A patch of one `$set` path that is accepted has the value at that path.
  pub patched_value :
      (current : Fields N) (path : Text) (value : Value N) (next : Fields N)
      → apply_patch current (obj (field (text "$set") (obj (field path value end)) end)) ≡ ok next
      → get_at (split_dots path) next ≡ value
  patched_value current path value next h =
      rw (patched_set current path value next h)
        (get_at-set_path path value (delete_field id_name (clone_fields current)))
