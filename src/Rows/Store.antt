-- ===== src/Rows/Store.antt =====
-- src/object-store.js: storing a value, and the rows of a collection.
use objy.Common.{
  ℕ, ◌+◌, ltb, Bool, not, ◌&&◌, ◌||◌, Option, none, some, List, [], ◌∷◌, ◌++◌, if◌then◌else◌,
  length,
}
use objy.Common.Text.{Text, text}
use objy.Common.Dict.{Dict, get, put, del}
use objy.Query.{Js}
use objy.Query.Key.{stable_key}
use objy.Rows.{Options, Directory, should_promote, delete_candidate, release_all}
use objy.Value.{
  Value, undefined, null, bool, num, str, arr, obj, Items, nil, item, Fields, end, field,
}

-- a stored value, the keys that it took from the pool, and the directory
pub record Stored (V N : Type 0) : Type 0 where
  pub value : V
  pub refs : List Text
  pub directory : Directory N

unfoldable pub string_key : Text → Text
string_key s = text "string:" ++ s

abbrev pub short_key : Options → Text → Option Text → Option Text
short_key o kind none = none
short_key o kind (some []) = none
short_key o kind (some (u ∷ us)) =
    if ltb o.max_key_bytes (length (u ∷ us)) then none else some (kind ++ (u ∷ us))

module _ {N : Type 0} where
  abbrev pub count_items : Items N → ℕ
  count_items nil = 0
  count_items (item v xs) = count_items xs + 1

  abbrev pub count_fields : Fields N → ℕ
  count_fields end = 0
  count_fields (field k v fs) = count_fields fs + 1

  -- store(value, refs, path) up to its return of a shared value: that value if there is one, and
  -- the directory
  unfoldable pub share :
      Option Text → Value N → Text → Directory N → Option (Value N × Text) × Directory N
  share none v path d = (none, d)
  share (some key) v path d = elim (get key d.pool) [
    | some p ↦
        (some (p.value, key), record d { pool = put key (record p { refs = p.refs + 1 }) d.pool })
    | none ↦
        let (promoted, d') = should_promote path key d in
        if promoted
        then (
          some (v, key),
          delete_candidate path key
              (record d' { pool = put key (record { value = v; refs = 1 }) d'.pool }),
        )
        else (none, d')
  ]

  -- the end of store: the shared value, or the value as it is stored otherwise
  abbrev pub shared_or :
      Option (Value N × Text) × Directory N → Stored (Value N) N → Stored (Value N) N
  shared_or (some (v, key), d) own = record { value = v; refs = key ∷ []; directory = d }
  shared_or (none, d) own = own

module _ {N : Type 0} (js : Js N) where
  -- keyFor(value)
  unfoldable pub key_for : Value N → Options → Option Text
  unfolding string_key stable_key
  key_for (str s) o = if ltb o.max_string_length (length s) then none else some (string_key s)
  key_for (arr xs) o =
      if o.pool_structured_values
      then short_key o (text "array:") (stable_key js (arr xs))
      else none
  key_for (obj fs) o =
      if o.pool_structured_values
      then short_key o (text "object:") (stable_key js (obj fs))
      else none
  key_for v o = none

  abbrev pub keyed : Value N → Directory N → Option Text
  keyed v d = if d.options.enabled then key_for v d.options else none

  -- whether a container is kept as it is: the directory is off, the value is trusted, or it is
  -- large
  abbrev pub is_kept : Bool → ℕ → Directory N → Bool
  is_kept trusted size d =
      not d.options.enabled
      || ((trusted && not d.options.pool_structured_values)
          || ltb d.options.max_nested_container_entries size)

  abbrev pub as_is : Value N → Directory N → Stored (Value N) N
  as_is v d = record { value = v; refs = []; directory = d }

  -- store(value, refs, path, options), with cloneWithNestedPooling for an array and an object
  unfoldable mutual
    unfolding share

    pub store : Value N → Text → Bool → Directory N → Stored (Value N) N
    store (arr xs) path trusted d =
        let hit = share (keyed (arr xs) d) (arr xs) path d in
        let nested = store_items xs (path ++ text "[]") trusted hit.1 in
        shared_or hit (
          if is_kept trusted (count_items xs) hit.1 then as_is (arr xs) hit.1 else record {
            value = arr nested.value;
            refs = nested.refs;
            directory = nested.directory;
          })
    store (obj fs) path trusted d =
        let hit = share (keyed (obj fs) d) (obj fs) path d in
        let nested = store_fields fs (path ++ text ".") trusted hit.1 in
        shared_or hit (
          if is_kept trusted (count_fields fs) hit.1 then as_is (obj fs) hit.1 else record {
            value = obj nested.value;
            refs = nested.refs;
            directory = nested.directory;
          })
    store (str s) path trusted d =
        let hit = share (keyed (str s) d) (str s) path d in shared_or hit (as_is (str s) hit.1)
    store undefined path trusted d = as_is undefined d
    store null path trusted d = as_is null d
    store (bool b) path trusted d = as_is (bool b) d
    store (num n) path trusted d = as_is (num n) d

    pub store_items : Items N → Text → Bool → Directory N → Stored (Items N) N
    store_items nil path trusted d = record { value = nil; refs = []; directory = d }
    store_items (item v xs) path trusted d =
        let first = store v path trusted d in
        let rest = store_items xs path trusted first.directory in
        record {
          value = item first.value rest.value;
          refs = first.refs ++ rest.refs;
          directory = rest.directory;
        }

    -- the fields of an object whose path, with a dot, is `path`
    pub store_fields : Fields N → Text → Bool → Directory N → Stored (Fields N) N
    store_fields end path trusted d = record { value = end; refs = []; directory = d }
    store_fields (field k v fs) path trusted d =
        let first = store v (path ++ k) trusted d in
        let rest = store_fields fs path trusted first.directory in
        record {
          value = field k first.value rest.value;
          refs = first.refs ++ rest.refs;
          directory = rest.directory;
        }

pub record Row (N : Type 0) : Type 0 where
  pub value : Fields N
  pub refs : List Text

pub record RowStore (N : Type 0) : Type 0 where
  pub rows : Dict (Row N)
  pub value_directory : Directory N

module _ {N : Type 0} where
  -- removeObject(id)
  unfoldable pub remove_object : Text → RowStore N → RowStore N
  remove_object id s = elim (get id s.rows) [
    | none ↦ s
    | some row ↦ record s {
      rows = del id s.rows;
      value_directory = release_all row.refs s.value_directory;
    }
  ]

  abbrev pub live_row : Fields N → Stored (Fields N) N → Text → RowStore N → RowStore N
  live_row end stored id s = s
  live_row (field k v fs) stored id s = record s {
    rows = put id (record { value = stored.value; refs = stored.refs }) s.rows;
    value_directory = stored.directory;
  }

  -- read(id)
  unfoldable pub read : Text → RowStore N → Option (Fields N)
  read id s = elim (get id s.rows) [ none ↦ none | some row ↦ some row.value ]

module _ {N : Type 0} (js : Js N) where
  -- rebuild(id, live, { trusted }); the path of a field at the top is its name
  unfoldable pub rebuild : Text → Fields N → Bool → RowStore N → RowStore N
  rebuild id live trusted s =
      let cleared = remove_object id s in
      live_row live (store_fields js live [] trusted cleared.value_directory) id cleared
