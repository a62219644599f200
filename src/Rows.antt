-- ===== src/Rows.antt =====
-- src/object-store.js: the rows of a collection and the directory of the values that they share. A
-- shared value is the value itself: that rows hold one frozen copy of it is not seen in a value.
pub mod Candidates
pub mod Counted
pub mod Store
pub mod Same
pub mod Faithful
pub mod Lookup
use objy.Common.{
  ℕ, zero, suc, ◌+◌, ◌-◌, leb, ltb, ◌==◌, Bool, true, false, not, ◌&&◌, ◌||◌, Option, none, some,
  List, [], ◌∷◌, ◌++◌, if◌then◌else◌, length, is_some, get_or,
}
use objy.Common.Text.{Text, text, text_eq}
use objy.Common.Dict.{Dict, get, put, del}
use objy.Value.{
  Value, undefined, null, bool, num, str, arr, obj, Items, nil, item, Fields, end, field,
}

pub record Options : Type 0 where
  pub enabled : Bool
  pub min_refs : ℕ
  pub max_entries : ℕ
  pub max_candidates : ℕ
  pub max_candidates_per_path : ℕ
  pub max_paths : ℕ
  pub max_string_length : ℕ
  pub max_key_bytes : ℕ
  pub pool_structured_values : Bool
  pub max_nested_container_entries : ℕ

pub record Pooled (N : Type 0) : Type 0 where
  pub value : Value N
  pub refs : ℕ

pub record Directory (N : Type 0) : Type 0 where
  pub options : Options
  pub pool : Dict (Pooled N)
  pub path_candidates : Dict (Dict ℕ)
  pub candidate_count : ℕ

-- `m.delete(k)` on a map with one entry of a key
unfoldable pub remove_key : {V : Type 0} → Text → Dict V → Dict V
remove_key k [] = []
remove_key k ((j, v) ∷ d) = if text_eq j k then d else (j, v) ∷ remove_key k d

-- `path || "$"`
unfoldable pub path_or_root : Text → Text
path_or_root [] = text "$"
path_or_root (u ∷ us) = u ∷ us

-- the map without its first entry
abbrev pub without_oldest : Dict ℕ → Dict ℕ
without_oldest [] = []
without_oldest (e ∷ es) = es

-- the loop of dropOldestCandidate
unfoldable pub drop_oldest : Dict (Dict ℕ) → Option (Dict (Dict ℕ))
drop_oldest [] = none
drop_oldest ((path, []) ∷ paths) = elim (drop_oldest paths) [
  | none ↦ none
  | some rest ↦ some ((path, []) ∷ rest)
]
drop_oldest ((path, c ∷ cs) ∷ paths) = some ((path, cs) ∷ paths)

module _ {N : Type 0} where
  -- dropOldestCandidate()
  unfoldable pub drop_oldest_candidate : Directory N → Option (Directory N)
  drop_oldest_candidate d = elim (drop_oldest d.path_candidates) [
    | none ↦ none
    | some paths ↦
        some (record d { path_candidates = paths; candidate_count = d.candidate_count - 1 })
  ]

  -- the `while` of rememberCandidate
  unfoldable pub make_room : ℕ → Directory N → Directory N
  make_room zero d = d
  make_room (suc fuel) d =
      if leb d.options.max_candidates d.candidate_count
      then elim (drop_oldest_candidate d) [ none ↦ d | some d' ↦ make_room fuel d' ]
      else d

  -- the candidates of a path that is there
  abbrev pub candidates_at : Text → Directory N → Dict ℕ
  candidates_at path d = get_or (get path d.path_candidates) []

  unfoldable pub set_candidates : Text → Dict ℕ → ℕ → Directory N → Directory N
  set_candidates path candidates count d = record d {
    path_candidates = put path candidates d.path_candidates;
    candidate_count = count;
  }

  -- a path at its limit loses its oldest candidate
  unfoldable pub trim_path : Text → Directory N → Directory N
  trim_path path d =
      if leb d.options.max_candidates_per_path (length (candidates_at path d))
      then set_candidates path (without_oldest (candidates_at path d)) (d.candidate_count - 1) d
      else d

  unfoldable pub add_candidate : Text → Text → ℕ → Directory N → Directory N
  add_candidate path key count d =
      if ltb d.candidate_count d.options.max_candidates
        && ltb (length (candidates_at path d)) d.options.max_candidates_per_path
      then set_candidates path (put key count (candidates_at path d)) (d.candidate_count + 1) d
      else d

  -- rememberCandidate(candidates, key, count), for the candidates of `path`
  unfoldable pub remember_candidate : Text → Text → ℕ → Directory N → Directory N
  remember_candidate path key count d =
      if (d.options.max_candidates == 0) || (d.options.max_candidates_per_path == 0)
      then d
      else if is_some (get key (candidates_at path d))
      then set_candidates path (put key count (candidates_at path d)) d.candidate_count d
      else let room = make_room (d.candidate_count + 1) d in
        if leb room.options.max_candidates room.candidate_count
        then room
        else add_candidate path key count (trim_path path room)

  -- candidatesForPath(path): whether the path may hold candidates, and the directory
  unfoldable pub candidates_for_path : Text → Directory N → Bool × Directory N
  candidates_for_path path d =
      if is_some (get (path_or_root path) d.path_candidates)
      then (true, d)
      else if leb d.options.max_paths (length d.path_candidates)
      then (false, d)
      else (true, record d { path_candidates = put (path_or_root path) [] d.path_candidates })

  -- shouldPromote(path, key)
  unfoldable pub should_promote : Text → Text → Directory N → Bool × Directory N
  should_promote path key d =
      if leb d.options.max_entries (length d.pool)
      then (false, d)
      else let (allowed, d') = candidates_for_path path d in
        let count = get_or (get key (candidates_at (path_or_root path) d')) 0 + 1 in
        if not allowed
        then (false, d')
        else if leb d'.options.min_refs count
        then (true, d')
        else (false, remember_candidate (path_or_root path) key count d')

  -- deleteCandidate(path, key)
  unfoldable pub delete_candidate : Text → Text → Directory N → Directory N
  delete_candidate path key d =
      if is_some (get key (candidates_at (path_or_root path) d))
      then set_candidates (path_or_root path) (remove_key key (candidates_at (path_or_root path) d))
          (d.candidate_count - 1) d
      else d

  -- release(key)
  unfoldable pub release : Text → Directory N → Directory N
  release key d = elim (get key d.pool) [
    | none ↦ d
    | some p ↦
        if leb (p.refs - 1) 0
        then record d { pool = del key d.pool }
        else record d { pool = put key (record p { refs = p.refs - 1 }) d.pool }
  ]

  -- releaseAll(refs)
  unfoldable pub release_all : List Text → Directory N → Directory N
  release_all [] d = d
  release_all (key ∷ refs) d = release_all refs (release key d)
