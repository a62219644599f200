-- ===== src/Collection.antt =====
-- src/store.js: the part of `Collection` that decides what an object is. `meta` maps an id to its
-- last write, its tombstone, its shard and its row id; `rows` is the object row store of
-- src/object-store.js. The cells of an object are the parameter `A`. The collection declares no
-- index, column, vector field or tiering, so what a put stores is the value without its `_id`.
pub mod Version
pub mod Refine
pub mod Ordered
pub mod Batch
pub mod Snapshot
use objy.Common.{
  ℕ, ◌+◌, ◌-◌, ltb, ◌==◌, Bool, true, false, not, ◌&&◌, Option, none, some, List, [], ◌∷◌, ◌++◌,
  length, get_elem?, filter_by, any, if◌then◌else◌, is_some, or_else, get_or,
}
use objy.Common.Text.{Text, text, text_eq}
use objy.Common.Dict.{Dict, get, put, del}
use objy.Clock.{Ts, gt}

pub record Meta : Type 0 where
  pub ts : Option Ts
  pub deleted : Option Ts
  pub shard : Option Text
  pub rid : ℕ

pub record Collection (A : Type 0) : Type 0 where
  pub metas : Dict Meta
  pub id_by_rid : List Text
  pub rows : Dict (Dict A)
  pub live_count : ℕ
  pub shard_ids : Dict (List ℕ)
  pub unsharded_live_count : ℕ

-- a row of `applySnapshotObjects`
pub record SnapshotRow (A : Type 0) : Type 0 where
  pub id : Text
  pub ts : Option Ts
  pub deleted : Option Ts
  pub value : Dict A
  pub shard : Option Text

-- what `read` returns: the fields and the `_id` that is set last
pub record Object (A : Type 0) : Type 0 where
  pub id : Text
  pub fields : Dict A

-- `typeof shard === "string" && shard.length > 0 ? shard : null`
unfoldable pub normalize_shard : Option Text → Option Text
normalize_shard none = none
normalize_shard (some []) = none
normalize_shard (some (u ∷ us)) = some (u ∷ us)

-- `rids.add(rid)` and `rids.delete(rid)` on a `Set`
unfoldable pub set_add : ℕ → List ℕ → List ℕ
set_add r rids = if any (λ x. x == r) rids then rids else rids ++ (r ∷ [])

unfoldable pub set_delete : ℕ → List ℕ → List ℕ
set_delete r rids = filter_by (λ x. not (x == r)) rids

-- `a && !gt(ts, a)`: a stored timestamp that the incoming one does not beat
unfoldable pub blocked : Option Ts → Ts → Bool
unfolding gt
blocked none ts = false
blocked (some last) ts = not (gt (some ts) (some last))

-- an emptied shard is dropped from the map
unfoldable pub drop_if_empty : Text → List ℕ → Dict (List ℕ) → Dict (List ℕ)
drop_if_empty shard [] d = del shard d
drop_if_empty shard (r ∷ rids) d = put shard (r ∷ rids) d

unfoldable pub was_live : Meta → Bool
was_live m = is_some m.ts && not (is_some m.deleted)

abbrev pub opt_text_eq : Option Text → Option Text → Bool
opt_text_eq none none = true
opt_text_eq (some a) (some b) = text_eq a b
opt_text_eq _ _ = false

-- `if (shard) m.shard = normalizeShard(shard)`
abbrev pub shard_after_delete : Option Text → Option Text → Option Text
shard_after_delete none old = old
shard_after_delete (some []) old = old
shard_after_delete (some (u ∷ us)) old = some (u ∷ us)

module _ {A : Type 0} where
  unfoldable pub empty_collection : Collection A
  empty_collection = record {
    metas = [];
    id_by_rid = [];
    rows = [];
    live_count = 0;
    shard_ids = [];
    unsharded_live_count = 0;
  }

  -- _allocateRid and the new entry of _ensureMeta
  unfoldable pub fresh_meta : Text → Collection A → Meta × Collection A
  fresh_meta id s =
      let m : Meta = record { ts = none; deleted = none; shard = none; rid = length s.id_by_rid } in
      (m, record s { metas = put id m s.metas; id_by_rid = s.id_by_rid ++ (id ∷ []) })

  -- _ensureMeta(id)
  unfoldable pub ensure_meta : Text → Collection A → Meta × Collection A
  unfolding fresh_meta
  ensure_meta id s = elim (get id s.metas) [ none ↦ fresh_meta id s | some m ↦ (m, s) ]

  -- _addShardRid(rid, shard)
  unfoldable pub add_shard_rid : ℕ → Option Text → Collection A → Collection A
  unfolding set_add
  add_shard_rid rid none s = record s { unsharded_live_count = s.unsharded_live_count + 1 }
  add_shard_rid rid (some shard) s = record s {
    shard_ids = put shard (set_add rid (get_or (get shard s.shard_ids) [])) s.shard_ids;
  }

  -- _removeShardRid(rid, shard)
  unfoldable pub remove_shard_rid : ℕ → Option Text → Collection A → Collection A
  unfolding set_delete drop_if_empty
  remove_shard_rid rid none s = record s { unsharded_live_count = s.unsharded_live_count - 1 }
  remove_shard_rid rid (some shard) s = elim (get shard s.shard_ids) [
    | none ↦ s
    | some rids ↦ record s { shard_ids = drop_if_empty shard (set_delete rid rids) s.shard_ids }
  ]

  -- `Object.entries(value).filter(([field]) => field !== "_id")`
  unfoldable pub without_id : Dict A → Dict A
  without_id = filter_by (λ e. not (text_eq e.0 (text "_id")))

  -- ObjectRowStore.rebuild: an object with no field has no row
  unfoldable pub rebuild : Text → Dict A → Dict (Dict A) → Dict (Dict A)
  rebuild id [] rows = del id rows
  rebuild id (e ∷ live) rows = put id (e ∷ live) (del id rows)

  -- the bookkeeping at the end of _putObject
  unfoldable pub recount_put : Bool → ℕ → Option Text → Option Text → Collection A → Collection A
  unfolding add_shard_rid remove_shard_rid
  recount_put false rid before next s =
      add_shard_rid rid next (record s { live_count = s.live_count + 1 })
  recount_put true rid before next s =
      if opt_text_eq before next then s else add_shard_rid rid next (remove_shard_rid rid before s)

  -- _putObject once both timestamps let it through
  unfoldable pub commit_put : Text → Dict A → Ts → Option Text → Meta → Collection A → Collection A
  unfolding was_live without_id rebuild recount_put normalize_shard
  commit_put id value ts shard m s =
      let next = or_else (normalize_shard shard) m.shard in
      recount_put (was_live m) m.rid m.shard next (record s {
        metas = put id (record m { ts = some ts; deleted = none; shard = next }) s.metas;
        rows = rebuild id (without_id value) s.rows;
      })

  -- _putObject(id, value, ts, shard)
  unfoldable pub put_object : Text → Dict A → Ts → Option Text → Collection A → Collection A × Bool
  unfolding ensure_meta blocked commit_put
  put_object id value ts shard s =
      let (m, s') = ensure_meta id s in
      if blocked m.deleted ts
      then (s', false)
      else if blocked m.ts ts
      then (s', false)
      else (commit_put id value ts shard m s', true)

  unfoldable pub recount_delete : Bool → ℕ → Option Text → Collection A → Collection A
  unfolding remove_shard_rid
  recount_delete false rid before s = s
  recount_delete true rid before s =
      remove_shard_rid rid before (record s { live_count = s.live_count - 1 })

  unfoldable pub commit_delete : Text → Ts → Option Text → Meta → Collection A → Collection A
  unfolding was_live recount_delete
  commit_delete id ts shard m s = recount_delete (was_live m) m.rid m.shard (record s {
    metas =
        put id (record m { deleted = some ts; shard = shard_after_delete shard m.shard }) s.metas;
    rows = del id s.rows;
  })

  -- _deleteObject(id, ts, shard)
  unfoldable pub delete_object : Text → Ts → Option Text → Collection A → Collection A × Bool
  unfolding ensure_meta blocked commit_delete
  delete_object id ts shard s =
      let (m, s') = ensure_meta id s in
      if blocked (or_else m.deleted m.ts) ts
      then (s', false)
      else (commit_delete id ts shard m s', true)

  -- has(id)
  unfoldable pub has : Text → Collection A → Bool
  has id s = elim (get id s.metas) [ none ↦ false | some m ↦ not (is_some m.deleted) ]

  -- read(id)
  unfoldable pub read : Text → Collection A → Option (Object A)
  read id s = elim (get id s.metas) [
    | none ↦ none
    | some m ↦
        if is_some m.deleted
        then none
        else some (record { id = id; fields = get_or (get id s.rows) [] })
  ]
