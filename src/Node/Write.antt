-- ===== src/Node/Write.antt =====
-- src/crdt.js: the local writes. An item has the value as the caller gives it and the value that
-- _prepareWriteValue makes of it, where that does not throw.
use objy.Common.{ℕ, ◌+◌, Bool, false, none, some, List, [], ◌∷◌, if◌then◌else◌, any, map}
use objy.Common.Fallible.{Result, ok, ◌>>=◌, ◌>>◌, reject_if}
use objy.Common.Text.{Text, text_eq}
use objy.Common.Dict.{Dict}
use objy.Clock.{Ts, next_ts}
use objy.Collection.{has}
use objy.Op.{Op, Kind, touch, put_obj, del_obj}
use objy.Store.{
  Store, get_collection, collection_of, store_collection, is_database_deleted,
  is_collection_deleted,
}
use objy.Node.{Node, commit_local_ops}

pub record Item (A : Type 0) : Type 0 where
  pub id : Text
  pub given : Dict A
  pub value : Dict A

pub data WriteFailure : Type 0 where
  empty_id : ℕ → WriteFailure
  duplicate_id : ℕ → Text → WriteFailure
  already_exists : Text → WriteFailure
  database_deleted collection_deleted : WriteFailure

-- the ids of a bulk request: none is empty
unfoldable pub check_ids : ℕ → List Text → Result WriteFailure (Unit {0})
check_ids i [] = ok tt
check_ids i (id ∷ ids) = reject_if (text_eq id []) (empty_id i) >> check_ids (i + 1) ids

-- assertUniqueIds(ids)
unfoldable pub assert_unique_ids : ℕ → List Text → List Text → Result WriteFailure (Unit {0})
assert_unique_ids i seen [] = ok tt
assert_unique_ids i seen (id ∷ ids) =
    reject_if (any (λ x. text_eq x id) seen) (duplicate_id i id)
    >> assert_unique_ids (i + 1) (id ∷ seen) ids

-- normalizeIds(ids)
unfoldable pub normalize_ids : List Text → Result WriteFailure (List Text)
unfolding check_ids assert_unique_ids
normalize_ids ids = do check_ids 0 ids; assert_unique_ids 0 [] ids; ok ids

module _ {A : Type 0} where
  -- `Object.keys(value || {}).length ? "putObj" : "touch"`
  abbrev pub write_kind : Dict A → Kind
  write_kind [] = touch
  write_kind (e ∷ value) = put_obj

  -- an operation before it is logged
  abbrev pub unlogged : Kind → Text → Text → Text → Dict A → Ts → Op A
  unlogged kind db coll id value ts = record {
    kind = kind;
    db = db;
    coll = coll;
    id = id;
    value = value;
    ts = ts;
    shard = none;
    from = [];
    seq = 0;
  }

  -- the operations that _writeMany makes, each with a timestamp of its own
  unfoldable pub stamp_items : Text → Text → List (Item A) → Ts → List (Op A) × Ts
  stamp_items db coll [] clock = ([], clock)
  stamp_items db coll (item ∷ items) clock =
      let (clock', ts) = next_ts clock in
      let (ops, clock'') = stamp_items db coll items clock' in
      (unlogged (write_kind item.given) db coll item.id item.value ts ∷ ops, clock'')

  -- assertCollectionWritable(dbName, collName)
  unfoldable pub assert_collection_writable : Text → Text → Store A → Result WriteFailure (Unit {0})
  assert_collection_writable db coll st = do
    reject_if (is_database_deleted db st) database_deleted
    reject_if (is_collection_deleted db coll st) collection_deleted

  -- assertInsertTargetsMissing(collection, items)
  unfoldable pub assert_targets_missing :
      (Text → Bool) → List (Item A) → Result WriteFailure (Unit {0})
  assert_targets_missing present [] = ok tt
  assert_targets_missing present (item ∷ items) =
      reject_if (present item.id) (already_exists item.id) >> assert_targets_missing present items

  -- the loop of removeMany: the operations and the skipped ids
  unfoldable pub stamp_deletes :
      (Text → Bool) → Text → Text → List Text → Ts → (List (Op A) × List Text) × Ts
  stamp_deletes present db coll [] clock = (([], []), clock)
  stamp_deletes present db coll (id ∷ ids) clock =
      let (clock', ts) = next_ts clock in
      let ((ops, skipped), later) = stamp_deletes present db coll ids clock' in
      let ((ops', skipped'), later') = stamp_deletes present db coll ids clock in
      if present id
      then ((unlogged del_obj db coll id [] ts ∷ ops, skipped), later)
      else ((ops', id ∷ skipped'), later')

  abbrev pub is_present : Text → Text → Store A → Text → Bool
  is_present db coll st id = elim (get_collection db coll st) [ none ↦ false | some c ↦ has id c ]

  module _ (shard_for : Text → Text → Text → Text) where
    -- _writeMany(db, coll, items): the logged and the applied operations
    unfoldable pub write_many :
        Text
        → Text
        → List (Item A)
        → Node A
        → Result WriteFailure ((List (Op A) × List (Op A)) × Node A)
    unfolding stamp_items assert_collection_writable
    write_many db coll items n = do
      assert_collection_writable db coll n.db
      let (ops, clock) = stamp_items db coll items n.clock
      ok (commit_local_ops shard_for ops (record n { clock = clock }))

    -- _commitInsertMany(db, coll, objects), once each object has an id. Where an object exists
    -- already, the call throws, and the collection was there before.
    unfoldable pub commit_insert_many :
        Text
        → Text
        → List (Item A)
        → Node A
        → Result WriteFailure ((List (Op A) × List (Op A)) × Node A)
    unfolding write_many normalize_ids assert_targets_missing
    commit_insert_many db coll items n = do
      ids ← normalize_ids (map (λ (item : Item A). item.id) items)
      assert_collection_writable db coll n.db
      let c = collection_of db coll n.db
      assert_targets_missing (λ id. has id c) items
      write_many db coll items (record n { db = store_collection db coll c n.db })

    -- removeMany(db, coll, ids): the applied operations and the skipped ids
    unfoldable pub remove_many :
        Text → Text → List Text → Node A → Result WriteFailure ((List (Op A) × List Text) × Node A)
    unfolding stamp_deletes normalize_ids
    remove_many db coll ids n = do
      given ← normalize_ids ids
      let ((ops, skipped), clock) = stamp_deletes (is_present db coll n.db) db coll given n.clock
      let ((logged, applied), n') = commit_local_ops shard_for ops (record n { clock = clock })
      ok ((applied, skipped), n')
