-- ===== src/Store.antt =====
-- src/store.js: the `Store` of databases and collections, the tombstones of dropped ones, and
-- `applyOps`, which groups the operations into runs of one collection and one kind.
pub mod Cells
pub mod Runs
pub mod Address
pub mod Newest
pub mod Converge
use objy.Common.{
  Bool, true, false, not, ◌||◌, ◌&&◌, Option, none, some, List, [], ◌∷◌, ◌++◌, if◌then◌else◌,
  get_or, any, filter_by,
}
use objy.Common.Text.{Text, text_eq}
use objy.Common.Dict.{Dict, get, put, del}
use objy.Collection.{Collection, empty_collection}
use objy.Collection.Batch.{put_objects, delete_objects}
use objy.Op.{Op, Kind, is_delete}

pub record Store (A : Type 0) : Type 0 where
  pub dbs : Dict (Dict (Collection A))
  pub database_tombstones : List Text
  pub collection_tombstones : List (Text × Text)

abbrev pub pair_eq : Text × Text → Text × Text → Bool
pair_eq p q = if text_eq p.0 q.0 then text_eq p.1 q.1 else false

module _ {A : Type 0} where
  unfoldable pub empty_store : Store A
  empty_store = record { dbs = []; database_tombstones = []; collection_tombstones = [] }

  unfoldable pub is_database_deleted : Text → Store A → Bool
  is_database_deleted db st = any (λ t. text_eq t db) st.database_tombstones

  unfoldable pub is_collection_deleted : Text → Text → Store A → Bool
  is_collection_deleted db coll st = any (λ t. pair_eq t (db, coll)) st.collection_tombstones

  -- db(name).collection(name): the collection, made on the first call
  unfoldable pub collection_of : Text → Text → Store A → Collection A
  collection_of db coll st = get_or (get coll (get_or (get db st.dbs) [])) empty_collection

  -- the collection object after it was changed in place
  unfoldable pub store_collection : Text → Text → Collection A → Store A → Store A
  store_collection db coll c st = record st {
    dbs = put db (put coll c (get_or (get db st.dbs) [])) st.dbs;
  }

  -- getCollection(db, coll)
  unfoldable pub get_collection : Text → Text → Store A → Option (Collection A)
  get_collection db coll st = get coll (get_or (get db st.dbs) [])

-- the locals of applyOps; `run_key` is null exactly while the run is empty
pub record Batch (A : Type 0) : Type 0 where
  pub store : Store A
  pub applied : List (Op A)
  pub run_key : Option (Text × Text × Bool)
  pub run : List (Op A)

abbrev pub key_eq : Text × Text × Bool → Text × Text × Bool → Bool
key_eq (d, c, true) (d', c', true) = if text_eq d d' then text_eq c c' else false
key_eq (d, c, false) (d', c', false) = if text_eq d d' then text_eq c c' else false
key_eq _ _ = false

module _ {A : Type 0} where
  unfoldable pub run_rows : Bool → List (Op A) → Collection A → Collection A × List (Op A)
  unfolding put_objects delete_objects
  run_rows true = delete_objects
  run_rows false = put_objects

  -- flush()
  unfoldable pub flush : Batch A → Batch A
  flush b = elim b.run_key [
    | none ↦ b
    | some (db, coll, kind) ↦
        let (c, rows) = run_rows kind b.run (collection_of db coll b.store) in
        record b {
          store = store_collection db coll c b.store;
          applied = b.applied ++ rows;
          run_key = none;
          run = [];
        }
  ]

  unfoldable pub op_key : Op A → Text × Text × Bool
  op_key op = (op.db, op.coll, is_delete op.kind)

  -- `if (runKey && runKey !== key) flush()`
  unfoldable pub flush_if_other : Text × Text × Bool → Batch A → Batch A
  flush_if_other key b = elim b.run_key [
    | none ↦ b
    | some old ↦ if key_eq old key then b else flush b
  ]

  unfoldable pub skipped : Op A → Store A → Bool
  unfolding is_database_deleted is_collection_deleted
  skipped op st = is_database_deleted op.db st || is_collection_deleted op.db op.coll st

  -- one round of the loop
  unfoldable pub batch_op : Op A → Batch A → Batch A
  batch_op op b =
      if skipped op b.store
      then b
      else let b' = flush_if_other (op_key op) b in
        record b' { run_key = some (op_key op); run = b'.run ++ (op ∷ []) }

  unfoldable pub batch_ops : List (Op A) → Batch A → Batch A
  unfolding batch_op
  batch_ops [] b = b
  batch_ops (op ∷ ops) b = batch_ops ops (batch_op op b)

  -- applyOps(ops)
  unfoldable pub apply_ops : List (Op A) → Store A → Store A × List (Op A)
  unfolding batch_ops flush
  apply_ops ops st =
      let b =
        flush (batch_ops ops (record { store = st; applied = []; run_key = none; run = [] })) in
      (b.store, b.applied)
