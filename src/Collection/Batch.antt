-- ===== src/Collection/Batch.antt =====
-- src/store.js: `putObjects` and `deleteObjects` apply the rows of a run one after the other, and
-- return the rows that were applied. A row is the operation that it was made from.
use objy.Common.{◌≡◌, refl, Bool, true, false, List, [], ◌∷◌, ◌++◌, if◌then◌else◌, arith}
use objy.Common.Text.{Text, text_eq}
use objy.Collection.{Collection, put_object, delete_object}
use objy.Collection.Version.{absorb, version, IsOrdered}
use objy.Collection.Refine.{put_object-absorb, delete_object-absorb}
use objy.Collection.Ordered.{put_object-IsOrdered, delete_object-IsOrdered}
use objy.Op.{Op, is_delete, op_value, written}

module _ {A : Type 0} where
  unfoldable pub put_row : Op A → Collection A → Collection A × Bool
  put_row op = put_object op.id (op_value op) op.ts op.shard

  unfoldable pub delete_row : Op A → Collection A → Collection A × Bool
  delete_row op = delete_object op.id op.ts op.shard

  unfoldable pub row_writer : Bool → Op A → Collection A → Collection A × Bool
  unfolding put_row delete_row
  row_writer true = delete_row
  row_writer false = put_row

  -- the loop of both, over the writer of one row
  unfoldable pub apply_rows :
      (Op A → Collection A → Collection A × Bool)
      → List (Op A)
      → Collection A
      → Collection A × List (Op A)
  apply_rows write [] s = (s, [])
  apply_rows write (op ∷ ops) s =
      let (s', ok) = write op s in
      let (s'', applied) = apply_rows write ops s' in (s'', if ok then op ∷ applied else applied)

  -- putObjects(rows)
  unfoldable pub put_objects : List (Op A) → Collection A → Collection A × List (Op A)
  unfolding put_row apply_rows
  put_objects = apply_rows put_row

  -- deleteObjects(rows)
  unfoldable pub delete_objects : List (Op A) → Collection A → Collection A × List (Op A)
  unfolding delete_row apply_rows
  delete_objects = apply_rows delete_row

  -- Rows in two parts are the rows of one part after the other.
  pub apply_rows-append :
      (write : Op A → Collection A → Collection A × Bool) (xs ys : List (Op A)) (s : Collection A)
      → apply_rows write (xs ++ ys) s ≡ (
        (apply_rows write ys (apply_rows write xs s).0).0,
        (apply_rows write xs s).1 ++ (apply_rows write ys (apply_rows write xs s).0).1,
      )
  unfolding apply_rows
  apply_rows-append write [] ys s = refl
  apply_rows-append write (x ∷ xs) ys s =
      rw (apply_rows-append write xs ys (write x s).0) (ground arith)

  -- One row absorbs what its operation writes, at its own id.
  pub row-absorb :
      (op : Op A) (j : Text) (s : Collection A)
      → IsOrdered s
      → version j (row_writer (is_delete op.kind) op s).0
        ≡ (if text_eq op.id j then absorb (version op.id s) (written op) else version j s)
  unfolding row_writer written
  row-absorb op j s w = ground (
    arith,
    (put_object-absorb op.id j (op_value op) op.ts op.shard s w).0,
    (delete_object-absorb op.id j op.ts op.shard s).0,
  )

  pub row-IsOrdered :
      (op : Op A) (s : Collection A)
      → IsOrdered s
      → IsOrdered (row_writer (is_delete op.kind) op s).0
  unfolding row_writer
  row-IsOrdered op s w = go (is_delete op.kind)
    where
      go : (b : Bool) → IsOrdered (row_writer b op s).0
      go true = delete_object-IsOrdered op.id op.ts op.shard s w
      go false = put_object-IsOrdered op.id (op_value op) op.ts op.shard s w
