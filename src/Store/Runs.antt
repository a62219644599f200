-- ===== src/Store/Runs.antt =====
-- `applyOps` groups operations into runs; that is the same as to apply them one at a time.
use objy.Common.{
  ◌≡◌, ◌⊎◌, refl, Bool, true, false, none, some, List, [], ◌∷◌, ◌++◌, if◌then◌else◌, arith,
  append-nil, append_assoc, Bool-cases, Option-cases, inl, inr, ap, ◌∙◌,
}
use objy.Common.Text.{Text, text_eq_iff}
use objy.Collection.{Collection}
use objy.Collection.Batch.{row_writer, apply_rows-append, put_objects, delete_objects}
use objy.Op.{Op, is_delete}
use objy.Store.{
  Store, Batch, collection_of, store_collection, run_rows, flush, flush_if_other, op_key, key_eq,
  skipped, batch_op, batch_ops, apply_ops,
}
use objy.Store.Cells.{collection_of-store_collection_self, store_collection_twice}

key_eq_sound : (x y : Text × Text × Bool) → key_eq x y ≡ true → x ≡ y
key_eq_sound (d, c, true) (d', c', true) h = ground (arith, text_eq_iff d d', text_eq_iff c c')
key_eq_sound (d, c, false) (d', c', false) h = ground (arith, text_eq_iff d d', text_eq_iff c c')
key_eq_sound (d, c, true) (d', c', false) h = cc
key_eq_sound (d, c, false) (d', c', true) h = cc

module _ {A : Type 0} where
  -- one operation by itself
  unfoldable pub apply_op : Op A → Store A → Store A × List (Op A)
  apply_op op st =
      if skipped op st
      then (st, [])
      else let (c, ok) = row_writer (is_delete op.kind) op (collection_of op.db op.coll st) in
        (store_collection op.db op.coll c st, if ok then op ∷ [] else [])

  unfoldable pub apply_each : List (Op A) → Store A → Store A × List (Op A)
  unfolding apply_op
  apply_each [] st = (st, [])
  apply_each (op ∷ ops) st =
      let (st', a) = apply_op op st in let (st'', rest) = apply_each ops st' in (st'', a ++ rest)

  abbrev IsConsistent : Batch A → Type 0
  IsConsistent b = b.run_key ≡ none → b.run ≡ []

  abbrev done : Batch A → Store A × List (Op A)
  done b = ((flush b).store, (flush b).applied)

  abbrev after : Op A → Store A × List (Op A) → Store A × List (Op A)
  after op r = ((apply_op op r.0).0, r.1 ++ (apply_op op r.0).1)

  run_rows-one :
      (op : Op A) (c : Collection A)
      → run_rows (is_delete op.kind) (op ∷ []) c ≡ (
        (row_writer (is_delete op.kind) op c).0,
        (if (row_writer (is_delete op.kind) op c).1 then op ∷ [] else []),
      )
  unfolding run_rows row_writer
  run_rows-one op c = ground arith

  run_rows-append :
      (k : Bool) (xs ys : List (Op A)) (c : Collection A)
      → run_rows k (xs ++ ys) c ≡ (
        (run_rows k ys (run_rows k xs c).0).0,
        (run_rows k xs c).1 ++ (run_rows k ys (run_rows k xs c).0).1,
      )
  run_rows-append true xs ys c = unfold run_rows delete_objects in apply_rows-append _ xs ys c
  run_rows-append false xs ys c = unfold run_rows put_objects in apply_rows-append _ xs ys c

  pub skipped-store_collection :
      (op : Op A) (db coll : Text) (c : Collection A) (st : Store A)
      → skipped op (store_collection db coll c st) ≡ skipped op st
  unfolding skipped store_collection
  skipped-store_collection op db coll c st = refl

  flushed : Text × Text × Bool → Batch A → Batch A
  flushed k b =
      let r = run_rows k.2 b.run (collection_of k.0 k.1 b.store) in
      record b {
        store = store_collection k.0 k.1 r.0 b.store;
        applied = b.applied ++ r.1;
        run_key = none;
        run = [];
      }

  flush-some : (k : Text × Text × Bool) (b : Batch A) → b.run_key ≡ some k → flush b ≡ flushed k b
  unfolding flush flushed
  flush-some k b e = rw (e, flush)

  flush-none : (b : Batch A) → b.run_key ≡ none → flush b ≡ b
  unfolding flush
  flush-none b e = ground arith

  skipped-flush : (op : Op A) (b : Batch A) → skipped op (flush b).store ≡ skipped op b.store
  unfolding flushed
  skipped-flush op b = elim (Option-cases b.run_key) [
    | inl e ↦ rw (flush-none b e)
    | inr (k, e) ↦ rw (flush-some k b e) (skipped-store_collection op _ _ _ _)
  ]

  abbrev extended : Op A → Batch A → Batch A
  extended op b = record b { run_key = some (op_key op); run = b.run ++ (op ∷ []) }

  pub apply_op-live :
      (op : Op A) (st : Store A)
      → skipped op st ≡ false
      → apply_op op st ≡ (
          let r = row_writer (is_delete op.kind) op (collection_of op.db op.coll st) in
          (store_collection op.db op.coll r.0 st, if r.1 then op ∷ [] else []))
  unfolding apply_op
  apply_op-live op st n = rw n

  -- an operation that joins a run of its own key
  extend-done :
      (op : Op A) (b : Batch A)
      → b.run_key ≡ some (op_key op)
      → skipped op b.store ≡ false
      → done (extended op b) ≡ after op (done b)
  unfolding flushed op_key
  extend-done op b e n =
      rw
        (
          flush-some (op_key op) (extended op b) refl,
          apply_op-live op _ (skipped-flush op b ∙ n),
          flush-some (op_key op) b e,
        )
        (simp (
          run_rows-append, run_rows-one, collection_of-store_collection_self,
          store_collection_twice, append_assoc,
        ))

  -- an operation that begins a run
  begin-done :
      (op : Op A) (b : Batch A)
      → b.run_key ≡ none
      → b.run ≡ []
      → skipped op b.store ≡ false
      → done (extended op b) ≡ after op (done b)
  unfolding flushed op_key
  begin-done op b e r n =
      rw
        (
          flush-some (op_key op) (extended op b) refl,
          apply_op-live op _ (skipped-flush op b ∙ n),
          flush-none b e,
        )
        (rw r (simp run_rows-one))

  batch_op-IsConsistent : (op : Op A) (b : Batch A) → IsConsistent b → IsConsistent (batch_op op b)
  unfolding batch_op
  batch_op-IsConsistent op b h = elim (Bool-cases (skipped op b.store)) [
    | inl e ↦ rw e h
    | inr e ↦ rw e (λ p. cc)
  ]

  flush-run_key : (b : Batch A) → (flush b).run_key ≡ none
  unfolding flush
  flush-run_key b = ground arith

  flush-run : (b : Batch A) → IsConsistent b → (flush b).run ≡ []
  unfolding flushed
  flush-run b h = elim (Option-cases b.run_key) [
    | inl e ↦ rw (flush-none b e) (h e)
    | inr (k, e) ↦ rw (flush-some k b e)
  ]

  batch_op-live :
      (op : Op A) (b : Batch A)
      → skipped op b.store ≡ false
      → batch_op op b ≡ extended op (flush_if_other (op_key op) b)
  unfolding batch_op
  batch_op-live op b n = rw n

  flush_if_other-cases :
      (key : Text × Text × Bool) (b : Batch A)
      → ((flush_if_other key b ≡ b) × ((b.run_key ≡ none) ⊎ (b.run_key ≡ some key)))
        ⊎ (flush_if_other key b ≡ flush b)
  unfolding flush_if_other
  flush_if_other-cases key b = elim (Option-cases b.run_key) [
    | inl e ↦ inl (ground arith, inl e)
    | inr (old, e) ↦ elim (Bool-cases (key_eq old key)) [
      | inl s ↦ inl (ground arith, inr (e ∙ ap some (key_eq_sound old key s)))
      | inr s ↦ inr (ground arith)
    ]
  ]

  -- One round of the loop, then a flush, is a flush, then the operation by itself.
  batch_op-done :
      (op : Op A) (b : Batch A) → IsConsistent b → done (batch_op op b) ≡ after op (done b)
  batch_op-done op b h = elim (Bool-cases (skipped op b.store)) [
    | inl e ↦ unfold batch_op apply_op in rw (e, skipped-flush, e) (rw append-nil)
    | inr e ↦ rw (batch_op-live op b e) (elim (flush_if_other-cases (op_key op) b) [
      | inl (p, inl k) ↦ rw p (begin-done op b k (h k) e)
      | inl (p, inr k) ↦ rw p (extend-done op b k e)
      | inr p ↦ rw p (
          begin-done op (flush b) (flush-run_key b) (flush-run b h) (skipped-flush op b ∙ e)
          ∙ ap (λ x. after op (x.store, x.applied)) (flush-none (flush b) (flush-run_key b)))
    ])
  ]

  batch_ops-done :
      (ops : List (Op A)) (b : Batch A)
      → IsConsistent b
      → done (batch_ops ops b) ≡ (
        (apply_each ops (flush b).store).0,
        (flush b).applied ++ (apply_each ops (flush b).store).1,
      )
  unfolding batch_ops apply_each
  batch_ops-done [] b h = rw append-nil
  batch_ops-done (op ∷ ops) b h =
      rw (batch_ops-done ops (batch_op op b) (batch_op-IsConsistent op b h)) (
        rw (
          ap (λ r. r.0) (batch_op-done op b h),
          ap (λ r. r.1) (batch_op-done op b h),
          append_assoc,
        ))

  -- Grouping into runs changes neither the store nor which operations are applied, nor their order.
  pub apply_ops-apply_each :
      (ops : List (Op A)) (st : Store A) → apply_ops ops st ≡ apply_each ops st
  unfolding apply_ops
  apply_ops-apply_each ops st = batch_ops-done ops _ (λ _. refl) ∙ unfold flush in refl
