-- ===== src/Store/Address.antt =====
-- What one operation does to the version at every address of the store.
use objy.Common.{
  ◌≡◌, refl, Bool, true, false, not, ◌&&◌, List, [], ◌∷◌, if◌then◌else◌, arith, Bool-cases, inl,
  inr,
}
use objy.Common.Text.{Text, text_eq, text_eq_iff}
use objy.Collection.{Collection}
use objy.Collection.Version.{Version, absorb, version, IsOrdered}
use objy.Collection.Ordered.{empty-IsOrdered}
use objy.Collection.Batch.{row-absorb, row-IsOrdered}
use objy.Op.{Op, written}
use objy.Store.{Store, empty_store, collection_of, store_collection, skipped}
use objy.Store.Cells.{collection_of-store_collection}
use objy.Store.Runs.{apply_op, apply_op-live, skipped-store_collection}

pub record Address : Type 0 where
  pub db : Text
  pub coll : Text
  pub id : Text

module _ {A : Type 0} where
  unfoldable pub version_at : Address → Store A → Version A
  version_at a st = version a.id (collection_of a.db a.coll st)

  pub record AllOrdered (st : Store A) : Type 0 where
    pub at : (db coll : Text) → IsOrdered (collection_of db coll st)

  -- an operation on this object
  unfoldable pub targets : Address → Op A → Bool
  targets a op =
      if text_eq op.db a.db
      then if text_eq op.coll a.coll then text_eq op.id a.id else false
      else false

  pub empty-AllOrdered : AllOrdered (empty_store {A = A})
  unfolding empty_store collection_of
  empty-AllOrdered = record { at = λ db coll. unfold objy.Common.Dict.get in empty-IsOrdered }

  pub skipped-apply_op : (op p : Op A) (st : Store A) → skipped p (apply_op op st).0 ≡ skipped p st
  skipped-apply_op op p st = elim (Bool-cases (skipped op st)) [
    | inl e ↦ unfold apply_op in rw e
    | inr e ↦ rw (apply_op-live op st e) (skipped-store_collection p op.db op.coll _ st)
  ]

  store_collection-AllOrdered :
      (db coll : Text) (c : Collection A) (st : Store A)
      → AllOrdered st
      → IsOrdered c
      → AllOrdered (store_collection db coll c st)
  store_collection-AllOrdered db coll c st w h = record {
    at = λ db' coll'.
        rw collection_of-store_collection (go db' coll' (text_eq db db') (text_eq coll coll'));
  }
    where
      go :
          (db' coll' : Text) (p q : Bool)
          → IsOrdered (
              if p then if q then c else collection_of db' coll' st else collection_of db' coll' st)
      go db' coll' true true = h
      go db' coll' true false = w.at db' coll'
      go db' coll' false q = w.at db' coll'

  pub apply_op-AllOrdered :
      (op : Op A) (st : Store A) → AllOrdered st → AllOrdered (apply_op op st).0
  apply_op-AllOrdered op st w = elim (Bool-cases (skipped op st)) [
    | inl e ↦ unfold apply_op in rw e w
    | inr e ↦ rw (apply_op-live op st e) (
        store_collection-AllOrdered op.db op.coll _ st w
          (row-IsOrdered op (collection_of op.db op.coll st) (w.at op.db op.coll)))
  ]

  pub apply_op-absorb :
      (op : Op A) (a : Address) (st : Store A)
      → AllOrdered st
      → skipped op st ≡ false
      → version_at a (apply_op op st).0
        ≡ (if targets a op then absorb (version_at a st) (written op) else version_at a st)
  unfolding version_at targets
  apply_op-absorb op a st w e =
      rw (apply_op-live op st e, collection_of-store_collection)
        (ground (
          arith,
          text_eq_iff op.db a.db,
          text_eq_iff op.coll a.coll,
          text_eq_iff op.id a.id,
          row-absorb op a.id (collection_of op.db op.coll st) (w.at op.db op.coll),
        ))
