-- ===== src/Tests/Stores.antt =====
-- The store on two writes of one object: src/store.js, src/clock.js.
use objy.Common.{ℕ, ◌≡◌, ap, none, some, List, [], ◌∷◌, if◌then◌else◌, inl, inr, arith, Member}
use objy.Common.Text.{Text, text, text_eq}
use objy.Clock.{Ts}
use objy.Collection.{Collection, empty_collection, put_object, delete_object, without_id}
use objy.Collection.{SnapshotRow}
use objy.Collection.Snapshot.{apply_snapshot_object, row_version, apply_snapshot_object-absorb}
use objy.Collection.Version.{live, dead, absorb, newer, stamp, version}
use objy.Collection.Ordered.{empty-IsOrdered}
use objy.Collection.Refine.{put_object-absorb, delete_object-absorb}
use objy.Op.{Op, put_obj, del_obj, written}
use objy.Store.{empty_store, apply_ops}
use objy.Store.Runs.{apply_each, apply_ops-apply_each}
use objy.Store.Address.{Address, version_at, empty-AllOrdered}
use objy.Store.Converge.{SameOps, OneWritePerStamp, apply_batches, apply_ops_converge}

abbrev pub stamp_of : ℕ → Text → Ts
stamp_of c n = record { c = c; n = n }

abbrev pub write_a : Op ℕ
write_a = record {
  kind = put_obj;
  db = text "app";
  coll = text "users";
  id = text "u1";
  value = (text "age", 7) ∷ [];
  ts = stamp_of 1 (text "n1");
  shard = some (text "s1");
  from = text "n1";
  seq = 1;
}

abbrev pub remove_a : Op ℕ
remove_a = record write_a { kind = del_obj; value = []; ts = stamp_of 2 (text "n2"); seq = 2 }

abbrev user : Address
user = record { db = text "app"; coll = text "users"; id = text "u1" }

abbrev in_order : List (Op ℕ)
in_order = write_a ∷ remove_a ∷ []

abbrev repeated : List (Op ℕ)
repeated = remove_a ∷ write_a ∷ remove_a ∷ []

same_ops : SameOps in_order repeated
same_ops = record { to = there; from = back }
  where
    there : (p : Op ℕ) → Member p in_order → Member p repeated
    there p (inl e) = inr (inl e)
    there p (inr (inl e)) = inl e
    there p (inr (inr z)) = absurd z

    back : (p : Op ℕ) → Member p repeated → Member p in_order
    back p (inl e) = inr (inl e)
    back p (inr (inl e)) = inl e
    back p (inr (inr (inl e))) = inr (inl e)
    back p (inr (inr (inr z))) = absurd z

one_write : OneWritePerStamp in_order
one_write = record { once = λ a o p mo mp to tp e. go o p mo mp (ap (λ (t : Ts). t.c) e) }
  where
    go :
        (o p : Op ℕ)
        → Member o in_order
        → Member p in_order
        → o.ts.c ≡ p.ts.c
        → written o ≡ written p
    go o p (inl e) (inl f) c = cc (e, f)
    go o p (inl e) (inr (inl f)) c =
        absurd (omega (arith, ap (λ (x : Op ℕ). x.ts.c) e, ap (λ (x : Op ℕ). x.ts.c) f, c))
    go o p (inl e) (inr (inr z)) c = absurd z
    go o p (inr (inl e)) (inl f) c =
        absurd (omega (arith, ap (λ (x : Op ℕ). x.ts.c) e, ap (λ (x : Op ℕ). x.ts.c) f, c))
    go o p (inr (inl e)) (inr (inl f)) c = cc (e, f)
    go o p (inr (inl e)) (inr (inr z)) c = absurd z
    go o p (inr (inr z)) mp c = absurd z

apply_ops_converge_example :
    version_at user (apply_batches ((write_a ∷ []) ∷ (remove_a ∷ []) ∷ []) empty_store)
    ≡ version_at user (apply_batches ((remove_a ∷ write_a ∷ []) ∷ (remove_a ∷ []) ∷ []) empty_store)
apply_ops_converge_example =
    apply_ops_converge empty_store ((write_a ∷ []) ∷ (remove_a ∷ []) ∷ [])
      ((remove_a ∷ write_a ∷ []) ∷ (remove_a ∷ []) ∷ []) user empty-AllOrdered same_ops one_write

apply_ops_batches_example : apply_ops repeated empty_store ≡ apply_each repeated empty_store
apply_ops_batches_example = apply_ops-apply_each repeated empty_store

put_object_example :
    (version
        (text "u1")
        (put_object (text "u1") write_a.value write_a.ts write_a.shard empty_collection).0
      ≡ (if text_eq (text "u1") (text "u1")
          then absorb
              (version (text "u1") empty_collection)
              (live write_a.ts (without_id write_a.value))
          else version (text "u1") empty_collection))
    × ((put_object (text "u1") write_a.value write_a.ts write_a.shard empty_collection).1
        ≡ newer write_a.ts (stamp (version {A = ℕ} (text "u1") empty_collection)))
put_object_example =
    put_object-absorb (text "u1") (text "u1") write_a.value write_a.ts write_a.shard
      empty_collection empty-IsOrdered

abbrev with_user : Collection ℕ
with_user = (put_object (text "u1") write_a.value write_a.ts write_a.shard empty_collection).0

delete_object_example :
    (version (text "u1") (delete_object (text "u1") remove_a.ts none with_user).0 ≡ (
      if text_eq (text "u1") (text "u1")
      then absorb (version (text "u1") with_user) (dead remove_a.ts)
      else version (text "u1") with_user))
    × ((delete_object (text "u1") remove_a.ts none with_user).1
        ≡ newer remove_a.ts (stamp (version (text "u1") with_user)))
delete_object_example = delete_object-absorb (text "u1") (text "u1") remove_a.ts none with_user

abbrev snapshot_row : SnapshotRow ℕ
snapshot_row = record {
  id = text "u1";
  ts = some write_a.ts;
  deleted = some remove_a.ts;
  value = [];
  shard = none;
}

apply_snapshot_object_example :
    version (text "u1") (apply_snapshot_object snapshot_row empty_collection).0 ≡ (
      if text_eq (text "u1") (text "u1")
      then absorb (version (text "u1") empty_collection) (row_version snapshot_row)
      else version (text "u1") empty_collection)
apply_snapshot_object_example =
    apply_snapshot_object-absorb snapshot_row (text "u1") empty_collection empty-IsOrdered
