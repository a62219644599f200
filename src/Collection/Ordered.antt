-- ===== src/Collection/Ordered.antt =====
-- Every write keeps each tombstone newer than the write that it covers.
use objy.Common.{
  ◌≡◌, refl, true, false, not, Option, some, if◌then◌else◌, or_else, arith, Bool-cases,
  Option-cases, inl, inr,
}
use objy.Common.Text.{Text, text_eq}
use objy.Common.Dict.{Dict, get, put, get-put}
use objy.Clock.{Ts, ts_gt}
use objy.Clock.Order.{ts_gt_trans}
use objy.Collection.{
  Meta, Collection, empty_collection, put_object, delete_object, fresh_meta, commit_put,
  commit_delete, blocked,
}
use objy.Collection.Version.{newer, newer-blocked, IsOrdered}
use objy.Collection.Refine.{
  commit_put-metas, commit_delete-metas, put_object-fresh, put_object-old, delete_object-fresh,
  delete_object-old, ordered_at,
}

module _ {A : Type 0} where
  pub empty-IsOrdered : IsOrdered (empty_collection {A = A})
  unfolding empty_collection get
  empty-IsOrdered = record { at = λ id m t d e p q. ground arith }

  -- a write at one id leaves the entries of the others
  put-IsOrdered :
      (id : Text) (m : Meta) (s s' : Collection A)
      → s'.metas ≡ put id m s.metas
      → IsOrdered s
      → ((t d : Ts) → m.ts ≡ some t → m.deleted ≡ some d → ts_gt d t ≡ true)
      → IsOrdered s'
  put-IsOrdered id m s s' e w h = record {
    at = λ j n t d g p q.
        let g' : get j (put id m s.metas) ≡ some n = rw (← e) g in
        let split : (if text_eq id j then some m else get j s.metas) ≡ some n = rw get-put at g' in
        ground (arith, split, h t d, w.at j n t d);
  }

  fresh-IsOrdered : (id : Text) (s : Collection A) → IsOrdered s → IsOrdered (fresh_meta id s).1
  unfolding fresh_meta
  fresh-IsOrdered id s w = put-IsOrdered id _ s _ refl w (λ t d p q. cc)

  commit_put-IsOrdered :
      (id : Text) (v : Dict A) (t : Ts) (sh : Option Text) (m : Meta) (s : Collection A)
      → IsOrdered s
      → IsOrdered (commit_put id v t sh m s)
  commit_put-IsOrdered id v t sh m s w =
      put-IsOrdered id _ s _ (commit_put-metas id v t sh m s) w (λ u d p q. cc)

  commit_delete-IsOrdered :
      (id : Text) (t : Ts) (sh : Option Text) (m : Meta) (s : Collection A)
      → IsOrdered s
      → ((u : Ts) → m.ts ≡ some u → ts_gt t u ≡ true)
      → IsOrdered (commit_delete id t sh m s)
  commit_delete-IsOrdered id t sh m s w h =
      put-IsOrdered id _ s _ (commit_delete-metas id t sh m s) w (λ u d p q. ground (arith, h u))

  pub put_object-IsOrdered :
      (id : Text) (v : Dict A) (t : Ts) (sh : Option Text) (s : Collection A)
      → IsOrdered s
      → IsOrdered (put_object id v t sh s).0
  put_object-IsOrdered id v t sh s w = elim (Option-cases (get id s.metas)) [
    | inl e ↦
        rw (put_object-fresh id v t sh s e)
          (commit_put-IsOrdered id v t sh _ _ (fresh-IsOrdered id s w))
    | inr (m, e) ↦
        rw (put_object-old id v t sh s m e)
          (elim (Bool-cases (if blocked m.deleted t then false else not (blocked m.ts t))) [
            | inl p ↦ rw p (commit_put-IsOrdered id v t sh m s w)
            | inr p ↦ rw p w
          ])
  ]

  -- a delete that is let through is newer than the last write
  delete_newest :
      (id : Text) (t u : Ts) (s : Collection A) (m : Meta)
      → IsOrdered s
      → get id s.metas ≡ some m
      → not (blocked (or_else m.deleted m.ts) t) ≡ true
      → m.ts ≡ some u
      → ts_gt t u ≡ true
  unfolding newer
  delete_newest id t u s m w e p q = elim (Option-cases m.deleted) [
    | inl n ↦ ground (arith, newer-blocked m.ts t)
    | inr (d, n) ↦
        ground (arith, newer-blocked m.deleted t, ordered_at id s m w e u d q n, ts_gt_trans t d u)
  ]

  pub delete_object-IsOrdered :
      (id : Text) (t : Ts) (sh : Option Text) (s : Collection A)
      → IsOrdered s
      → IsOrdered (delete_object id t sh s).0
  unfolding fresh_meta
  delete_object-IsOrdered id t sh s w = elim (Option-cases (get id s.metas)) [
    | inl e ↦
        rw (delete_object-fresh id t sh s e)
          (commit_delete-IsOrdered id t sh _ _ (fresh-IsOrdered id s w) (λ u p. cc))
    | inr (m, e) ↦
        rw (delete_object-old id t sh s m e)
          (elim (Bool-cases (not (blocked (or_else m.deleted m.ts) t))) [
            | inl p ↦
                rw p
                  (commit_delete-IsOrdered id t sh m s w (λ u q. delete_newest id t u s m w e p q))
            | inr p ↦ rw p w
          ])
  ]
