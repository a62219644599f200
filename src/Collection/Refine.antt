-- ===== src/Collection/Refine.antt =====
-- `_putObject` and `_deleteObject` implement `absorb` on every id, and keep tombstones newest.
use objy.Common.{
  ◌≡◌, refl, true, false, not, Option, none, some, [], if◌then◌else◌, or_else, get_or, arith,
  Option-cases, inl, inr,
}
use objy.Common.Text.{Text, text_eq, text_eq_iff}
use objy.Common.Dict.{Dict, get, put, del, get-put, get-del}
use objy.Clock.{Ts, ts_gt}
use objy.Clock.Order.{ts_gt_trans}
use objy.Collection.{
  Meta, Collection, put_object, delete_object, ensure_meta, fresh_meta, commit_put, commit_delete,
  recount_put, recount_delete, blocked, rebuild, without_id, add_shard_rid, remove_shard_rid,
  normalize_shard, shard_after_delete,
}
use objy.Collection.Version.{
  absent, live, dead, stamp, newer, newer-blocked, absorb, of_stamps, version, IsOrdered,
  get-rebuild,
}

module _ {A : Type 0} where
  -- the shard bookkeeping touches neither the entries nor the rows
  pub add_shard_rid-frame :
      (r : _) (o : Option Text) (s : Collection A)
      → ((add_shard_rid r o s).metas ≡ s.metas) × ((add_shard_rid r o s).rows ≡ s.rows)
  unfolding add_shard_rid
  add_shard_rid-frame r none s = (refl, refl)
  add_shard_rid-frame r (some k) s = (refl, refl)

  remove_shard_rid-frame :
      (r : _) (o : Option Text) (s : Collection A)
      → ((remove_shard_rid r o s).metas ≡ s.metas) × ((remove_shard_rid r o s).rows ≡ s.rows)
  unfolding remove_shard_rid
  remove_shard_rid-frame r none s = (refl, refl)
  remove_shard_rid-frame r (some k) s = ground arith

  pub commit_put-metas :
      (id : Text) (v : Dict A) (t : Ts) (sh : Option Text) (m : Meta) (s : Collection A)
      → (commit_put id v t sh m s).metas
        ≡ put id
            (record m { ts = some t; deleted = none; shard = or_else (normalize_shard sh) m.shard })
            s.metas
  unfolding commit_put recount_put
  commit_put-metas id v t sh m s = ground arith

  commit_put-rows :
      (id : Text) (v : Dict A) (t : Ts) (sh : Option Text) (m : Meta) (s : Collection A)
      → (commit_put id v t sh m s).rows ≡ rebuild id (without_id v) s.rows
  unfolding commit_put recount_put
  commit_put-rows id v t sh m s = ground arith

  pub commit_delete-metas :
      (id : Text) (t : Ts) (sh : Option Text) (m : Meta) (s : Collection A)
      → (commit_delete id t sh m s).metas
        ≡ put id (record m { deleted = some t; shard = shard_after_delete sh m.shard }) s.metas
  unfolding commit_delete recount_delete
  commit_delete-metas id t sh m s = ground arith

  commit_delete-rows :
      (id : Text) (t : Ts) (sh : Option Text) (m : Meta) (s : Collection A)
      → (commit_delete id t sh m s).rows ≡ del id s.rows
  unfolding commit_delete recount_delete
  commit_delete-rows id t sh m s = ground arith

  version-commit_put :
      (id j : Text) (v : Dict A) (t : Ts) (sh : Option Text) (m : Meta) (s : Collection A)
      → version j (commit_put id v t sh m s)
        ≡ (if text_eq id j then live t (without_id v) else version j s)
  unfolding version
  version-commit_put id j v t sh m s =
      rw (commit_put-metas, commit_put-rows, get-put, get-rebuild) (ground arith)

  version-commit_delete :
      (id j : Text) (t : Ts) (sh : Option Text) (m : Meta) (s : Collection A)
      → version j (commit_delete id t sh m s) ≡ (if text_eq id j then dead t else version j s)
  unfolding version
  version-commit_delete id j t sh m s =
      rw (commit_delete-metas, commit_delete-rows, get-put, get-del) (ground arith)

  -- a new entry has no timestamp, and is still absent
  pub version-fresh_meta :
      (id j : Text) (s : Collection A)
      → get id s.metas ≡ none
      → version j (fresh_meta id s).1 ≡ version j s
  unfolding version fresh_meta
  version-fresh_meta id j s e = rw get-put (ground (arith, text_eq_iff id j))

  -- under a tombstone that is newer than the write, both tests of a put are the test of the newest
  pub accepts_put :
      (ts del : Option Ts) (row : Dict A) (t : Ts)
      → ((u d : Ts) → ts ≡ some u → del ≡ some d → ts_gt d u ≡ true)
      → newer t (stamp (of_stamps ts del row))
        ≡ (if blocked del t then false else not (blocked ts t))
  unfolding of_stamps newer
  accepts_put none none row t h = simp newer-blocked (unfold newer in refl)
  accepts_put (some u) none row t h = simp newer-blocked (unfold newer in ground arith)
  accepts_put none (some d) row t h = simp newer-blocked (unfold newer in ground arith)
  accepts_put (some u) (some d) row t h =
      simp newer-blocked (unfold newer in ground (arith, h u d refl refl, ts_gt_trans t d u))

  pub accepts_delete :
      (ts del : Option Ts) (row : Dict A) (t : Ts)
      → newer t (stamp (of_stamps ts del row)) ≡ not (blocked (or_else del ts) t)
  unfolding of_stamps
  accepts_delete none none row t = simp newer-blocked (unfold newer in refl)
  accepts_delete (some u) none row t = simp newer-blocked (unfold newer in ground arith)
  accepts_delete ts (some d) row t = simp newer-blocked (unfold newer in ground arith)

  pub put_object-fresh :
      (id : Text) (v : Dict A) (t : Ts) (sh : Option Text) (s : Collection A)
      → get id s.metas ≡ none
      → put_object id v t sh s
        ≡ (commit_put id v t sh (fresh_meta id s).0 (fresh_meta id s).1, true)
  unfolding put_object
  put_object-fresh id v t sh s e = rw (e, ensure_meta)

  pub put_object-old :
      (id : Text) (v : Dict A) (t : Ts) (sh : Option Text) (s : Collection A) (m : Meta)
      → get id s.metas ≡ some m
      → put_object id v t sh s ≡ (
          if (if blocked m.deleted t then false else not (blocked m.ts t))
          then (commit_put id v t sh m s, true)
          else (s, false))
  unfolding put_object
  put_object-old id v t sh s m e = rw (e, ensure_meta) (ground arith)

  pub version-old :
      (id : Text) (s : Collection A) (m : Meta)
      → get id s.metas ≡ some m
      → version id s ≡ of_stamps m.ts m.deleted (get_or (get id s.rows) [])
  unfolding version
  version-old id s m e = rw e

  version-none : (id : Text) (s : Collection A) → get id s.metas ≡ none → version id s ≡ absent
  unfolding version
  version-none id s e = rw e

  pub ordered_at :
      (id : Text) (s : Collection A) (m : Meta)
      → IsOrdered s
      → get id s.metas ≡ some m
      → (u d : Ts) → m.ts ≡ some u
      → m.deleted ≡ some d
      → ts_gt d u ≡ true
  ordered_at id s m w e u d p q = w.at id m u d e p q

  -- In a collection whose tombstones are newer than what they cover, a put makes its live value the
  -- version of its own id exactly when its timestamp is newer than that version's, leaves the
  -- version of every other id, and returns whether it was applied.
  pub put_object-absorb :
      (id j : Text) (v : Dict A) (t : Ts) (sh : Option Text) (s : Collection A)
      → IsOrdered s
      → (version j (put_object id v t sh s).0
          ≡ (if text_eq id j then absorb (version id s) (live t (without_id v)) else version j s))
        × ((put_object id v t sh s).1 ≡ newer t (stamp (version id s)))
  unfolding absorb
  put_object-absorb id j v t sh s w = elim (Option-cases (get id s.metas)) [
    | inl e ↦
        rw (put_object-fresh id v t sh s e, version-none id s e, version-commit_put)
          (rw (version-fresh_meta id j s e) (unfold newer in (refl, refl)))
    | inr (m, e) ↦
        rw (put_object-old id v t sh s m e, version-old id s m e)
          (ground (
            arith,
            text_eq_iff id j,
            version-old id s m e,
            version-commit_put id j v t sh m s,
            accepts_put m.ts m.deleted (get_or (get id s.rows) []) t (ordered_at id s m w e),
          ))
  ]

  pub delete_object-fresh :
      (id : Text) (t : Ts) (sh : Option Text) (s : Collection A)
      → get id s.metas ≡ none
      → delete_object id t sh s
        ≡ (commit_delete id t sh (fresh_meta id s).0 (fresh_meta id s).1, true)
  unfolding delete_object
  delete_object-fresh id t sh s e = rw (e, ensure_meta)

  pub delete_object-old :
      (id : Text) (t : Ts) (sh : Option Text) (s : Collection A) (m : Meta)
      → get id s.metas ≡ some m
      → delete_object id t sh s ≡ (
          if not (blocked (or_else m.deleted m.ts) t)
          then (commit_delete id t sh m s, true)
          else (s, false))
  unfolding delete_object
  delete_object-old id t sh s m e = rw (e, ensure_meta) (ground arith)

  -- A delete makes a tombstone the version of its own id exactly when its timestamp is newer than
  -- that version's, leaves the version of every other id, and returns whether it was applied.
  pub delete_object-absorb :
      (id j : Text) (t : Ts) (sh : Option Text) (s : Collection A)
      → (version j (delete_object id t sh s).0
          ≡ (if text_eq id j then absorb (version id s) (dead t) else version j s))
        × ((delete_object id t sh s).1 ≡ newer t (stamp (version id s)))
  unfolding absorb
  delete_object-absorb id j t sh s = elim (Option-cases (get id s.metas)) [
    | inl e ↦
        rw (delete_object-fresh id t sh s e, version-none id s e, version-commit_delete)
          (rw (version-fresh_meta id j s e) (unfold newer in (refl, refl)))
    | inr (m, e) ↦
        rw (delete_object-old id t sh s m e, version-old id s m e)
          (ground (
            arith,
            text_eq_iff id j,
            version-old id s m e,
            version-commit_delete id j t sh m s,
            accepts_delete m.ts m.deleted (get_or (get id s.rows) []) t,
          ))
  ]
