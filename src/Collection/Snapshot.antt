-- ===== src/Collection/Snapshot.antt =====
-- src/store.js: the rows of a snapshot, and the counters counted anew. A row whose deletion time is
-- set is a tombstone.
use objy.Common.{
  ℕ, ◌+◌, ◌≡◌, refl, ◌∙◌, ltb, Bool, true, false, Option, none, some, List, [], ◌∷◌, if◌then◌else◌,
  is_some, or_else, get_or, arith, Option-cases, inl, inr,
}
use objy.Common.Text.{Text, text_eq, text_eq_iff, text_eq_refl}
use objy.Common.Dict.{get, put, del, values, get-put, get-del}
use objy.Clock.{Ts, ts_gt}
use objy.Collection.{
  Meta, Collection, SnapshotRow, ensure_meta, fresh_meta, blocked, normalize_shard, without_id,
  rebuild, add_shard_rid,
}
use objy.Collection.Version.{
  Version, live, dead, absorb, of_stamps, version, IsOrdered, get-rebuild,
}
use objy.Collection.Refine.{
  add_shard_rid-frame, accepts_put, accepts_delete, version-fresh_meta, version-old, ordered_at,
}

-- the tombstone of an entry is newer than its write
abbrev Times : Meta → Type 0
Times m = (u d : Ts) → m.ts ≡ some u → m.deleted ≡ some d → ts_gt d u ≡ true

module _ {A : Type 0} where
  unfoldable snapshot_delete : SnapshotRow A → Ts → Meta → Collection A → Collection A
  snapshot_delete row d m s = record s {
    metas =
        put row.id
          (record m {
            ts = or_else row.ts m.ts;
            deleted = some d;
            shard = or_else (normalize_shard row.shard) m.shard;
          })
          s.metas;
    rows = del row.id s.rows;
  }

  unfoldable snapshot_put : SnapshotRow A → Ts → Meta → Collection A → Collection A
  snapshot_put row t m s = record s {
    metas =
        put row.id
          (record m {
            ts = some t;
            deleted = none;
            shard = or_else (normalize_shard row.shard) m.shard;
          })
          s.metas;
    rows = rebuild row.id (without_id row.value) s.rows;
  }

  -- _applySnapshotObject once the entry is there; the times of the row are its last two arguments
  unfoldable snapshot_step :
      SnapshotRow A → Meta → Collection A → Option Ts → Option Ts → Collection A × Bool
  unfolding snapshot_delete snapshot_put
  snapshot_step row m s ts (some d) =
      if blocked (or_else m.deleted m.ts) d then (s, false) else (snapshot_delete row d m s, true)
  snapshot_step row m s none none = (s, false)
  snapshot_step row m s (some t) none =
      if blocked m.deleted t
      then (s, false)
      else if blocked m.ts t
      then (s, false)
      else (snapshot_put row t m s, true)

  -- _applySnapshotObject(row)
  unfoldable pub apply_snapshot_object : SnapshotRow A → Collection A → Collection A × Bool
  unfolding snapshot_step ensure_meta
  apply_snapshot_object row s =
      let (m, s') = ensure_meta row.id s in snapshot_step row m s' row.ts row.deleted

  -- the loop of rebuildCoreState
  unfoldable pub count_live : List Meta → Collection A → Collection A
  unfolding add_shard_rid
  count_live [] s = s
  count_live (m ∷ ms) s =
      let next : Collection A =
        if is_some m.deleted
        then s
        else add_shard_rid m.rid m.shard (record s { live_count = s.live_count + 1 }) in
      count_live ms next

  -- rebuildCoreState()
  unfoldable pub rebuild_core_state : Collection A → Collection A
  unfolding count_live
  rebuild_core_state s =
      count_live (values s.metas)
        (record s { live_count = 0; shard_ids = []; unsharded_live_count = 0 })

  unfoldable pub apply_snapshot_rows : List (SnapshotRow A) → Collection A → ℕ × Collection A
  unfolding apply_snapshot_object
  apply_snapshot_rows [] s = (0, s)
  apply_snapshot_rows (row ∷ rows) s =
      let (s', ok) = apply_snapshot_object row s in
      let (n, s'') = apply_snapshot_rows rows s' in ((if ok then n + 1 else n), s'')

  -- applySnapshotObjects(rows, { deferDerivedIndexes }): how many were applied, and the collection
  unfoldable pub apply_snapshot_objects :
      Bool → List (SnapshotRow A) → Collection A → ℕ × Collection A
  unfolding apply_snapshot_rows rebuild_core_state
  apply_snapshot_objects defer rows s =
      let (n, s') = apply_snapshot_rows rows s in
      (n, if ltb 0 n then if defer then s' else rebuild_core_state s' else s')

  -- what a row says, seen from outside
  unfoldable pub row_version : SnapshotRow A → Version A
  row_version row = of_stamps row.ts row.deleted (without_id row.value)

  version-snapshot_delete :
      (row : SnapshotRow A) (j : Text) (d : Ts) (m : Meta) (s : Collection A)
      → version j (snapshot_delete row d m s) ≡ (if text_eq row.id j then dead d else version j s)
  unfolding version snapshot_delete
  version-snapshot_delete row j d m s = rw (get-put, get-del) (ground arith)

  version-snapshot_put :
      (row : SnapshotRow A) (j : Text) (t : Ts) (m : Meta) (s : Collection A)
      → version j (snapshot_put row t m s)
        ≡ (if text_eq row.id j then live t (without_id row.value) else version j s)
  unfolding version snapshot_put
  version-snapshot_put row j t m s = rw (get-put, get-rebuild) (ground arith)

  snapshot_step-absorb :
      (row : SnapshotRow A) (j : Text) (m : Meta) (s : Collection A) (ts deleted : Option Ts)
      → get row.id s.metas ≡ some m
      → Times m
      → version j (snapshot_step row m s ts deleted).0 ≡ (
          if text_eq row.id j
          then absorb (version row.id s) (of_stamps ts deleted (without_id row.value))
          else version j s)
  unfolding snapshot_step absorb of_stamps
  snapshot_step-absorb row j m s ts (some d) e w = rw (version-old row.id s m e) (
      ground (
        arith,
        text_eq_iff row.id j,
        version-old row.id s m e,
        version-snapshot_delete row j d m s,
        accepts_delete m.ts m.deleted (get_or (get row.id s.rows) []) d,
      ))
  snapshot_step-absorb row j m s none none e w = ground (arith, text_eq_iff row.id j)
  snapshot_step-absorb row j m s (some t) none e w = rw (version-old row.id s m e) (
      ground (
        arith,
        text_eq_iff row.id j,
        version-old row.id s m e,
        version-snapshot_put row j t m s,
        accepts_put m.ts m.deleted (get_or (get row.id s.rows) []) t w,
      ))

  ensure_meta-old :
      (id : Text) (s : Collection A) (m : Meta)
      → get id s.metas ≡ some m
      → ensure_meta id s ≡ (m, s)
  unfolding ensure_meta
  ensure_meta-old id s m e = rw (e, ensure_meta)

  ensure_meta-fresh :
      (id : Text) (s : Collection A) → get id s.metas ≡ none → ensure_meta id s ≡ fresh_meta id s
  unfolding ensure_meta
  ensure_meta-fresh id s e = rw (e, ensure_meta)

  fresh_meta-get :
      (id : Text) (s : Collection A) → get id (fresh_meta id s).1.metas ≡ some (fresh_meta id s).0
  unfolding fresh_meta
  fresh_meta-get id s = rw get-put (rw (text_eq_refl id))

  fresh_meta-Times : (id : Text) (s : Collection A) → Times (fresh_meta id s).0
  unfolding fresh_meta
  fresh_meta-Times id s u d p q = cc

  -- In a collection whose tombstones are newer than what they cover, a snapshot row replaces the
  -- version of its own id exactly when it is newer, as a write with its times would, and leaves the
  -- version of every other id.
  pub apply_snapshot_object-absorb :
      (row : SnapshotRow A) (j : Text) (s : Collection A)
      → IsOrdered s
      → version j (apply_snapshot_object row s).0
        ≡ (if text_eq row.id j then absorb (version row.id s) (row_version row) else version j s)
  unfolding apply_snapshot_object row_version
  apply_snapshot_object-absorb row j s w = elim (Option-cases (get row.id s.metas)) [
    | inl e ↦
        let (m, s') = fresh_meta row.id s in
        rw (ensure_meta-fresh row.id s e) (
          rw (← version-fresh_meta row.id row.id s e, ← version-fresh_meta row.id j s e)
            (snapshot_step-absorb row j m s' row.ts row.deleted (fresh_meta-get row.id s)
              (fresh_meta-Times row.id s)))
    | inr (m, e) ↦
        rw (ensure_meta-old row.id s m e)
          (snapshot_step-absorb row j m s row.ts row.deleted e (ordered_at row.id s m w e))
  ]

  count_live-frame :
      (ms : List Meta) (s : Collection A)
      → ((count_live ms s).metas ≡ s.metas) × ((count_live ms s).rows ≡ s.rows)
  unfolding count_live
  count_live-frame [] s = (refl, refl)
  count_live-frame (m ∷ ms) s =
      let counted : Collection A = record s { live_count = s.live_count + 1 } in
      let (a, b) = count_live-frame ms (add_shard_rid m.rid m.shard counted) in
      let (c, d) = add_shard_rid-frame m.rid m.shard counted in
      either (is_some m.deleted) s (add_shard_rid m.rid m.shard counted) (count_live-frame ms s)
        (a ∙ c, b ∙ d)
    where
      either :
          (test : Bool) (x y : Collection A)
          → ((count_live ms x).metas ≡ s.metas) × ((count_live ms x).rows ≡ s.rows)
          → ((count_live ms y).metas ≡ s.metas) × ((count_live ms y).rows ≡ s.rows)
          → ((count_live ms (if test then x else y)).metas ≡ s.metas)
            × ((count_live ms (if test then x else y)).rows ≡ s.rows)
      either true x y p q = p
      either false x y p q = q

  -- Counting the live objects anew changes no version.
  pub version-rebuild_core_state :
      (j : Text) (s : Collection A) → version j (rebuild_core_state s) ≡ version j s
  unfolding version rebuild_core_state
  version-rebuild_core_state j s = rw (
    (count_live-frame (values s.metas)
        (record s { live_count = 0; shard_ids = []; unsharded_live_count = 0 })).0,
    (count_live-frame (values s.metas)
        (record s { live_count = 0; shard_ids = []; unsharded_live_count = 0 })).1,
  )
