-- ===== src/Collection/Version.antt =====
-- The abstract view of a collection: every id holds the newest write that reached it, a live value
-- or a tombstone, and an incoming write replaces it exactly when its timestamp is newer.
use objy.Common.{
  ◌≡◌, refl, Bool, true, not, Option, none, some, [], ◌∷◌, if◌then◌else◌, get_or, arith,
}
use objy.Common.Text.{Text, text_eq}
use objy.Common.Dict.{Dict, get, del, get-put, get-del}
use objy.Clock.{Ts, gt, ts_gt}
use objy.Collection.{Meta, Collection, blocked, rebuild}

pub data Version (A : Type 0) : Type 0 where
  absent : Version A
  live : Ts → Dict A → Version A
  dead : Ts → Version A

-- `!(last && !gt(ts, last))`
unfoldable pub newer : Ts → Option Ts → Bool
newer ts none = true
newer ts (some last) = ts_gt ts last

pub newer-blocked : (o : Option Ts) (ts : Ts) → blocked o ts ≡ not (newer ts o)
unfolding blocked newer gt
newer-blocked none ts = refl
newer-blocked (some last) ts = refl

module _ {A : Type 0} where
  abbrev pub stamp : Version A → Option Ts
  stamp absent = none
  stamp (live t v) = some t
  stamp (dead t) = some t

  -- An incoming write wins over what is there exactly when it is newer.
  unfoldable pub absorb : Version A → Version A → Version A
  absorb cur absent = cur
  absorb cur (live t v) = if newer t (stamp cur) then live t v else cur
  absorb cur (dead t) = if newer t (stamp cur) then dead t else cur

  unfoldable pub of_stamps : Option Ts → Option Ts → Dict A → Version A
  of_stamps ts (some d) fields = dead d
  of_stamps (some t) none fields = live t fields
  of_stamps none none fields = absent

  unfoldable pub of_entry : Option Meta → Dict A → Version A
  unfolding of_stamps
  of_entry none row = absent
  of_entry (some m) row = of_stamps m.ts m.deleted row

  unfoldable pub version : Text → Collection A → Version A
  unfolding of_entry
  version id s = of_entry (get id s.metas) (get_or (get id s.rows) [])

  -- A tombstone is newer than the write that it covers.
  pub record IsOrdered (s : Collection A) : Type 0 where
    pub at :
        (id : Text) (m : Meta) (t d : Ts)
        → get id s.metas ≡ some m
        → m.ts ≡ some t
        → m.deleted ≡ some d
        → ts_gt d t ≡ true

  pub get-rebuild :
      (id j : Text) (live : Dict A) (rows : Dict (Dict A))
      → get_or (get j (rebuild id live rows)) []
        ≡ (if text_eq id j then live else get_or (get j rows) [])
  unfolding rebuild
  get-rebuild id j [] rows = ground (arith, get-del id j rows)
  get-rebuild id j (e ∷ l) rows =
      ground (arith, get-put id j (e ∷ l) (del id rows), get-del id j rows)
