-- ===== src/Tests/Writes.antt =====
-- A bulk write and a bulk delete: src/crdt.js.
use objy.Common.{ℕ, ◌≡◌, ◌≢◌, refl, Bool, not, List, [], ◌∷◌, All, filter_by, map}
use objy.Common.Text.{Text, text, text_eq}
use objy.Clock.{make_clock}
use objy.Op.{Op}
use objy.Store.Converge.{OneWritePerStamp}
use objy.ShardMap.Sort.{Distinct}
use objy.Node.Write.{Item, normalize_ids, stamp_items, stamp_deletes}
use objy.Node.Stamps.{stamp_items-OneWritePerStamp, stamp_deletes-partition, normalize_ids-ok}

abbrev items : List (Item ℕ)
items =
    record { id = text "u1"; given = (text "age", 7) ∷ []; value = (text "age", 7) ∷ [] }
    ∷ record { id = text "u2"; given = []; value = [] }
    ∷ []

abbrev ids : List Text
ids = text "u1" ∷ text "u2" ∷ []

abbrev first_only : Text → Bool
first_only id = text_eq id (text "u1")

stamp_items_example :
    OneWritePerStamp (stamp_items (text "app") (text "users") items (make_clock (text "n1"))).0
stamp_items_example =
    stamp_items-OneWritePerStamp (text "app") (text "users") items (make_clock (text "n1"))

stamp_deletes_example :
    (map
        (λ (op : Op ℕ). op.id)
        (stamp_deletes first_only (text "app") (text "users") ids (make_clock (text "n1"))).0.0
      ≡ filter_by first_only ids)
    × ((stamp_deletes {A = ℕ} first_only
          (text "app")
          (text "users")
          ids
          (make_clock (text "n1"))).0.1
        ≡ filter_by (λ id. not (first_only id)) ids)
stamp_deletes_example =
    stamp_deletes-partition ℕ first_only (text "app") (text "users") ids (make_clock (text "n1"))

normalize_ids_example : (ids ≡ ids) × All (λ id. id ≢ []) ids × Distinct ids
normalize_ids_example = normalize_ids-ok ids ids (unfold normalize_ids text_eq in refl)
