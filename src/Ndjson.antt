-- ===== src/Ndjson.antt =====
-- src/ndjson.js: the batches that parseNdjsonBatches yields, over the entries of parseNdjsonStream.
-- An entry is a line's value and its length in bytes.
pub mod Batches
use objy.Common.{
  ℕ, ◌+◌, ltb, leb, ◌==◌, Bool, true, false, not, ◌&&◌, ◌||◌, Option, none, some, List, [], ◌∷◌,
  ◌++◌, if◌then◌else◌, length, max,
}

pub record Entry (V : Type 0) : Type 0 where
  pub value : V
  pub bytes : ℕ

-- the locals of the loop
pub record Pending (V : Type 0) : Type 0 where
  pub batch : List V
  pub bytes : ℕ

abbrev pub is_empty {ℓ} : {A : Type ℓ} → List A → Bool
is_empty [] = true
is_empty (x ∷ xs) = false

-- `Math.max(1, Number(maxBatchObjects) || 1000)`
unfoldable pub max_objects_of : ℕ → ℕ
max_objects_of n = if n == 0 then 1000 else max 1 n

module _ {V : Type 0} where
  abbrev pub empty_pending : Pending V
  empty_pending = record { batch = []; bytes = 0 }

  -- `if (batch.length) yield batch`, as the batches yielded
  abbrev pub yielded : List V → List (List V)
  yielded [] = []
  yielded (v ∷ vs) = (v ∷ vs) ∷ []

  -- the batch is yielded before an entry that would make it too large
  unfoldable pub make_room : ℕ → Entry V → Pending V → List (List V) × Pending V
  make_room max_bytes e p =
      if not (is_empty p.batch) && (ltb 0 max_bytes && ltb max_bytes (p.bytes + e.bytes))
      then (p.batch ∷ [], empty_pending)
      else ([], p)

  -- `batch.push(entry.value); bytes += entry.bytes`
  unfoldable pub push : Entry V → Pending V → Pending V
  push e p = record { batch = p.batch ++ (e.value ∷ []); bytes = p.bytes + e.bytes }

  -- the batch is yielded once it is full
  unfoldable pub yield_full : ℕ → ℕ → Pending V → List (List V) × Pending V
  yield_full max_objects max_bytes p =
      if leb max_objects (length p.batch) || (ltb 0 max_bytes && leb max_bytes p.bytes)
      then (p.batch ∷ [], empty_pending)
      else ([], p)

  -- the rest of the loop, and the last batch
  unfoldable pub batches_from : ℕ → ℕ → Pending V → List (Entry V) → List (List V)
  unfolding make_room push yield_full
  batches_from max_objects max_bytes p [] = yielded p.batch
  batches_from max_objects max_bytes p (e ∷ es) =
      let (before, q) = make_room max_bytes e p in
      let (full, r) = yield_full max_objects max_bytes (push e q) in
      before ++ (full ++ batches_from max_objects max_bytes r es)

  -- parseNdjsonBatches(stream, { maxBatchObjects, maxBatchBytes })
  unfoldable pub parse_ndjson_batches : ℕ → ℕ → List (Entry V) → List (List V)
  unfolding batches_from max_objects_of
  parse_ndjson_batches max_batch_objects max_batch_bytes es =
      batches_from (max_objects_of max_batch_objects) max_batch_bytes empty_pending es
