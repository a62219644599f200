-- ===== src/Tests/Jobs.antt =====
-- A scheduler with one place, and batches of two objects: src/derived-state-scheduler.js,
-- src/ndjson.js.
use objy.Common.{ℕ, ◌+◌, ◌≡◌, refl, true, false, some, List, [], ◌∷◌, inl, arith}
use objy.Common.Text.{text}
use objy.Scheduler.{Job, Scheduler}
use objy.Scheduler.Invariant.{
  Event, scheduled, cancelled, woken, ended, closed, handle_all, scheduled_count, accounted, IsBusy,
  handle_all-IsBusy, handle_all-accounted,
}
use objy.Ndjson.{Entry, parse_ndjson_batches}
use objy.Ndjson.Batches.{flat, values_of, Sized, parse_ndjson_batches-all}

abbrev job : ℕ → Job
job id = record { id = id; name = text "index"; owner = some (text "users"); cancelled = false }

abbrev idle : Scheduler
idle = record {
  max_concurrent = 1;
  queue = [];
  active = [];
  completed = 0;
  failed = 0;
  closed = false;
  settled = [];
}

abbrev calls : List Event
calls =
    scheduled (job 1)
    ∷ scheduled (job 2)
    ∷ cancelled (some (text "users"))
    ∷ woken 1
    ∷ scheduled (job 3)
    ∷ ended 3 true
    ∷ closed
    ∷ scheduled (job 4)
    ∷ []

idle-IsBusy : IsBusy idle
idle-IsBusy = record { bounded = omega arith; closed_empty = λ e. refl; conserving = inl refl }

handle_all-IsBusy_example : IsBusy (handle_all calls idle)
handle_all-IsBusy_example = handle_all-IsBusy calls idle idle-IsBusy

handle_all-accounted_example :
    accounted (handle_all calls idle) ≡ accounted idle + scheduled_count calls
handle_all-accounted_example = handle_all-accounted calls idle

abbrev entries : List (Entry ℕ)
entries =
    record { value = 10; bytes = 4 }
    ∷ record { value = 20; bytes = 9 }
    ∷ record { value = 30; bytes = 1 }
    ∷ []

parse_ndjson_batches_example :
    (flat (parse_ndjson_batches 2 8 entries) ≡ values_of entries)
    × Sized 2 (parse_ndjson_batches 2 8 entries)
parse_ndjson_batches_example = parse_ndjson_batches-all 2 8 entries (omega arith)
