-- ===== src/Scheduler/Invariant.antt =====
-- The scheduler over any sequence of calls: no overload, no idle slot, no job lost.
use objy.Common.{
  ℕ, ◌+◌, ◌≤◌, ◌≡◌, ◌⊎◌, refl, ◌∙◌, ltb, ◌==◌, Bool, true, false, not, ◌&&◌, Option, none, some,
  List, [], ◌∷◌, ◌++◌, if◌then◌else◌, length, length-append, filter_by, any, map, arith, Bool-cases,
  inl, inr,
}
use objy.Common.Text.{Text}
use objy.Scheduler.{
  Job, Outcome, returned, threw, Scheduler, drain_from, drain, schedule, owned_by, settle_all,
  cancel_job, cancel, close, remove_job, is_active, completions, failures, finish, wake,
}

pub data Event : Type 0 where
  scheduled : Job → Event
  cancelled : Option Text → Event
  woken : ℕ → Event
  ended : ℕ → Bool → Event
  closed : Event

unfoldable pub handle : Event → Scheduler → Scheduler
unfolding schedule cancel wake finish close
handle (scheduled job) s = schedule job s
handle (cancelled owner) s = (cancel owner s).1
handle (woken id) s = wake id s
handle (ended id failed) s = finish id (if failed then threw else returned) s
handle closed s = close s

unfoldable pub handle_all : List Event → Scheduler → Scheduler
unfolding handle
handle_all [] s = s
handle_all (e ∷ es) s = handle_all es (handle e s)

-- the jobs that a sequence of calls schedules
unfoldable pub scheduled_count : List Event → ℕ
scheduled_count [] = 0
scheduled_count (scheduled job ∷ es) = scheduled_count es + 1
scheduled_count (cancelled owner ∷ es) = scheduled_count es
scheduled_count (woken id ∷ es) = scheduled_count es
scheduled_count (ended id failed ∷ es) = scheduled_count es
scheduled_count (closed ∷ es) = scheduled_count es

-- the jobs that are waiting, active or settled
unfoldable pub accounted : Scheduler → ℕ
accounted s = length s.queue + length s.active + length s.settled

pub record IsBusy (s : Scheduler) : Type 0 where
  pub bounded : length s.active ≤ s.max_concurrent
  pub closed_empty : s.closed ≡ true → s.queue ≡ []
  pub conserving : (s.queue ≡ []) ⊎ (length s.active ≡ s.max_concurrent)

length-map : {A B : Type 0} (f : A → B) (xs : List A) → length (map f xs) ≡ length xs
length-map f [] = refl
length-map f (x ∷ xs) = omega (arith, length-map f xs)

length-partition :
    {A : Type 0} (p : A → Bool) (xs : List A)
    → length (filter_by p xs) + length (filter_by (λ x. not (p x)) xs) ≡ length xs
length-partition p [] = refl
length-partition p (x ∷ xs) = ground (arith, length-partition p xs)

length-remove_job :
    (id : ℕ) (jobs : List Job)
    → any (λ job. job.id == id) jobs ≡ true
    → length (remove_job id jobs) + 1 ≡ length jobs
unfolding remove_job
length-remove_job id [] h = cc
length-remove_job id (job ∷ jobs) h = ground (arith, length-remove_job id jobs)

drain_from-length :
    (max : ℕ) (queue active : List Job)
    → length (drain_from max queue active).0 + length (drain_from max queue active).1
      ≡ length queue + length active
unfolding drain_from
drain_from-length max [] active = refl
drain_from-length max (job ∷ queue) active =
    ground
      (arith, drain_from-length max queue (active ++ (job ∷ [])), length-append active (job ∷ []))

drain_from-bounded :
    (max : ℕ) (queue active : List Job)
    → length active ≤ max
    → length (drain_from max queue active).1 ≤ max
unfolding drain_from
drain_from-bounded max [] active h = h
drain_from-bounded max (job ∷ queue) active h =
    ground
      (arith, drain_from-bounded max queue (active ++ (job ∷ [])), length-append active (job ∷ []))

drain_from-conserving :
    (max : ℕ) (queue active : List Job)
    → length active ≤ max
    → ((drain_from max queue active).0 ≡ []) ⊎ (length (drain_from max queue active).1 ≡ max)
unfolding drain_from
drain_from-conserving max [] active h = inl refl
drain_from-conserving max (job ∷ queue) active h = elim (Bool-cases (ltb (length active) max)) [
  | inl e ↦ rw e (
      drain_from-conserving max queue (active ++ (job ∷ []))
        (ground (arith, length-append active (job ∷ []))))
  | inr e ↦ rw e (inr (ground arith))
]

drain-IsBusy :
    (s : Scheduler)
    → length s.active ≤ s.max_concurrent
    → (s.closed ≡ true → s.queue ≡ [])
    → IsBusy (drain s)
unfolding drain
drain-IsBusy s h c = elim (Bool-cases s.closed) [
  | inl e ↦ rw e (record { bounded = h; closed_empty = λ k. c e; conserving = inl (c e) })
  | inr e ↦ rw e (record {
    bounded = drain_from-bounded s.max_concurrent s.queue s.active h;
    closed_empty = λ k. absurd (cc (e, k));
    conserving = drain_from-conserving s.max_concurrent s.queue s.active h;
  })
]

drain-accounted : (s : Scheduler) → accounted (drain s) ≡ accounted s
unfolding accounted drain
drain-accounted s = ground (arith, drain_from-length s.max_concurrent s.queue s.active)

abbrev queued : Job → Scheduler → Scheduler
queued job s = record s { queue = s.queue ++ (job ∷ []) }

abbrev refused : Job → Scheduler → Scheduler
refused job s = record s { settled = s.settled ++ ((job.id, Outcome.closed_error) ∷ []) }

schedule-cases :
    (job : Job) (s : Scheduler)
    → ((s.closed ≡ true) × (schedule job s ≡ refused job s))
      ⊎ ((s.closed ≡ false) × (schedule job s ≡ drain (queued job s)))
unfolding schedule
schedule-cases job s = go s.closed refl
  where
    go :
        (b : Bool)
        → s.closed ≡ b
        → ((s.closed ≡ true)
            × ((if b then refused job s else drain (queued job s)) ≡ refused job s))
          ⊎ ((s.closed ≡ false)
              × ((if b then refused job s else drain (queued job s)) ≡ drain (queued job s)))
    go true e = inl (e, refl)
    go false e = inr (e, refl)

schedule-IsBusy : (job : Job) (s : Scheduler) → IsBusy s → IsBusy (schedule job s)
schedule-IsBusy job s h = elim (schedule-cases job s) [
  | inl (c, e) ↦
      rw e
        (record { bounded = h.bounded; closed_empty = h.closed_empty; conserving = h.conserving })
  | inr (c, e) ↦ rw e (drain-IsBusy (queued job s) h.bounded (λ k. absurd (cc (c, k))))
]

schedule-accounted : (job : Job) (s : Scheduler) → accounted (schedule job s) ≡ accounted s + 1
schedule-accounted job s = elim (schedule-cases job s) [
  | inl (c, e) ↦ rw e refused_count
  | inr (c, e) ↦ rw e (drain-accounted (queued job s) ∙ queued_count)
]
  where
    refused_count : accounted (refused job s) ≡ accounted s + 1
    refused_count =
        unfold accounted in
        omega (arith, length-append s.settled ((job.id, Outcome.closed_error) ∷ []))

    queued_count : accounted (queued job s) ≡ accounted s + 1
    queued_count = unfold accounted in omega (arith, length-append s.queue (job ∷ []))

finish-IsBusy :
    (id : ℕ) (outcome : Outcome) (s : Scheduler) → IsBusy s → IsBusy (finish id outcome s)
unfolding finish is_active
finish-IsBusy id outcome s h = elim (Bool-cases (any (λ job. job.id == id) s.active)) [
  | inr e ↦ rw e h
  | inl e ↦
      rw e
        (drain-IsBusy _ (omega (arith, length-remove_job id s.active e, h.bounded)) h.closed_empty)
]

abbrev left : ℕ → Outcome → Scheduler → Scheduler
left id outcome s = record s {
  active = remove_job id s.active;
  completed = s.completed + completions outcome;
  failed = s.failed + failures outcome;
  settled = s.settled ++ ((id, outcome) ∷ []);
}

finish-accounted :
    (id : ℕ) (outcome : Outcome) (s : Scheduler) → accounted (finish id outcome s) ≡ accounted s
unfolding finish is_active
finish-accounted id outcome s =
    go (any (λ job. job.id == id) s.active)
      (λ e. drain-accounted (left id outcome s) ∙ left_count e)
  where
    left_count :
        any (λ job. job.id == id) s.active ≡ true → accounted (left id outcome s) ≡ accounted s
    left_count e =
        unfold accounted in
        omega (arith, length-remove_job id s.active e, length-append s.settled ((id, outcome) ∷ []))

    go :
        (b : Bool)
        → (b ≡ true → accounted (drain (left id outcome s)) ≡ accounted s)
        → accounted (if not b then s else drain (left id outcome s)) ≡ accounted s
    go true f = f refl
    go false f = refl

wake-IsBusy : (id : ℕ) (s : Scheduler) → IsBusy s → IsBusy (wake id s)
unfolding wake
wake-IsBusy id s h = go (any (λ job. (job.id == id) && job.cancelled) s.active)
  where
    go : (b : Bool) → IsBusy (if b then finish id Outcome.nothing s else s)
    go true = finish-IsBusy id Outcome.nothing s h
    go false = h

wake-accounted : (id : ℕ) (s : Scheduler) → accounted (wake id s) ≡ accounted s
unfolding wake
wake-accounted id s = ground (arith, finish-accounted id Outcome.nothing s)

cancel-IsBusy : (owner : Option Text) (s : Scheduler) → IsBusy s → IsBusy (cancel owner s).1
unfolding cancel
cancel-IsBusy none s h = h
cancel-IsBusy (some owner) s h = record {
  bounded = rw (length-map (cancel_job owner) s.active) h.bounded;
  closed_empty = λ k. rw (h.closed_empty k);
  conserving = elim h.conserving [
    | inl e ↦ inl (rw e)
    | inr e ↦ inr (length-map (cancel_job owner) s.active ∙ e)
  ];
}

cancel-accounted :
    (owner : Option Text) (s : Scheduler) → accounted (cancel owner s).1 ≡ accounted s
unfolding cancel accounted settle_all
cancel-accounted none s = refl
cancel-accounted (some owner) s =
    let dropped = filter_by (owned_by owner) s.queue in
    omega (
      arith,
      length-partition (owned_by owner) s.queue,
      length-map (cancel_job owner) s.active,
      length-append s.settled (settle_all Outcome.nothing dropped),
      length-map {B = ℕ × Outcome} (λ job. (job.id, Outcome.nothing)) dropped,
    )

close-IsBusy : (s : Scheduler) → IsBusy s → IsBusy (close s)
unfolding close
close-IsBusy s h = record { bounded = h.bounded; closed_empty = λ k. refl; conserving = inl refl }

close-accounted : (s : Scheduler) → accounted (close s) ≡ accounted s
unfolding close accounted settle_all
close-accounted s = omega (
  arith,
  length-append s.settled (settle_all Outcome.closed_error s.queue),
  length-map {B = ℕ × Outcome} (λ job. (job.id, Outcome.closed_error)) s.queue,
)

-- From a scheduler of which this holds: however jobs are scheduled, cancelled, run and ended, and
-- whether or not the scheduler is closed, at most `max_concurrent` jobs are active, and a job waits
-- only while all the places are taken.
pub handle_all-IsBusy : (es : List Event) (s : Scheduler) → IsBusy s → IsBusy (handle_all es s)
unfolding handle_all handle
handle_all-IsBusy [] s h = h
handle_all-IsBusy (scheduled job ∷ es) s h = handle_all-IsBusy es _ (schedule-IsBusy job s h)
handle_all-IsBusy (cancelled owner ∷ es) s h = handle_all-IsBusy es _ (cancel-IsBusy owner s h)
handle_all-IsBusy (woken id ∷ es) s h = handle_all-IsBusy es _ (wake-IsBusy id s h)
handle_all-IsBusy (ended id failed ∷ es) s h = handle_all-IsBusy es _ (finish-IsBusy id _ s h)
handle_all-IsBusy (closed ∷ es) s h = handle_all-IsBusy es _ (close-IsBusy s h)

-- The number of jobs is conserved: the jobs that wait, are active or were settled are as many as
-- before plus those that were scheduled.
pub handle_all-accounted :
    (es : List Event) (s : Scheduler)
    → accounted (handle_all es s) ≡ accounted s + scheduled_count es
unfolding handle_all handle scheduled_count
handle_all-accounted [] s = omega arith
handle_all-accounted (scheduled job ∷ es) s =
    omega (arith, handle_all-accounted es (schedule job s), schedule-accounted job s)
handle_all-accounted (cancelled owner ∷ es) s =
    handle_all-accounted es (cancel owner s).1 ∙ rw (cancel-accounted owner s)
handle_all-accounted (woken id ∷ es) s =
    handle_all-accounted es (wake id s) ∙ rw (wake-accounted id s)
handle_all-accounted (ended id failed ∷ es) s =
    let outcome = if failed then threw else returned in
    handle_all-accounted es (finish id outcome s) ∙ rw (finish-accounted id outcome s)
handle_all-accounted (closed ∷ es) s = handle_all-accounted es (close s) ∙ rw (close-accounted s)
