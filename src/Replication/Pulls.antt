-- ===== src/Replication/Pulls.antt =====
-- The pulls in flight: src/replication-scheduler.js.
use objy.Common.{
  ℕ, ◌+◌, ◌≡◌, ◌⊎◌, refl, sym, ap, ◌∙◌, subst, Bool, true, false, not, Option, List, [], ◌∷◌, ◌++◌,
  if◌then◌else◌, filter_by, Member, Bool-cases, inl, inr, arith,
}
use objy.Common.Text.{Text, text_eq, text_eq_iff}
use objy.Common.Dict.{Dict, put}
use objy.Replication.{
  Pull, Replication, in_flight, drain_from, drain_pull_queue, enqueue_pull, pull_ended, pull_key,
}

-- 1 for a test that holds
abbrev pub one_if : Bool → ℕ
one_if true = 1
one_if false = 0

-- how many of the pulls have the key
abbrev pub count_key : Text → List (Text × Pull) → ℕ
count_key key [] = 0
count_key key ((k, p) ∷ begun) = one_if (text_eq k key) + count_key key begun

-- what is not equal to a key is not equal to what the key equals
other_key : (x k key : Text) → text_eq x key ≡ true → text_eq x k ≡ false → text_eq k key ≡ false
other_key x k key f e = elim (Bool-cases (text_eq k key)) [
  | inl g ↦
      let same : x ≡ k = (text_eq_iff x key).0 f ∙ sym ((text_eq_iff k key).0 g) in
      ground (arith, sym e ∙ (text_eq_iff x k).1 same)
  | inr g ↦ g
]

in_flight-snoc :
    (key k : Text) (keys : List Text)
    → in_flight k keys ≡ false
    → one_if (in_flight key (keys ++ (k ∷ [])))
      ≡ one_if (in_flight key keys) + one_if (text_eq k key)
in_flight-snoc key k [] h = elim (Bool-cases (text_eq k key)) [
  | inl e ↦ rw e refl
  | inr e ↦ rw e refl
]
in_flight-snoc key k (x ∷ keys) h = elim (Bool-cases (text_eq x k)) [
  | inl e ↦ ground (arith, rw e at h)
  | inr e ↦ elim (Bool-cases (text_eq x key)) [
    | inl f ↦ rw (f, other_key x k key f e) refl
    | inr f ↦ rw f (in_flight-snoc key k keys (rw e at h))
  ]
]

-- every pull that a drain starts is in flight after it, and was not before
drain_from-balance :
    (key : Text) (queue : Dict Pull) (inflight : List Text)
    → one_if (in_flight key (drain_from queue inflight).1.0)
      ≡ one_if (in_flight key inflight) + count_key key (drain_from queue inflight).1.1
unfolding drain_from
drain_from-balance key [] inflight = omega arith
drain_from-balance key ((k, p) ∷ queue) inflight = elim (Bool-cases (in_flight k inflight)) [
  | inl e ↦ rw e (drain_from-balance key queue inflight)
  | inr e ↦ rw e (
      omega (
        arith,
        drain_from-balance key queue (inflight ++ (k ∷ [])),
        in_flight-snoc key k inflight e,
      ))
]

in_flight-filter_by :
    (key k : Text) (keys : List Text)
    → in_flight key (filter_by (λ x. not (text_eq x k)) keys)
      ≡ (if text_eq k key then false else in_flight key keys)
in_flight-filter_by key k [] = elim (Bool-cases (text_eq k key)) [
  | inl e ↦ rw e refl
  | inr e ↦ rw e refl
]
in_flight-filter_by key k (x ∷ keys) = elim (Bool-cases (text_eq x k)) [
  | inl e ↦ elim (Bool-cases (text_eq k key)) [
    | inl f ↦ rw (e, in_flight-filter_by key k keys, f) refl
    | inr f ↦
        let g : text_eq x key ≡ false =
          subst (λ t. text_eq t key ≡ false) (sym ((text_eq_iff x k).0 e)) f in
        rw (e, in_flight-filter_by key k keys, f, g) refl
  ]
  | inr e ↦ elim (Bool-cases (text_eq x key)) [
    | inl f ↦ rw (e, f, other_key x k key f e) refl
    | inr f ↦ rw (e, f, in_flight-filter_by key k keys) refl
  ]
]

-- what happens to the pulls: one is asked for, one ends, or the queue is drained again
pub data Event : Type 0 where
  asked : Pull → Event
  ended : Text → Option Text → Event
  woken : Event

unfoldable pub handle : Event → Replication → List (Text × Pull) × Replication
unfolding enqueue_pull pull_ended drain_pull_queue
handle (asked p) r = enqueue_pull p r
handle (ended key failure) r = ([], pull_ended key failure r)
handle woken r = drain_pull_queue r

unfoldable pub handle_all : List Event → Replication → List (Text × Pull) × Replication
unfolding handle
handle_all [] r = ([], r)
handle_all (e ∷ events) r =
    let (begun, r') = handle e r in let (later, r'') = handle_all events r' in (begun ++ later, r'')

-- how many pulls with the key in flight the events end
unfoldable pub ends : Text → Event → Replication → ℕ
ends key (ended k failure) r = if text_eq k key then one_if (in_flight key r.inflight_pulls) else 0
ends key e r = 0

unfoldable pub ends_all : Text → List Event → Replication → ℕ
unfolding ends handle
ends_all key [] r = 0
ends_all key (e ∷ events) r = ends key e r + ends_all key events (handle e r).1

count_key-append :
    (key : Text) (a b : List (Text × Pull))
    → count_key key (a ++ b) ≡ count_key key a + count_key key b
count_key-append key [] b = omega arith
count_key-append key ((k, p) ∷ a) b = omega (arith, count_key-append key a b)

abbrev pub flying : Text → Replication → ℕ
flying key r = one_if (in_flight key r.inflight_pulls)

drain-balance :
    (key : Text) (r : Replication)
    → flying key r + count_key key (drain_pull_queue r).0 ≡ flying key (drain_pull_queue r).1
unfolding drain_pull_queue
drain-balance key r = sym (drain_from-balance key r.pull_queue r.inflight_pulls)

handle-balance :
    (key : Text) (e : Event) (r : Replication)
    → flying key r + count_key key (handle e r).0 ≡ flying key (handle e r).1 + ends key e r
unfolding handle ends enqueue_pull pull_ended
handle-balance key (asked p) r =
    omega (arith, drain-balance key (record r { pull_queue = put (pull_key p) p r.pull_queue }))
handle-balance key (ended k failure) r =
    rw (in_flight-filter_by key k r.inflight_pulls) (elim (Bool-cases (text_eq k key)) [
      | inl e ↦ rw e (omega arith)
      | inr e ↦ rw e (omega arith)
    ])
handle-balance key woken r = omega (arith, drain-balance key r)

-- Whatever pulls are asked for, end and are taken up again, from one with a key to the next: the
-- pulls with that key that were in flight or were started are as many as those that ended and the
-- at most one that is in flight now, so that two pulls of one scope from one peer never run at a
-- time.
pub handle_all-balance :
    (key : Text) (events : List Event) (r : Replication)
    → flying key r + count_key key (handle_all events r).0
      ≡ flying key (handle_all events r).1 + ends_all key events r
unfolding handle_all ends_all
handle_all-balance key [] r = refl
handle_all-balance key (e ∷ events) r = omega (
  arith,
  count_key-append key (handle e r).0 (handle_all events (handle e r).1).0,
  handle-balance key e r,
  handle_all-balance key events (handle e r).1,
)

one_if-true : (b : Bool) (n : ℕ) → one_if b ≡ 1 + n → b ≡ true
one_if-true true n h = refl
one_if-true false n h = ground (arith, h)

-- what is in flight stays so
drain_from-in_flight :
    (k : Text) (queue : Dict Pull) (inflight : List Text)
    → in_flight k inflight ≡ true
    → in_flight k (drain_from queue inflight).1.0 ≡ true
drain_from-in_flight k queue inflight h =
    one_if-true _ (count_key k (drain_from queue inflight).1.1) (
      drain_from-balance k queue inflight
      ∙ ap (λ b. one_if b + count_key k (drain_from queue inflight).1.1) h)

abbrev Placed : Text × Pull → Dict Pull × (List Text × List (Text × Pull)) → Type 0
Placed e d = Member e d.1.1 ⊎ (Member e d.0 × (in_flight e.0 d.1.0 ≡ true))

Placed-kept :
    (e x : Text × Pull) (d : Dict Pull × (List Text × List (Text × Pull)))
    → Placed e d
    → Placed e (x ∷ d.0, (d.1.0, d.1.1))
Placed-kept e x d (inl m) = inl m
Placed-kept e x d (inr m) = inr (inr m.0, m.1)

Placed-begun :
    (e x : Text × Pull) (d : Dict Pull × (List Text × List (Text × Pull)))
    → Placed e d
    → Placed e (d.0, (d.1.0, x ∷ d.1.1))
Placed-begun e x d (inl m) = inl (inr m)
Placed-begun e x d (inr m) = inr m

-- a queued pull is started by a drain, or stays queued behind one in flight
drain_from-Placed :
    (k : Text) (p : Pull) (queue : Dict Pull) (inflight : List Text)
    → Member (k, p) queue
    → Placed (k, p) (drain_from queue inflight)
unfolding drain_from
drain_from-Placed k p [] inflight m = absurd m
drain_from-Placed k p ((j, q) ∷ queue) inflight (inl m) = elim (Bool-cases (in_flight j inflight)) [
  | inl e ↦ rw e (
      inr (
        inl m,
        drain_from-in_flight k queue inflight
            (subst (λ t. in_flight t inflight ≡ true) (sym (ap (λ x. x.0) m)) e),
      ))
  | inr e ↦ rw e (inl (inl m))
]
drain_from-Placed k p ((j, q) ∷ queue) inflight (inr m) = elim (Bool-cases (in_flight j inflight)) [
  | inl e ↦ rw e (
      Placed-kept (k, p) (j, q) (drain_from queue inflight)
        (drain_from-Placed k p queue inflight m))
  | inr e ↦ rw e (
      Placed-begun (k, p) (j, q) (drain_from queue (inflight ++ (j ∷ [])))
        (drain_from-Placed k p queue (inflight ++ (j ∷ [])) m))
]

Member-put : (k : Text) (p : Pull) (d : Dict Pull) → Member (k, p) (put k p d)
unfolding put
Member-put k p [] = inl refl
Member-put k p ((j, q) ∷ d) = elim (Bool-cases (text_eq j k)) [
  | inl e ↦ rw e (inl refl)
  | inr e ↦ rw e (inr (Member-put k p d))
]

-- A pull that is asked for is started at once, or it waits in the queue behind one in flight with
-- the same peer and scope.
pub enqueue_pull-Placed :
    (p : Pull) (r : Replication)
    → Member (pull_key p, p) (enqueue_pull p r).0
      ⊎ (Member (pull_key p, p) (enqueue_pull p r).1.pull_queue
          × (in_flight (pull_key p) (enqueue_pull p r).1.inflight_pulls ≡ true))
unfolding enqueue_pull drain_pull_queue
enqueue_pull-Placed p r =
    drain_from-Placed (pull_key p) p (put (pull_key p) p r.pull_queue) r.inflight_pulls
      (Member-put (pull_key p) p r.pull_queue)
