-- ===== src/Node/Stamps.antt =====
-- The local writes of a node stamp each operation anew, and treat each id of a request once.
use objy.Common.{
  ℕ, ◌+◌, ◌≤◌, ◌<◌, ◌≡◌, ◌≢◌, refl, subst, sym, ap, ◌∙◌, Bool, false, not, List, [], ◌∷◌, any,
  filter_by, map, All, All-Member, Member, arith, Bool-cases, inl, inr,
}
use objy.Common.Fallible.{ok, passed-ok, then-ok}
use objy.Common.Text.{Text, text_eq, text_eq_iff}
use objy.Clock.{Ts, next_ts}
use objy.Clock.Order.{next_ts-count}
use objy.Op.{Op, written}
use objy.Store.Converge.{OneWritePerStamp}
use objy.ShardMap.Sort.{Distinct}
use objy.Node.Write.{
  Item, empty_id, duplicate_id, check_ids, assert_unique_ids, normalize_ids, stamp_items,
  stamp_deletes,
}

-- stamps past a counter, each operation's before those of the later ones
abbrev Rising : {A : Type 0} → ℕ → List (Op A) → Type 0
Rising lo [] = Unit
Rising lo (op ∷ ops) = (lo < op.ts.c) × Rising op.ts.c ops

module _ {A : Type 0} where
  Rising-above :
      (lo hi : ℕ) (ops : List (Op A)) (op : Op A)
      → lo ≤ hi
      → Rising hi ops
      → Member op ops
      → lo < op.ts.c
  Rising-above lo hi [] op l r m = absurd m
  Rising-above lo hi (x ∷ ops) op l r (inl e) = rw e (omega (arith, r.0))
  Rising-above lo hi (x ∷ ops) op l r (inr m) =
      Rising-above lo x.ts.c ops op (omega (arith, r.0)) r.1 m

  Rising-once :
      (lo : ℕ) (ops : List (Op A)) (o p : Op A)
      → Rising lo ops
      → Member o ops
      → Member p ops
      → o.ts.c ≡ p.ts.c
      → o ≡ p
  Rising-once lo [] o p r m k e = absurd m
  Rising-once lo (x ∷ ops) o p r (inl a) (inl b) e = a ∙ sym b
  Rising-once lo (x ∷ ops) o p r (inl a) (inr k) e = absurd (
      omega (
        arith,
        Rising-above x.ts.c x.ts.c ops p (omega arith) r.1 k,
        e,
        ap (λ (q : Op A). q.ts.c) a,
      ))
  Rising-once lo (x ∷ ops) o p r (inr m) (inl b) e = absurd (
      omega (
        arith,
        Rising-above x.ts.c x.ts.c ops o (omega arith) r.1 m,
        e,
        ap (λ (q : Op A). q.ts.c) b,
      ))
  Rising-once lo (x ∷ ops) o p r (inr m) (inr k) e = Rising-once x.ts.c ops o p r.1 m k e

  stamp_items-Rising :
      (db coll : Text) (items : List (Item A)) (clock : Ts)
      → Rising clock.c (stamp_items db coll items clock).0
  unfolding stamp_items
  stamp_items-Rising db coll [] clock = tt
  stamp_items-Rising db coll (item ∷ items) clock =
      let (a, b) = next_ts-count clock in
      (
        omega (arith, b),
        subst (λ k. Rising k (stamp_items db coll items (next_ts clock).0).0) (a ∙ sym b)
            (stamp_items-Rising db coll items (next_ts clock).0),
      )

  -- Two operations of one local write that share an object and a timestamp write the same, as
  -- convergence asks of all operations.
  pub stamp_items-OneWritePerStamp :
      (db coll : Text) (items : List (Item A)) (clock : Ts)
      → OneWritePerStamp (stamp_items db coll items clock).0
  stamp_items-OneWritePerStamp db coll items clock = record {
    once = λ a o p mo mp to tp e. ap written (
        Rising-once clock.c (stamp_items db coll items clock).0 o p
          (stamp_items-Rising db coll items clock) mo mp (ap (λ (t : Ts). t.c) e));
  }

-- A bulk delete makes one operation for each id that is there, and skips the others, both in the
-- order of the request.
pub stamp_deletes-partition :
    (A : Type 0) (present : Text → Bool) (db coll : Text) (ids : List Text) (clock : Ts)
    → (map (λ (op : Op A). op.id) (stamp_deletes {A = A} present db coll ids clock).0.0
        ≡ filter_by present ids)
      × ((stamp_deletes {A = A} present db coll ids clock).0.1
          ≡ filter_by (λ id. not (present id)) ids)
unfolding stamp_deletes
stamp_deletes-partition A present db coll [] clock = (refl, refl)
stamp_deletes-partition A present db coll (id ∷ ids) clock = elim (Bool-cases (present id)) [
  | inl e ↦
      let (a, b) = stamp_deletes-partition A present db coll ids (next_ts clock).0 in
      rw e (ap (λ l. id ∷ l) a, b)
  | inr e ↦
      let (a, b) = stamp_deletes-partition A present db coll ids clock in
      rw e (a, ap (λ l. id ∷ l) b)
]

no_any : (id : Text) (seen : List Text) → any (λ x. text_eq x id) seen ≡ false → ¬ Member id seen
no_any id [] h m = m
no_any id (x ∷ seen) h (inl e) = cc (h, (text_eq_iff x id).1 (sym e))
no_any id (x ∷ seen) h (inr m) = no_any id seen (ground arith) m

check_ids-ok : (i : ℕ) (ids : List Text) → check_ids i ids ≡ ok tt → All (λ id. id ≢ []) ids
unfolding check_ids
check_ids-ok i [] h = tt
check_ids-ok i (id ∷ ids) h =
    let (e, later) = passed-ok (text_eq id []) (empty_id i) (check_ids (i + 1) ids) h in
    ((λ p. cc (e, (text_eq_iff id []).1 p)), check_ids-ok (i + 1) ids later)

assert_unique_ids-ok :
    (i : ℕ) (seen ids : List Text)
    → assert_unique_ids i seen ids ≡ ok tt
    → All (λ id. ¬ Member id seen) ids × Distinct ids
unfolding assert_unique_ids
assert_unique_ids-ok i seen [] h = (tt, tt)
assert_unique_ids-ok i seen (id ∷ ids) h =
    let (e, later) =
      passed-ok (any (λ x. text_eq x id) seen) (duplicate_id i id)
        (assert_unique_ids (i + 1) (id ∷ seen) ids) h in
    let (apart, d) = assert_unique_ids-ok (i + 1) (id ∷ seen) ids later in
    ((no_any id seen e, weaken ids apart), ((λ m. All-Member _ ids apart m (inl refl)), d))
  where
    weaken : (xs : List Text) → All (λ x. ¬ Member x (id ∷ seen)) xs → All (λ x. ¬ Member x seen) xs
    weaken [] a = tt
    weaken (x ∷ xs) a = ((λ m. a.0 (inr m)), weaken xs a.1)

-- The ids that a bulk request is accepted with are those it gave; none is empty and none comes
-- twice.
pub normalize_ids-ok :
    (ids accepted : List Text)
    → normalize_ids ids ≡ ok accepted
    → (accepted ≡ ids) × All (λ id. id ≢ []) ids × Distinct ids
unfolding normalize_ids
normalize_ids-ok ids accepted h =
    let (a, h1) = then-ok (check_ids 0 ids) _ h in
    let (b, h2) = then-ok (assert_unique_ids 0 [] ids) _ h1 in
    (cc h2, check_ids-ok 0 ids a, (assert_unique_ids-ok 0 [] ids b).1)
