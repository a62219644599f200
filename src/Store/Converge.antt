-- ===== src/Store/Converge.antt =====
-- Strong eventual consistency of the store: what a peer holds depends only on which operations it
-- has received, not on their order, their grouping into batches or how often they came.
use objy.Common.{
  ◌≡◌, ◌⊎◌, refl, sym, ◌∙◌, Bool, true, false, List, [], ◌∷◌, ◌++◌, if◌then◌else◌, arith,
  Bool-cases, inl, inr, Member,
}
use objy.Clock.Order.{ts_gt_total}
use objy.Collection.Version.{Version}
use objy.Op.{Op, written}
use objy.Store.{Store, skipped, apply_ops}
use objy.Store.Runs.{apply_op, apply_each, apply_ops-apply_each}
use objy.Store.Address.{
  Address, version_at, AllOrdered, targets, skipped-apply_op, apply_op-AllOrdered, apply_op-absorb,
}
use objy.Store.Newest.{IsNewest, merge, merge_all, merge-IsNewest}

module _ {A : Type 0} where
  -- an operation that the store applies, on this object
  unfoldable pub counts : Store A → Address → Op A → Bool
  counts st a op = if skipped op st then false else targets a op

  -- the versions at one address, as the operations arrive
  merge-apply_op :
      (base st : Store A) (a : Address) (op : Op A)
      → AllOrdered st
      → ((p : Op A) → skipped p st ≡ skipped p base)
      → version_at a (apply_op op st).0
        ≡ merge (counts base a) (version_at a base) (version_at a st) op
  unfolding merge counts
  merge-apply_op base st a op w same = elim (Bool-cases (skipped op st)) [
    | inl e ↦ rw (sym (same op) ∙ e) (unfold apply_op in rw e)
    | inr e ↦ rw (sym (same op) ∙ e) (apply_op-absorb op a st w e)
  ]

  merge_all-apply_each :
      (base : Store A) (a : Address) (ops : List (Op A)) (st : Store A)
      → AllOrdered st
      → ((p : Op A) → skipped p st ≡ skipped p base)
      → version_at a (apply_each ops st).0
        ≡ merge_all (counts base a) (version_at a base) ops (version_at a st)
  unfolding apply_each merge_all
  merge_all-apply_each base a [] st w same = refl
  merge_all-apply_each base a (op ∷ ops) st w same = rw (← merge-apply_op base st a op w same) (
      merge_all-apply_each base a ops (apply_op op st).0 (apply_op-AllOrdered op st w)
        (λ p. skipped-apply_op op p st ∙ same p))

  rev_onto : List (Op A) → List (Op A) → List (Op A)
  rev_onto [] seen = seen
  rev_onto (x ∷ xs) seen = rev_onto xs (x ∷ seen)

  mem-rev_onto :
      (p : Op A) (xs seen : List (Op A)) → Member p xs ⊎ Member p seen → Member p (rev_onto xs seen)
  unfolding rev_onto
  mem-rev_onto p [] seen (inl m) = absurd m
  mem-rev_onto p [] seen (inr m) = m
  mem-rev_onto p (x ∷ xs) seen (inl (inl e)) = mem-rev_onto p xs (x ∷ seen) (inr (inl e))
  mem-rev_onto p (x ∷ xs) seen (inl (inr m)) = mem-rev_onto p xs (x ∷ seen) (inl m)
  mem-rev_onto p (x ∷ xs) seen (inr m) = mem-rev_onto p xs (x ∷ seen) (inr (inr m))

  rev_onto-mem :
      (p : Op A) (xs seen : List (Op A)) → Member p (rev_onto xs seen) → Member p xs ⊎ Member p seen
  unfolding rev_onto
  rev_onto-mem p [] seen m = inr m
  rev_onto-mem p (x ∷ xs) seen m = elim (rev_onto-mem p xs (x ∷ seen) m) [
    | inl h ↦ inl (inr h)
    | inr (inl e) ↦ inl (inl e)
    | inr (inr h) ↦ inr h
  ]

  module _ (touches : Op A → Bool) (start : Version A) where
    merge_all-IsNewest :
        (ops seen : List (Op A)) (r : Version A)
        → IsNewest touches start seen r
        → IsNewest touches start (rev_onto ops seen) (merge_all touches start ops r)
    unfolding merge_all rev_onto
    merge_all-IsNewest [] seen r h = h
    merge_all-IsNewest (op ∷ ops) seen r h =
        merge_all-IsNewest ops (op ∷ seen) (merge touches start r op)
          (merge-IsNewest touches start seen op r h)

    -- the newest version of a list is the newest of any list with the same members
    pub IsNewest-unique :
        (xs ys : List (Op A)) (r q : Version A)
        → ((p : Op A) → Member p xs → Member p ys)
        → ((p : Op A) → Member p ys → Member p xs)
        → ((o p : Op A)
            → Member o xs
            → Member p xs
            → touches o ≡ true
            → touches p ≡ true
            → o.ts ≡ p.ts
            → written o ≡ written p)
        → IsNewest touches start xs r
        → IsNewest touches start ys q
        → r ≡ q
    IsNewest-unique xs ys r q to from once (inl (e, _)) (inl (f, _)) = e ∙ sym f
    IsNewest-unique xs ys r q to from once (inl (e, all)) (inr (o, m, t, w, n, _)) =
        absurd (cc (all o (from o m) t, n))
    IsNewest-unique xs ys r q to from once (inr (o, m, t, w, n, _)) (inl (e, all)) =
        absurd (cc (all o (to o m) t, n))
    IsNewest-unique xs ys r q to from once (inr (o, m, t, w, n, all))
          (inr (p, m', t', w', n', all')) =
        w
        ∙ once o p m (from p m') t t'
            (ts_gt_total o.ts p.ts (all' o (to o m) t) (all p (from p m') t'))
        ∙ sym w'

-- Two peers have received the same operations.
pub record SameOps {A : Type 0} (xs ys : List (Op A)) : Type 0 where
  pub to : (p : Op A) → Member p xs → Member p ys
  pub from : (p : Op A) → Member p ys → Member p xs

-- A timestamp is handed out once: two operations on one object that share it write the same.
pub record OneWritePerStamp {A : Type 0} (xs : List (Op A)) : Type 0 where
  pub once :
      (a : Address) (o p : Op A)
      → Member o xs
      → Member p xs
      → targets a o ≡ true
      → targets a p ≡ true
      → o.ts ≡ p.ts
      → written o ≡ written p

module _ {A : Type 0} where
  counts-targets :
      (st : Store A) (a : Address) (op : Op A) → counts st a op ≡ true → targets a op ≡ true
  unfolding counts
  counts-targets st a op h = ground arith

  in_list : (p : Op A) (xs : List (Op A)) → Member p (rev_onto xs []) → Member p xs
  in_list p xs m = elim (rev_onto-mem p xs [] m) [ inl h ↦ h | inr h ↦ absurd h ]

  -- the store after calls of applyOps, one for each batch
  unfoldable pub apply_batches : List (List (Op A)) → Store A → Store A
  apply_batches [] st = st
  apply_batches (ops ∷ batches) st = apply_batches batches (apply_ops ops st).0

  -- the operations of all batches
  abbrev pub received : List (List (Op A)) → List (Op A)
  received [] = []
  received (ops ∷ batches) = ops ++ received batches

  apply_each-append :
      (xs ys : List (Op A)) (st : Store A)
      → (apply_each (xs ++ ys) st).0 ≡ (apply_each ys (apply_each xs st).0).0
  unfolding apply_each
  apply_each-append [] ys st = refl
  apply_each-append (op ∷ xs) ys st = apply_each-append xs ys (apply_op op st).0

  apply_batches-each :
      (batches : List (List (Op A))) (st : Store A)
      → apply_batches batches st ≡ (apply_each (received batches) st).0
  unfolding apply_batches apply_each
  apply_batches-each [] st = refl
  apply_batches-each (ops ∷ batches) st =
      rw (apply_ops-apply_each, apply_each-append ops (received batches) st)
        (apply_batches-each batches (apply_each ops st).0)

  IsNewest-after :
      (st : Store A) (a : Address) (batches : List (List (Op A)))
      → AllOrdered st
      → IsNewest
          (counts st a)
          (version_at a st)
          (rev_onto (received batches) [])
          (version_at a (apply_batches batches st))
  IsNewest-after st a batches w =
      rw (apply_batches-each, merge_all-apply_each st a (received batches) st w (λ p. refl))
        (merge_all-IsNewest (counts st a) (version_at a st) (received batches) [] (version_at a st)
          (inl (refl, λ p m. absurd m)))

  -- Where tombstones are newer than what they cover, and two operations on one object that share a
  -- timestamp write the same, two stores that start alike and receive the same operations in calls
  -- of applyOps, in any order, split into any batches and with any repetitions, hold the same
  -- version of every object, tombstones included.
  pub apply_ops_converge :
      (st : Store A) (xss yss : List (List (Op A))) (a : Address)
      → AllOrdered st
      → SameOps (received xss) (received yss)
      → OneWritePerStamp (received xss)
      → version_at a (apply_batches xss st) ≡ version_at a (apply_batches yss st)
  apply_ops_converge st xss yss a w same one =
      let xs = received xss in
      let ys = received yss in
      IsNewest-unique (counts st a) (version_at a st) (rev_onto xs []) (rev_onto ys [])
        (version_at a (apply_batches xss st)) (version_at a (apply_batches yss st))
        (λ p m. mem-rev_onto p ys [] (inl (same.to p (in_list p xs m))))
        (λ p m. mem-rev_onto p xs [] (inl (same.from p (in_list p ys m))))
        (λ o p mo mp to tp.
          one.once a o p (in_list o xs mo) (in_list p xs mp) (counts-targets st a o to)
            (counts-targets st a p tp))
        (IsNewest-after st a xss w) (IsNewest-after st a yss w)
