-- ===== src/Store/Newest.antt =====
-- The newest of a set of writes, whatever the order and the number of times they arrive.
use objy.Common.{
  ◌≡◌, ◌⊎◌, refl, subst, Option, none, some, sym, Bool, true, false, List, [], ◌∷◌, if◌then◌else◌,
  arith, Bool-cases, inl, inr, Member,
}
use objy.Clock.{Ts, ts_gt}
use objy.Clock.Order.{ts_gt_irrefl, ts_gt_trans}
use objy.Collection.Version.{Version, stamp, newer, absorb}
use objy.Op.{Op, written}

-- a timestamp newer than one that wins against the start wins against it too
newer_trans : (a b : Ts) (o : Option Ts) → ts_gt a b ≡ true → newer b o ≡ true → newer a o ≡ true
unfolding newer
newer_trans a b none h k = refl
newer_trans a b (some u) h k = ts_gt_trans a b u h k

newer_loses : (a b : Ts) (o : Option Ts) → newer a o ≡ false → newer b o ≡ true → ts_gt a b ≡ false
newer_loses a b o h k = ground (arith, newer_trans a b o)

module _ {A : Type 0} where
  pub stamp-written : (op : Op A) → stamp (written op) ≡ some op.ts
  unfolding written
  stamp-written op = ground arith

  pub absorb-written :
      (cur : Version A) (op : Op A)
      → absorb cur (written op) ≡ (if newer op.ts (stamp cur) then written op else cur)
  unfolding absorb written
  absorb-written cur op = ground arith

  module _ (touches : Op A → Bool) (start : Version A) where
    -- Either no operation on the object is newer than what was there at the start, or the version
    -- is that of an operation on it which none beats.
    abbrev pub Untouched : List (Op A) → Version A → Type 0
    Untouched seen r =
        (r ≡ start)
        × ((p : Op A) → Member p seen → touches p ≡ true → newer p.ts (stamp start) ≡ false)

    abbrev pub Won : List (Op A) → Version A → Type 0
    Won seen r =
        (o : Op A) × Member o seen
        × (touches o ≡ true)
        × (r ≡ written o)
        × (newer o.ts (stamp start) ≡ true)
        × ((p : Op A) → Member p seen → touches p ≡ true → ts_gt p.ts o.ts ≡ false)

    abbrev pub IsNewest : List (Op A) → Version A → Type 0
    IsNewest seen r = Untouched seen r ⊎ Won seen r

    unfoldable pub merge : Version A → Op A → Version A
    merge r op = if touches op then absorb r (written op) else r

    unfoldable pub merge_all : List (Op A) → Version A → Version A
    unfolding merge
    merge_all [] r = r
    merge_all (op ∷ ops) r = merge_all ops (merge r op)

    extend_all :
        (P : Op A → Type 0) (op : Op A) (seen : List (Op A))
        → P op
        → ((p : Op A) → Member p seen → P p)
        → (p : Op A) → Member p (op ∷ seen)
        → P p
    extend_all P op seen h hs p (inl e) = subst P (sym e) h
    extend_all P op seen h hs p (inr m) = hs p m

    -- an operation on another object
    merge-other :
        (seen : List (Op A)) (op : Op A) (r : Version A)
        → touches op ≡ false
        → IsNewest seen r
        → IsNewest (op ∷ seen) r
    merge-other seen op r e (inl (s, all)) = inl (
      s,
      extend_all (λ p. touches p ≡ true → newer p.ts (stamp start) ≡ false) op seen (λ t. cc) all,
    )
    merge-other seen op r e (inr (o, m, t, w, n, all)) = inr (
      o,
      inr m,
      t,
      w,
      n,
      extend_all (λ p. touches p ≡ true → ts_gt p.ts o.ts ≡ false) op seen (λ t. cc) all,
    )

    -- an operation on this object, while nothing on it was newer than the start
    merge-first :
        (seen : List (Op A)) (op : Op A)
        → touches op ≡ true
        → ((p : Op A) → Member p seen → touches p ≡ true → newer p.ts (stamp start) ≡ false)
        → IsNewest (op ∷ seen) (absorb start (written op))
    merge-first seen op e all = elim (Bool-cases (newer op.ts (stamp start))) [
      | inl n ↦ inr (
        op,
        inl refl,
        e,
        rw (absorb-written start op, n),
        n,
        extend_all (λ p. touches p ≡ true → ts_gt p.ts op.ts ≡ false) op seen
            (λ t. ts_gt_irrefl op.ts) (λ p m t. newer_loses p.ts op.ts (stamp start) (all p m t) n),
      )
      | inr n ↦ inl (
        rw (absorb-written start op, n),
        extend_all (λ p. touches p ≡ true → newer p.ts (stamp start) ≡ false) op seen (λ t. n) all,
      )
    ]

    -- an operation on this object, against the one that has won so far
    merge-next :
        (seen : List (Op A)) (op o : Op A)
        → Member o seen
        → touches op ≡ true
        → touches o ≡ true
        → newer o.ts (stamp start) ≡ true
        → ((p : Op A) → Member p seen → touches p ≡ true → ts_gt p.ts o.ts ≡ false)
        → IsNewest (op ∷ seen) (absorb (written o) (written op))
    unfolding newer
    merge-next seen op o m e t n all = elim (Bool-cases (ts_gt op.ts o.ts)) [
      | inl g ↦ inr (
        op,
        inl refl,
        e,
        rw (absorb-written (written o) op, stamp-written o, g),
        newer_trans op.ts o.ts (stamp start) g n,
        extend_all (λ p. touches p ≡ true → ts_gt p.ts op.ts ≡ false) op seen
            (λ t'. ts_gt_irrefl op.ts)
            (λ p m' t'. ground (arith, all p m' t', ts_gt_trans p.ts op.ts o.ts)),
      )
      | inr g ↦ inr (
        o,
        inr m,
        t,
        rw (absorb-written (written o) op, stamp-written o, g),
        n,
        extend_all (λ p. touches p ≡ true → ts_gt p.ts o.ts ≡ false) op seen (λ t'. g) all,
      )
    ]

    pub merge-IsNewest :
        (seen : List (Op A)) (op : Op A) (r : Version A)
        → IsNewest seen r
        → IsNewest (op ∷ seen) (merge r op)
    unfolding merge
    merge-IsNewest seen op r h = elim (Bool-cases (touches op)) [
      | inr e ↦ rw e (merge-other seen op r e h)
      | inl e ↦ rw e (on e h)
    ]
      where
        on : touches op ≡ true → IsNewest seen r → IsNewest (op ∷ seen) (absorb r (written op))
        on e (inl (s, all)) = rw s (merge-first seen op e all)
        on e (inr (o, m, t, w, n, all)) = rw w (merge-next seen op o m e t n all)
