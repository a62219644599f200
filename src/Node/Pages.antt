-- ===== src/Node/Pages.antt =====
-- A limited pull is a page of the unlimited one, and a pull from the last sequence number of a page
-- goes on right behind it.
use objy.Common.{
  ℕ, zero, suc, ◌+◌, ◌-◌, ◌<◌, ◌≤◌, ◌≡◌, ◌≢◌, ◌⊎◌, refl, sym, ◌∙◌, ap, subst, take-append-drop, leb,
  ltb, Bool, true, false, not, ◌&&◌, Option, none, some, List, [], ◌∷◌, ◌++◌, if◌then◌else◌, take,
  drop, length, filter_by, All, arith, Bool-cases, inl, inr,
}
use objy.Op.{Op}
use objy.Node.{Node, ops_from, ops_after, last_seq}
use objy.Node.Scopes.{Scope, op_matches_scope}
use objy.Node.Log.{Ascending, IsLogged}

module _ {A : Type 0} where
  abbrev wanted : ℕ → Option Scope → Op A → Bool
  wanted after scope op = if leb op.seq after then false else op_matches_scope op scope

  ops_from-all :
      (after count : ℕ) (scope : Option Scope) (log : List (Op A))
      → ops_from after 0 scope count log ≡ filter_by (wanted after scope) log
  unfolding ops_from
  ops_from-all after count scope [] = refl
  ops_from-all after count scope (op ∷ log) =
      ground (arith, ops_from-all after count scope log, ops_from-all after (count + 1) scope log)

  ops_from-take :
      (after k left count : ℕ) (scope : Option Scope) (log : List (Op A))
      → count + suc left ≡ suc k
      → ops_from after (suc k) scope count log
        ≡ take (suc left) (filter_by (wanted after scope) log)
  unfolding ops_from
  ops_from-take after k left count scope [] e = refl
  ops_from-take after k zero count scope (op ∷ log) e =
      ground (arith, ops_from-take after k zero count scope log)
  ops_from-take after k (suc left) count scope (op ∷ log) e = ground (
    arith,
    ops_from-take after k (suc left) count scope log,
    ops_from-take after k left (count + 1) scope log,
  )

  -- past `x`, cursors up to `x` want the same
  wanted-same :
      (after later : ℕ) (scope : Option Scope) (log : List (Op A))
      → after ≤ later
      → All (λ op. later < op.seq) log
      → filter_by (wanted later scope) log ≡ filter_by (wanted after scope) log
  wanted-same after later scope [] h a = refl
  wanted-same after later scope (op ∷ log) h a =
      ground (arith, a.0, wanted-same after later scope log h a.1)

  All-wanted :
      (P : Op A → Type 0) (after : ℕ) (scope : Option Scope) (log : List (Op A))
      → All P log
      → All P (filter_by (wanted after scope) log)
  All-wanted P after scope log h = objy.Common.All-filter_by P (wanted after scope) log h

  -- the last of a page lies above whatever lies below all of them
  last-above :
      (lo k : ℕ) (x : Op A) (xs : List (Op A))
      → All (λ op. lo < op.seq) (x ∷ xs)
      → lo < last_seq (take (suc k) (x ∷ xs))
  unfolding last_seq
  last-above lo zero x xs h = h.0
  last-above lo (suc k) x [] h = h.0
  last-above lo (suc k) x (y ∷ ys) h = last-above lo k y ys h.1

  wanted-above :
      (after : ℕ) (scope : Option Scope) (log : List (Op A))
      → All (λ op. after < op.seq) (filter_by (wanted after scope) log)
  wanted-above after scope [] = tt
  wanted-above after scope (op ∷ log) = elim (Bool-cases (wanted after scope op)) [
    | inl e ↦ rw e (ground arith, wanted-above after scope log)
    | inr e ↦ rw e (wanted-above after scope log)
  ]

  page_above :
      (lo k : ℕ) (xs : List (Op A))
      → xs ≢ []
      → All (λ op. lo < op.seq) xs
      → lo < last_seq (take (suc k) xs)
  page_above lo k [] n h = absurd (n refl)
  page_above lo k (x ∷ xs) n h = last-above lo k x xs h

  list-cases : (xs : List (Op A)) → (xs ≡ []) ⊎ (xs ≢ [])
  list-cases [] = inl refl
  list-cases (x ∷ xs) = inr (λ e. cc)

  last_seq-cons : (x : Op A) (xs : List (Op A)) → xs ≢ [] → last_seq (x ∷ xs) ≡ last_seq xs
  unfolding last_seq
  last_seq-cons x [] n = absurd (n refl)
  last_seq-cons x (y ∷ ys) n = refl

  take-ne-nil : (k : ℕ) (xs : List (Op A)) → xs ≢ [] → take (suc k) xs ≢ []
  take-ne-nil k [] n e = n refl
  take-ne-nil k (x ∷ xs) n e = cc

  -- an operation not past the cursor is passed over
  passed :
      (later : ℕ) (scope : Option Scope) (op : Op A) (log : List (Op A))
      → op.seq ≤ later
      → filter_by (wanted later scope) (op ∷ log) ≡ filter_by (wanted later scope) log
  passed later scope op log h = ground arith

  unwanted_later :
      (after later : ℕ) (scope : Option Scope) (op : Op A) (log : List (Op A))
      → after < later
      → wanted after scope op ≡ false
      → filter_by (wanted later scope) (op ∷ log) ≡ filter_by (wanted later scope) log
  unwanted_later after later scope op log h e = ground arith

  abbrev Resumes : ℕ → ℕ → Option Scope → List (Op A) → List (Op A) → Type 0
  Resumes k after scope log found =
      filter_by (wanted (last_seq (take (suc k) found)) scope) log ≡ drop (suc k) found

  module _ (after : ℕ) (scope : Option Scope) (op : Op A) (log : List (Op A)) where
    abbrev rest : List (Op A)
    rest = filter_by (wanted after scope) log

    resume_skip :
        (k : ℕ)
        → wanted after scope op ≡ false
        → rest ≢ []
        → Resumes k after scope log rest
        → Resumes k after scope (op ∷ log) rest
    resume_skip k e n ih =
        unwanted_later after (last_seq (take (suc k) rest)) scope op log
          (page_above after k rest n (wanted-above after scope log)) e
        ∙ ih

    resume_here :
        wanted after scope op ≡ true
        → All (λ later. op.seq < later.seq) log
        → filter_by (wanted op.seq scope) (op ∷ log) ≡ rest
    resume_here e a =
        passed op.seq scope op log (omega arith)
        ∙ wanted-same after op.seq scope log (ground arith) a

    resume_on :
        (k : ℕ)
        → wanted after scope op ≡ true
        → All (λ later. op.seq < later.seq) log
        → ((j : ℕ) → rest ≢ [] → Resumes j after scope log rest)
        → Resumes k after scope (op ∷ log) (op ∷ rest)
    unfolding last_seq
    resume_on zero e a ih = resume_here e a
    resume_on (suc k) e a ih = elim (list-cases rest) [
      | inl r ↦
          subst (λ L. Resumes (suc k) after scope (op ∷ log) (op ∷ L)) (sym r) (resume_here e a ∙ r)
      | inr n ↦
          subst (λ s. filter_by (wanted s scope) (op ∷ log) ≡ drop (suc k) rest)
            (sym (last_seq-cons op (take (suc k) rest) (take-ne-nil k rest n)))
            (passed (last_seq (take (suc k) rest)) scope op log
                (omega (arith, page_above op.seq k rest n (All-wanted _ after scope log a)))
              ∙ ih k n)
    ]

  -- the cursor of the last operation of a page wants exactly what lies behind the page
  resume :
      (after k : ℕ) (scope : Option Scope) (log : List (Op A))
      → Ascending log
      → filter_by (wanted after scope) log ≢ []
      → Resumes k after scope log (filter_by (wanted after scope) log)
  resume after k scope [] a n = absurd (n refl)
  resume after k scope (op ∷ log) a n = elim (Bool-cases (wanted after scope op)) [
    | inr e ↦
        let f = ap (λ b. if b then op ∷ rest after scope op log else rest after scope op log) e in
        let n' : rest after scope op log ≢ [] = subst (λ L. L ≢ []) f n in
        subst (Resumes k after scope (op ∷ log)) (sym f)
          (resume_skip after scope op log k e n' (resume after k scope log a.1 n'))
    | inl e ↦
        let f = ap (λ b. if b then op ∷ rest after scope op log else rest after scope op log) e in
        subst (Resumes k after scope (op ∷ log)) (sym f)
          (resume_on after scope op log k e a.0 (λ j m. resume after j scope log a.1 m))
  ]

  length-take : (k : ℕ) (xs : List (Op A)) → length (take k xs) ≤ k
  length-take zero xs = omega arith
  length-take (suc k) [] = omega arith
  length-take (suc k) (x ∷ xs) = omega (arith, length-take k xs)

  -- On a node whose log is in order, and where the whole pull is not empty, a page of at most `suc
  -- k` operations followed by a pull from its last sequence number is the whole pull: no operation
  -- is missed and none comes twice. The page holds no more than `suc k`.
  pub pages_complete :
      (after k : ℕ) (scope : Option Scope) (n : Node A)
      → IsLogged n
      → ops_after after 0 scope n ≢ []
      → (ops_after after 0 scope n
          ≡ ops_after after (suc k) scope n
            ++ ops_after (last_seq (ops_after after (suc k) scope n)) 0 scope n)
        × (length (ops_after after (suc k) scope n) ≤ suc k)
  unfolding ops_after
  pages_complete after k scope n h ne = (
    rw (ops_from-all after 0 scope n.log, ops_from-take after k k 0 scope n.log (omega arith))
        (rw
          (ops_from-all (last_seq (take (suc k) (filter_by (wanted after scope) n.log))) 0 scope
            n.log)
          (rw (resume after k scope n.log h.ascending (rw (ops_from-all after 0 scope n.log) at ne))
            (sym (take-append-drop (suc k) (filter_by (wanted after scope) n.log))))),
    rw (ops_from-take after k k 0 scope n.log (omega arith))
        (length-take (suc k) (filter_by (wanted after scope) n.log)),
  )
