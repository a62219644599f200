-- ===== src/Node/Trim.antt =====
-- What pruning may remove, and what a node remembers of the operations that it removed.
use objy.Common.{
  ℕ, ◌-◌, ◌≤◌, ◌<◌, ◌≡◌, ◌⊎◌, refl, leb, ltb, min, max, Bool, true, false, not, Option, none, some,
  List, [], ◌∷◌, if◌then◌else◌, get_or, filter_by, Member, Member-filter_by, arith, Bool-cases,
  Option-cases, inl, inr,
}
use objy.Common.Text.{Text, text_eq, text_eq_iff, text_eq_refl}
use objy.Common.Dict.{Dict, get, put, values, get-put}
use objy.Op.{Op}
use objy.Node.{Node, drop_ops, prune_to, prune, watermark, remember_scope_trim, remember_all}
use objy.Node.Scopes.{op_scope_key}

watermark-le :
    (k : Text) (a : ℕ) (acks : Dict ℕ) (w : ℕ)
    → get k acks ≡ some a
    → watermark (values acks) ≡ some w
    → w ≤ a
unfolding get watermark
watermark-le k a [] w h e = cc
watermark-le k a ((j, b) ∷ acks) w h e = elim (Option-cases (watermark (values acks))) [
  | inl n ↦ ground (arith, empty k acks n)
  | inr (v, n) ↦ ground (arith, watermark-le k a acks v)
]
  where
    empty : (k : Text) (acks : Dict ℕ) → watermark (values acks) ≡ none → get k acks ≡ none
    empty k [] n = refl
    empty k ((i, c) ∷ acks) n = ground arith

module _ {A : Type 0} where
  Member-prune_to :
      (op : Op A) (safe : ℕ) (n : Node A)
      → safe < op.seq
      → Member op n.log
      → Member op (prune_to safe n).log
  unfolding prune_to drop_ops
  Member-prune_to op safe n h m = go (leb safe n.trimmed) (ltb n.trimmed (min safe n.seq))
    where
      cut : ℕ
      cut = min safe n.seq

      go :
          (a b : Bool)
          → Member op
              (if a
                then n
                else if b
                then record (drop_ops (λ op. leb op.seq cut) n) { trimmed = cut }
                else n).log
      go true b = m
      go false false = m
      go false true = Member-filter_by (λ op. not (leb op.seq cut)) n.log m (ground arith)

  prune-some :
      (n : Node A) (w : ℕ)
      → watermark (values n.acks) ≡ some w
      → prune n ≡ prune_to (w - n.retain_ops) n
  unfolding prune
  prune-some n w e = rw (e, prune)

  prune-none : (n : Node A) → watermark (values n.acks) ≡ none → prune n ≡ n
  unfolding prune
  prune-none n e = ground arith

  -- While no peer has acknowledged anything, pruning keeps every operation. Once peers have, it
  -- keeps the operations past what any one of them has acknowledged, and as many sequence numbers
  -- before that as the node retains.
  pub Member-prune :
      (op : Op A) (n : Node A)
      → (n.acks ≡ [])
        ⊎ ((peer : Text) × (a : ℕ) × (get peer n.acks ≡ some a) × (a - n.retain_ops < op.seq))
      → Member op n.log
      → Member op (prune n).log
  Member-prune op n (inl e) m = rw (prune-none n (unfold watermark in rw e refl)) m
  Member-prune op n (inr (peer, a, g, h)) m = elim (Option-cases (watermark (values n.acks))) [
    | inl e ↦ rw (prune-none n e) m
    | inr (w, e) ↦ rw (prune-some n w e) (
        Member-prune_to op (w - n.retain_ops) n (omega (arith, watermark-le peer a n.acks w g e)) m)
  ]

-- the memory of a scope reaches up to the sequence number
abbrev pub Remembered : Text → ℕ → Dict ℕ → Type 0
Remembered key s trims = (t : ℕ) × (get key trims ≡ some t) × (s ≤ t)

module _ {A : Type 0} where
  remember-none :
      (op : Op A) (trims : Dict ℕ) → op_scope_key op ≡ none → remember_scope_trim op trims ≡ trims
  unfolding remember_scope_trim
  remember-none op trims e = rw (e, remember_scope_trim)

  remember-some :
      (op : Op A) (key : Text) (trims : Dict ℕ)
      → op_scope_key op ≡ some key
      → remember_scope_trim op trims ≡ put key (max (get_or (get key trims) 0) op.seq) trims
  unfolding remember_scope_trim
  remember-some op key trims e = rw (e, remember_scope_trim)

  remember_mono :
      (key : Text) (s : ℕ) (op : Op A) (trims : Dict ℕ)
      → Remembered key s trims
      → Remembered key s (remember_scope_trim op trims)
  remember_mono key s op trims (t, g, l) = elim (Option-cases (op_scope_key op)) [
    | inl e ↦ rw (remember-none op trims e) (t, g, l)
    | inr (k, e) ↦
        rw (remember-some op k trims e, get-put)
          (
            (if text_eq k key then max (get_or (get k trims) 0) op.seq else t),
            ground (arith, text_eq_iff k key),
            ground (arith, text_eq_iff k key),
          )
  ]

  remember_self :
      (key : Text) (op : Op A) (trims : Dict ℕ)
      → op_scope_key op ≡ some key
      → Remembered key op.seq (remember_scope_trim op trims)
  remember_self key op trims e =
      rw (remember-some op key trims e, get-put)
        (max (get_or (get key trims) 0) op.seq, rw (text_eq_refl key), omega arith)

  remember_all_mono :
      (key : Text) (s : ℕ) (ops : List (Op A)) (trims : Dict ℕ)
      → Remembered key s trims
      → Remembered key s (remember_all ops trims)
  unfolding remember_all
  remember_all_mono key s [] trims h = h
  remember_all_mono key s (op ∷ ops) trims h =
      remember_all_mono key s ops (remember_scope_trim op trims) (remember_mono key s op trims h)

  remember_all-mem :
      (key : Text) (op : Op A) (ops : List (Op A)) (trims : Dict ℕ)
      → op_scope_key op ≡ some key
      → Member op ops
      → Remembered key op.seq (remember_all ops trims)
  unfolding remember_all
  remember_all-mem key op [] trims e m = absurd m
  remember_all-mem key op (x ∷ ops) trims e (inl p) =
      rw (← p) (remember_all_mono key op.seq ops _ (remember_self key op trims e))
  remember_all-mem key op (x ∷ ops) trims e (inr m) =
      remember_all-mem key op ops (remember_scope_trim x trims) e m

  -- Every operation of the history is in the log, or its scope is remembered as trimmed past it.
  pub record IsCovered (history : List (Op A)) (n : Node A) : Type 0 where
    pub at :
        (op : Op A) (key : Text)
        → Member op history
        → op_scope_key op ≡ some key
        → Member op n.log ⊎ Remembered key op.seq n.scope_trimmed

  pub drop_ops-IsCovered :
      (drop : Op A → Bool) (history : List (Op A)) (n : Node A)
      → IsCovered history n
      → IsCovered history (drop_ops drop n)
  unfolding drop_ops
  drop_ops-IsCovered drop history n h = record { at = λ op key m e. go op key e (h.at op key m e) }
    where
      go :
          (op : Op A) (key : Text)
          → op_scope_key op ≡ some key
          → Member op n.log ⊎ Remembered key op.seq n.scope_trimmed
          → Member op (drop_ops drop n).log ⊎ Remembered key op.seq (drop_ops drop n).scope_trimmed
      go op key e (inr r) =
          inr (remember_all_mono key op.seq (filter_by drop n.log) n.scope_trimmed r)
      go op key e (inl m) = elim (Bool-cases (drop op)) [
        | inl d ↦ inr (
            remember_all-mem key op (filter_by drop n.log) n.scope_trimmed e
              (Member-filter_by drop n.log m d))
        | inr d ↦ inl (Member-filter_by (λ x. not (drop x)) n.log m (ground arith))
      ]

  prune_to-IsCovered :
      (safe : ℕ) (history : List (Op A)) (n : Node A)
      → IsCovered history n
      → IsCovered history (prune_to safe n)
  unfolding prune_to
  prune_to-IsCovered safe history n h = go (leb safe n.trimmed) (ltb n.trimmed (min safe n.seq))
    where
      cut : ℕ
      cut = min safe n.seq

      go :
          (a b : Bool)
          → IsCovered history (
              if a
              then n
              else if b
              then record (drop_ops (λ op. leb op.seq cut) n) { trimmed = cut }
              else n)
      go true b = h
      go false false = h
      go false true = record { at = (drop_ops-IsCovered (λ op. leb op.seq cut) history n h).at }

  pub prune-IsCovered :
      (history : List (Op A)) (n : Node A) → IsCovered history n → IsCovered history (prune n)
  unfolding prune
  prune-IsCovered history n h = go (watermark (values n.acks))
    where
      go :
          (w : Option ℕ)
          → IsCovered history (elim w [ none ↦ n | some w ↦ prune_to (w - n.retain_ops) n ])
      go none = h
      go (some w) = prune_to-IsCovered (w - n.retain_ops) history n h

  pub prune-operation_log : (n : Node A) → (prune n).operation_log ≡ n.operation_log
  unfolding prune prune_to drop_ops
  prune-operation_log n = ground arith
