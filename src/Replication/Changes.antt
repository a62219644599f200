-- ===== src/Replication/Changes.antt =====
-- From an operation that a node logs to the hints that it sends: src/replication-scheduler.js.
use objy.Common.{
  ℕ, ◌≤◌, ◌≡◌, refl, sym, ap, ◌∙◌, subst, ltb, Bool, true, false, not, ◌&&◌, ◌||◌, Option, none,
  some, List, [], ◌∷◌, if◌then◌else◌, Member, Bool-cases, inl, inr, arith, Option-cases,
}
use objy.Common.Text.{Text, text_eq, text_eq_refl, text_eq_iff}
use objy.Common.Dict.{Dict, get, put, values, get-put, get-put_self}
use objy.Op.{Op}
use objy.Replication.{
  HintScope, Replication, Send, hint_key, newer_scope, record_scope, record_op, record_ops,
  record_local_change, flush_hints, is_self,
}
use objy.Replication.Hints.{flush_hints-told}
use objy.Node.Peers.{peers_for_shard}
use objy.ShardMap.{Peer, peer_key}

hint_key-injective : (a b : Text) → hint_key a ≡ hint_key b → a ≡ b
unfolding hint_key text_eq
hint_key-injective a b e =
    (text_eq_iff a b).0 (subst (λ t. text_eq (hint_key a) t ≡ true) e (text_eq_refl (hint_key a)))

-- every pending scope stands under its own key
pub record IsKeyed (d : Dict HintScope) : Type 0 where
  pub at : (key : Text) (scope : HintScope) → get key d ≡ some scope → key ≡ hint_key scope.shard

-- the shard is pending up to the sequence number
Pending : Text → ℕ → Dict HintScope → Type 0
Pending shard seq d =
    (scope : HintScope) × (get (hint_key shard) d ≡ some scope) × (seq ≤ scope.last_seq)

some-same : {A : Type 0} {a b : A} → some a ≡ some b → a ≡ b
some-same e = cc

put-IsKeyed :
    (scope : HintScope) (d : Dict HintScope)
    → IsKeyed d
    → IsKeyed (put (hint_key scope.shard) scope d)
put-IsKeyed scope d h = record {
  at = λ key s e. elim (Bool-cases (text_eq (hint_key scope.shard) key)) [
    | inl f ↦
        sym ((text_eq_iff (hint_key scope.shard) key).0 f)
        ∙ ap (λ x. hint_key x.shard)
            (some-same (rw f at (sym (get-put (hint_key scope.shard) key scope d) ∙ e)))
    | inr f ↦ h.at key s (rw f at (sym (get-put (hint_key scope.shard) key scope d) ∙ e))
  ];
}

module _ (shard : Text) (seq : ℕ) (d : Dict HintScope) where
  scope : HintScope
  scope = record { shard = shard; last_seq = seq }

  record_scope-IsKeyed : IsKeyed d → IsKeyed (record_scope shard seq d)
  unfolding record_scope scope
  record_scope-IsKeyed h = elim (Bool-cases (newer_scope scope (get (hint_key shard) d))) [
    | inl e ↦ rw e (put-IsKeyed scope d h)
    | inr e ↦ rw e h
  ]

  record_scope-Pending : Pending shard seq (record_scope shard seq d)
  unfolding record_scope scope Pending
  record_scope-Pending = elim (Option-cases (get (hint_key shard) d)) [
    | inl e ↦ rw (e, get-put_self (hint_key shard) scope d) (scope, refl, omega arith)
    | inr (old, e) ↦ elim (Bool-cases (ltb old.last_seq seq)) [
      | inl f ↦ rw (e, f, get-put_self (hint_key shard) scope d) (scope, refl, omega arith)
      | inr f ↦ rw (e, f) (old, e, ground arith)
    ]
  ]

  record_scope-keeps :
      (other : Text) (n : ℕ) → Pending other n d → Pending other n (record_scope shard seq d)
  unfolding record_scope scope Pending
  record_scope-keeps other n (held, e, l) =
      elim (Bool-cases (text_eq (hint_key shard) (hint_key other))) [
        | inl f ↦
            let e' : get (hint_key shard) d ≡ some held =
              subst (λ k. get k d ≡ some held)
                (sym ((text_eq_iff (hint_key shard) (hint_key other)).0 f)) e in
            elim (Bool-cases (ltb held.last_seq seq)) [
              | inl g ↦
                  rw (e', g)
                    (
                      scope,
                      get-put (hint_key shard) (hint_key other) scope d ∙ rw f refl,
                      ground (arith, g, l),
                    )
              | inr g ↦ rw (e', g) (held, e, l)
            ]
        | inr f ↦ elim (Bool-cases (newer_scope scope (get (hint_key shard) d))) [
          | inl g ↦ rw g (held, get-put (hint_key shard) (hint_key other) scope d ∙ rw f e, l)
          | inr g ↦ rw g (held, e, l)
        ]
      ]

-- the next flush tells the peer of the shard, with the sequence number or a later one
abbrev pub Tells : (Peer → Bool) → Replication → ℕ → Text → Peer → Type 0
Tells has_hint r seq shard p =
    (send : Send) × Member send (flush_hints has_hint r).0
    × (send.key ≡ peer_key p)
    × ((told : HintScope) × Member told send.scopes × (told.shard ≡ shard) × (seq ≤ told.last_seq))

both_true : (a b : Bool) → a ≡ true → b ≡ true → a && b ≡ true
both_true a b e f = rw (e, f) refl

get-Member :
    (key : Text) (s : HintScope) (d : Dict HintScope) → get key d ≡ some s → Member s (values d)
unfolding get
get-Member key s [] e = cc
get-Member key s ((k, t) ∷ d) e = elim (Bool-cases (text_eq k key)) [
  | inl f ↦ inl (sym (some-same (rw f at e)))
  | inr f ↦ inr (get-Member key s d (rw f at e))
]

module _ {A : Type 0} where
  record_op-keeps :
      (id : Text) (op : Op A) (d : Dict HintScope) (other : Text) (n : ℕ)
      → Pending other n d
      → Pending other n (record_op id op d)
  unfolding record_op
  record_op-keeps id op d other n h = go op.shard
    where
      go :
          (s : Option Text)
          → Pending other n (elim s [
            | none ↦ d
            | some shard ↦
                if text_eq op.from id && not (text_eq shard [])
                then record_scope shard op.seq d
                else d
          ])
      go none = h
      go (some shard) = elim (Bool-cases (text_eq op.from id && not (text_eq shard []))) [
        | inl e ↦ rw e (record_scope-keeps shard op.seq d other n h)
        | inr e ↦ rw e h
      ]

  record_op-IsKeyed :
      (id : Text) (op : Op A) (d : Dict HintScope) → IsKeyed d → IsKeyed (record_op id op d)
  unfolding record_op
  record_op-IsKeyed id op d h = go op.shard
    where
      go :
          (s : Option Text)
          → IsKeyed (elim s [
            | none ↦ d
            | some shard ↦
                if text_eq op.from id && not (text_eq shard [])
                then record_scope shard op.seq d
                else d
          ])
      go none = h
      go (some shard) = elim (Bool-cases (text_eq op.from id && not (text_eq shard []))) [
        | inl e ↦ rw e (record_scope-IsKeyed shard op.seq d h)
        | inr e ↦ rw e h
      ]

  record_op-Pending :
      (id : Text) (op : Op A) (d : Dict HintScope) (shard : Text)
      → op.shard ≡ some shard
      → (text_eq op.from id && not (text_eq shard [])) ≡ true
      → Pending shard op.seq (record_op id op d)
  unfolding record_op
  record_op-Pending id op d shard e f = rw (e, f) (record_scope-Pending shard op.seq d)

  record_ops-keeps :
      (id : Text) (ops : List (Op A)) (d : Dict HintScope) (other : Text) (n : ℕ)
      → Pending other n d
      → Pending other n (record_ops id ops d)
  unfolding record_ops
  record_ops-keeps id [] d other n h = h
  record_ops-keeps id (op ∷ ops) d other n h =
      record_ops-keeps id ops (record_op id op d) other n (record_op-keeps id op d other n h)

  record_ops-IsKeyed :
      (id : Text) (ops : List (Op A)) (d : Dict HintScope)
      → IsKeyed d
      → IsKeyed (record_ops id ops d)
  unfolding record_ops
  record_ops-IsKeyed id [] d h = h
  record_ops-IsKeyed id (op ∷ ops) d h =
      record_ops-IsKeyed id ops (record_op id op d) (record_op-IsKeyed id op d h)

  record_ops-Pending :
      (id : Text) (op : Op A) (ops : List (Op A)) (d : Dict HintScope) (shard : Text)
      → Member op ops
      → op.shard ≡ some shard
      → (text_eq op.from id && not (text_eq shard [])) ≡ true
      → Pending shard op.seq (record_ops id ops d)
  unfolding record_ops
  record_ops-Pending id op [] d shard m e f = absurd m
  record_ops-Pending id op (x ∷ ops) d shard (inl g) e f =
      record_ops-keeps id ops (record_op id x d) shard op.seq (
        subst (λ y. Pending shard op.seq (record_op id y d)) g
          (record_op-Pending id op d shard e f))
  record_ops-Pending id op (x ∷ ops) d shard (inr m) e f =
      record_ops-Pending id op ops (record_op id x d) shard m e f

  recorded :
      (ops : List (Op A)) (r : Replication)
      → r.enabled ≡ true
      → r.hints_enabled ≡ true
      → record_local_change ops r
        ≡ record r { pending_hint_scopes = record_ops r.site.id ops r.pending_hint_scopes }
  unfolding record_local_change
  recorded ops r e f =
      ap
        (λ b.
          if b
          then record r { pending_hint_scopes = record_ops r.site.id ops r.pending_hint_scopes }
          else r)
        (both_true r.enabled r.hints_enabled e f)

  -- If hints are enabled and every pending scope stands under its key, then once the scheduler has
  -- been handed operations, the next flush tells every peer of the shard of each of them that comes
  -- from the node, if the peer has a url, is not the node itself, and the peers of its key take
  -- hints.
  pub recorded_then_told :
      (has_hint : Peer → Bool) (ops : List (Op A)) (op : Op A) (r : Replication) (shard : Text)
      (p : Peer)
      → r.enabled ≡ true
      → r.hints_enabled ≡ true
      → IsKeyed r.pending_hint_scopes
      → Member op ops
      → op.shard ≡ some shard
      → (text_eq op.from r.site.id && not (text_eq shard [])) ≡ true
      → Member p (peers_for_shard shard r.site)
      → (text_eq p.url [] || is_self r.site p) ≡ false
      → ((q : Peer) → peer_key q ≡ peer_key p → has_hint q ≡ true)
      → Tells has_hint (record_local_change ops r) op.seq shard p
  unfolding Pending
  recorded_then_told has_hint ops op r shard p e f k m g h n u takes =
      let pending = record_ops r.site.id ops r.pending_hint_scopes in
      let (s, found, newest) =
        record_ops-Pending r.site.id op ops r.pending_hint_scopes shard m g h in
      let same : s.shard ≡ shard = sym (
        hint_key-injective shard s.shard (
          (record_ops-IsKeyed r.site.id ops r.pending_hint_scopes k).at (hint_key shard) s
            found)) in
      subst (λ x. Tells has_hint x op.seq shard p) (sym (recorded ops r e f))
        (let (send, sent, key, told) =
            (flush_hints-told has_hint (record r { pending_hint_scopes = pending }) s p e f
              (get-Member (hint_key shard) s pending found)
              (subst (λ x. Member p (peers_for_shard x r.site)) (sym same) n) u takes).0 in
          (send, sent, key, (s, told, same, newest)))
