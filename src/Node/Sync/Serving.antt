-- ===== src/Node/Sync/Serving.antt =====
-- What a node that serves pulls keeps while it is acknowledged: src/crdt.js.
use objy.Common.{
  ℕ, ◌+◌, ◌-◌, ◌≤◌, ◌<◌, ◌≡◌, ◌⊎◌, refl, ltb, leb, min, max, Bool, true, false, not, ◌&&◌, Option,
  none, some, List, [], ◌∷◌, if◌then◌else◌, All, All-filter_by, arith, Bool-cases, inl, inr, get_or,
}
use objy.Common.Text.{Text, text_eq}
use objy.Common.Dict.{Dict, get, put, values}
use objy.Op.{Op}
use objy.Node.{
  Node, drop_ops, last_seq, needs_snapshot, ops_from, prune, prune_to, receive_ack, remember_all,
  watermark,
}
use objy.Node.Scopes.{op_matches_scope, Scope, cursor_key, op_scope_key, some_trimmed}
use objy.Node.Log.{IsLogged, prune-IsLogged, Within}

-- every trim that is remembered lies below `hi`
abbrev pub Trims : ℕ → Dict ℕ → Type 0
Trims hi = All (λ e. e.1 ≤ hi)

-- a node that can serve pulls: its log is in order, and no trim lies above its counter
pub record IsServing {A : Type 0} (n : Node A) : Type 0 where
  pub logged : IsLogged n
  pub trims : Trims n.seq n.scope_trimmed

Trims-put : (hi t : ℕ) (key : Text) (d : Dict ℕ) → t ≤ hi → Trims hi d → Trims hi (put key t d)
unfolding put
Trims-put hi t key [] l h = (l, tt)
Trims-put hi t key ((j, s) ∷ d) l h = elim (Bool-cases (text_eq j key)) [
  | inl e ↦ rw e (l, h.1)
  | inr e ↦ rw e (h.0, Trims-put hi t key d l h.1)
]

Trims-get : (hi : ℕ) (key : Text) (d : Dict ℕ) → Trims hi d → get_or (get key d) 0 ≤ hi
unfolding get
Trims-get hi key [] h = omega arith
Trims-get hi key ((j, s) ∷ d) h = elim (Bool-cases (text_eq j key)) [
  | inl e ↦ rw e h.0
  | inr e ↦ rw e (Trims-get hi key d h.1)
]

some_trimmed-below :
    (after hi : ℕ) (scope : Scope) (d : Dict ℕ)
    → Trims hi d
    → some_trimmed after scope d ≡ true
    → after < hi
unfolding some_trimmed
some_trimmed-below after hi scope [] h e = ground arith
some_trimmed-below after hi scope ((key, t) ∷ d) h e =
    ground (arith, h.0, some_trimmed-below after hi scope d h.1)

module _ {A : Type 0} where
  remember_all-Trims :
      (hi : ℕ) (ops : List (Op A)) (d : Dict ℕ)
      → All (λ op. op.seq ≤ hi) ops
      → Trims hi d
      → Trims hi (remember_all ops d)
  unfolding remember_all
  remember_all-Trims hi [] d a h = h
  remember_all-Trims hi (op ∷ ops) d a h = remember_all-Trims hi ops _ a.1 (go (op_scope_key op))
    where
      go :
          (k : Option Text)
          → Trims hi
              (elim k [ none ↦ d | some key ↦ put key (max (get_or (get key d) 0) op.seq) d ])
      go none = h
      go (some key) =
          Trims-put hi (max (get_or (get key d) 0) op.seq) key d
            (omega (arith, Trims-get hi key d h, a.0)) h

  Within-upper : (lo hi : ℕ) (ops : List (Op A)) → Within lo hi ops → All (λ op. op.seq ≤ hi) ops
  Within-upper lo hi [] h = tt
  Within-upper lo hi (op ∷ ops) h = (h.0.1, Within-upper lo hi ops h.1)

  -- what pruning keeps
  pub record Kept (n m : Node A) : Type 0 where
    pub seq : m.seq ≡ n.seq
    pub id : m.id ≡ n.id
    pub trims : Trims n.seq m.scope_trimmed

  prune_to-Kept : (safe : ℕ) (n : Node A) → IsServing n → Kept n (prune_to safe n)
  unfolding prune_to drop_ops
  prune_to-Kept safe n h = go (leb safe n.trimmed) (ltb n.trimmed (min safe n.seq))
    where
      pruned : Node A
      pruned = record (drop_ops (λ op. leb op.seq (min safe n.seq)) n) { trimmed = min safe n.seq }

      go : (a b : Bool) → Kept n (if a then n else if b then pruned else n)
      go true b = record { seq = refl; id = refl; trims = h.trims }
      go false false = record { seq = refl; id = refl; trims = h.trims }
      go false true = record {
        seq = refl;
        id = refl;
        trims =
            remember_all-Trims n.seq _ n.scope_trimmed
              (All-filter_by _ _ n.log (Within-upper n.trimmed n.seq n.log h.logged.within))
              h.trims;
      }

  pub receive_ack-Kept :
      (peer : Text) (after : ℕ) (scope : Option Scope) (n : Node A)
      → IsServing n
      → Kept n (receive_ack peer after scope n)
  unfolding receive_ack prune
  receive_ack-Kept peer after scope n h = go (watermark (values m.acks))
    where
      m : Node A
      m = record n { acks = put (cursor_key peer scope) (min after n.seq) n.acks }

      serving : IsServing m
      serving = record {
        logged = record {
          within = h.logged.within;
          ascending = h.logged.ascending;
          trimmed_le = h.logged.trimmed_le;
        };
        trims = h.trims;
      }

      go : (w : Option ℕ) → Kept n (elim w [ none ↦ m | some w ↦ prune_to (w - m.retain_ops) m ])
      go none = record { seq = refl; id = refl; trims = h.trims }
      go (some w) =
          let k = prune_to-Kept (w - m.retain_ops) m serving in
          record { seq = k.seq; id = k.id; trims = k.trims }

  pub receive_ack-IsServing :
      (peer : Text) (after : ℕ) (scope : Option Scope) (n : Node A)
      → IsServing n
      → IsServing (receive_ack peer after scope n)
  unfolding receive_ack
  receive_ack-IsServing peer after scope n h =
      let k = receive_ack-Kept peer after scope n h in
      record {
        logged =
            prune-IsLogged
              (record n { acks = put (cursor_key peer scope) (min after n.seq) n.acks })
              (record {
                within = h.logged.within;
                ascending = h.logged.ascending;
                trimmed_le = h.logged.trimmed_le;
              });
        trims = rw k.seq k.trims;
      }

  -- a pull that is refused asked from below the counter
  pub needs_snapshot-below :
      (after : ℕ) (scope : Option Scope) (n : Node A)
      → IsServing n
      → needs_snapshot after scope n ≡ true
      → after < n.seq
  unfolding needs_snapshot
  needs_snapshot-below after none n h e = ground (arith, h.logged.trimmed_le)
  needs_snapshot-below after (some scope) n h e =
      some_trimmed-below after n.seq scope n.scope_trimmed h.trims e

  pub ops_from-above :
      (after limit count : ℕ) (scope : Option Scope) (log : List (Op A))
      → All (λ op. after < op.seq) (ops_from after limit scope count log)
  unfolding ops_from
  ops_from-above after limit count scope [] = tt
  ops_from-above after limit count scope (op ∷ log) =
      go (Bool-cases (leb op.seq after)) (op_matches_scope op scope)
        (ltb 0 limit && leb limit (count + 1)) (ops_from-above after limit count scope log)
        (ops_from-above after limit (count + 1) scope log)
    where
      Above : List (Op A) → Type 0
      Above = All (λ x. after < x.seq)

      ltb_of : leb op.seq after ≡ false → after < op.seq
      ltb_of e = ground arith

      skip : List (Op A)
      skip = ops_from after limit scope count log

      later : List (Op A)
      later = ops_from after limit scope (count + 1) log

      rest : (c : Bool) → Above later → Above (if c then [] else later)
      rest true h = tt
      rest false h = h

      go :
          (leb op.seq after ≡ true) ⊎ (leb op.seq after ≡ false)
          → (b c : Bool) → Above skip
          → Above later
          → Above (
              if leb op.seq after
              then skip
              else if not b
              then skip
              else op ∷ (if c then [] else later))
      go (inl e) b c h k = rw e h
      go (inr e) false c h k = rw e h
      go (inr e) true c h k = rw e (omega (arith, ltb_of e), rest c k)

  pub last_seq-above :
      (after : ℕ) (op : Op A) (ops : List (Op A))
      → All (λ x. after < x.seq) (op ∷ ops)
      → after < last_seq (op ∷ ops)
  unfolding last_seq
  last_seq-above after op [] h = h.0
  last_seq-above after op (x ∷ ops) h = last_seq-above after x ops h.1
