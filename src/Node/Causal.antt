-- ===== src/Node/Causal.antt =====
-- The clock of a node over what it receives: src/crdt.js and src/clock.js.
use objy.Common.{◌≤◌, ◌≡◌, true, some, List, [], ◌∷◌, Member, arith, inl, inr}
use objy.Common.Text.{Text}
use objy.Clock.{Ts, next_ts, touch, ts_gt}
use objy.Clock.Order.{next_ts-newest, touch-le, touch-seen}
use objy.Op.{Op}
use objy.Node.{Node, receive_ops, apply_remote}

module _ {A : Type 0} (shard_for : Text → Text → Text → Text) where
  receive_ops-le :
      (ops : List (Op A)) (clock : Ts) → clock.c ≤ (receive_ops shard_for ops clock).1.c
  unfolding receive_ops
  receive_ops-le [] clock = omega arith
  receive_ops-le (op ∷ ops) clock =
      omega (arith, touch-le clock op.ts, receive_ops-le ops (touch clock (some op.ts)))

  receive_ops-seen :
      (op : Op A) (ops : List (Op A)) (clock : Ts)
      → Member op ops
      → op.ts.c ≤ (receive_ops shard_for ops clock).1.c
  unfolding receive_ops
  receive_ops-seen op [] clock m = absurd m
  receive_ops-seen op (x ∷ ops) clock (inl e) =
      rw e (omega (arith, touch-seen clock x.ts, receive_ops-le ops (touch clock (some x.ts))))
  receive_ops-seen op (x ∷ ops) clock (inr m) = receive_ops-seen op ops (touch clock (some x.ts)) m

  -- Once a node has applied a remote batch, its next local timestamp is newer than those of all the
  -- operations of the batch, so that its own writes win over what it has seen.
  pub next_ts-apply_remote :
      (ops : List (Op A)) (cursor : Text) (n : Node A) (op : Op A)
      → Member op ops
      → ts_gt (next_ts (apply_remote shard_for ops cursor n).1.clock).1 op.ts ≡ true
  unfolding apply_remote
  next_ts-apply_remote ops cursor n op m =
      next_ts-newest (receive_ops shard_for ops n.clock).1 op.ts (receive_ops-seen op ops n.clock m)
