-- ===== src/Node.antt =====
-- src/crdt.js: the operation log of `CRDTNode`, its cursors, acknowledgements and trimming. The
-- shard map is the argument `shard_for`; change listeners and the vector warm-up are left out.
pub mod Scopes
pub mod Log
pub mod Trim
pub mod Keys
pub mod Pull
pub mod Pages
pub mod Causal
pub mod Write
pub mod Stamps
pub mod Sync
pub mod Peers
use objy.Common.{
  ℕ, ◌+◌, ◌-◌, ltb, leb, ◌==◌, min, max, Bool, true, false, not, ◌&&◌, ◌||◌, Option, none, some,
  List, [], ◌∷◌, ◌++◌, if◌then◌else◌, get_or, filter_by, any,
}
use objy.Common.Text.{Text, text, text_eq}
use objy.Common.Dict.{Dict, get, put, del, values}
use objy.Clock.{Ts, touch}
use objy.Op.{Op}
use objy.Store.{Store, apply_ops}
use Scopes.{Scope, op_scope_key, op_matches_scope, some_trimmed, cursor_key}

pub record Node (A : Type 0) : Type 0 where
  pub id : Text
  pub db : Store A
  pub clock : Ts
  pub log : List (Op A)
  pub operation_log : Bool
  pub seq : ℕ
  pub trimmed : ℕ
  pub scope_trimmed : Dict ℕ
  pub retain_ops : ℕ
  pub last_seen : Dict ℕ
  pub acks : Dict ℕ

-- `op.shard || this.shardForObject(op.db, op.coll, op.id)`: an empty shard is falsy too
abbrev pub shard_or : Option Text → Text → Option Text
shard_or none s = some s
shard_or (some []) s = some s
shard_or (some (u ∷ us)) s = some (u ∷ us)

-- the smallest acknowledgement; `Infinity` is none
unfoldable pub watermark : List ℕ → Option ℕ
watermark [] = none
watermark (a ∷ acks) = elim (watermark acks) [ none ↦ some a | some w ↦ some (min a w) ]

-- _bindPeer: the cursor of a peer that is now known by its node id
unfoldable pub bind_cursor : Text → Text → Dict ℕ → Dict ℕ
bind_cursor node_id previous seen =
    if text_eq node_id [] || text_eq previous [] || text_eq previous node_id
    then seen
    else elim (get previous seen) [
      | none ↦ seen
      | some s ↦ del previous (put node_id (max (get_or (get node_id seen) 0) s) seen)
    ]

module _ {A : Type 0} where
  -- op.id, op.coll, op.db are not empty; the kinds are all known
  unfoldable pub is_valid_op : Op A → Bool
  is_valid_op op = not (text_eq op.db []) && not (text_eq op.coll []) && not (text_eq op.id [])

  -- _applyOps(ops)
  unfoldable pub apply_valid_ops : List (Op A) → Store A → Store A × List (Op A)
  unfolding is_valid_op
  apply_valid_ops ops st = apply_ops (filter_by is_valid_op ops) st

  -- `incoming.length ? incoming[incoming.length - 1].seq : 0`
  unfoldable pub last_seq : List (Op A) → ℕ
  last_seq [] = 0
  last_seq (op ∷ []) = op.seq
  last_seq (op ∷ op' ∷ ops) = last_seq (op' ∷ ops)

  module _ (shard_for : Text → Text → Text → Text) where
    unfoldable pub with_shard : Op A → Op A
    with_shard op = record op { shard = shard_or op.shard (shard_for op.db op.coll op.id) }

    -- _logOp(op): the logged operation and the node
    unfoldable pub log_op : Op A → Node A → Op A × Node A
    unfolding with_shard
    log_op op n =
        let op' : Op A = record (with_shard op) { from = n.id; seq = n.seq + 1 } in
        (
          op',
          record n {
            seq = n.seq + 1;
            log = if n.operation_log then n.log ++ (op' ∷ []) else n.log;
          },
        )

    -- _logOps(ops)
    unfoldable pub log_ops : List (Op A) → Node A → List (Op A) × Node A
    unfolding log_op
    log_ops [] n = ([], n)
    log_ops (op ∷ ops) n =
        let (op', n') = log_op op n in let (rest, n'') = log_ops ops n' in (op' ∷ rest, n'')

    -- _commitLocalOps(ops): the logged and the applied operations
    unfoldable pub commit_local_ops : List (Op A) → Node A → (List (Op A) × List (Op A)) × Node A
    unfolding log_ops apply_valid_ops
    commit_local_ops ops n =
        let (logged, n') = log_ops ops n in
        let (db', applied) = apply_valid_ops logged n'.db in
        ((logged, applied), record n' { db = db' })

    -- the first loop of applyRemote
    unfoldable pub receive_ops : List (Op A) → Ts → List (Op A) × Ts
    unfolding with_shard
    receive_ops [] clock = ([], clock)
    receive_ops (op ∷ ops) clock =
        let (rest, clock') = receive_ops ops (touch clock (some op.ts)) in
        (with_shard op ∷ rest, clock')

    -- applyRemote(fromId, ops, cursorKey): the applied operations
    unfoldable pub apply_remote : List (Op A) → Text → Node A → List (Op A) × Node A
    unfolding receive_ops apply_valid_ops last_seq
    apply_remote ops cursor n =
        let (incoming, clock') = receive_ops ops n.clock in
        let (db', applied) = apply_valid_ops incoming n.db in
        (
          applied,
          record n {
            clock = clock';
            db = db';
            last_seen =
                put cursor (max (get_or (get cursor n.last_seen) 0) (last_seq ops)) n.last_seen;
          },
        )

  -- _rememberScopeTrim(op), which skips an operation without a database, collection or shard
  unfoldable pub remember_scope_trim : Op A → Dict ℕ → Dict ℕ
  remember_scope_trim op trims = elim (op_scope_key op) [
    | none ↦ trims
    | some key ↦ put key (max (get_or (get key trims) 0) op.seq) trims
  ]

  unfoldable pub remember_all : List (Op A) → Dict ℕ → Dict ℕ
  unfolding remember_scope_trim
  remember_all [] trims = trims
  remember_all (op ∷ ops) trims = remember_all ops (remember_scope_trim op trims)

  -- the log without what `drop` picks, and the memory of what was dropped
  unfoldable pub drop_ops : (Op A → Bool) → Node A → Node A
  unfolding remember_all
  drop_ops drop n = record n {
    log = filter_by (λ op. not (drop op)) n.log;
    scope_trimmed = remember_all (filter_by drop n.log) n.scope_trimmed;
  }

  -- the part of prune below its early returns
  unfoldable pub prune_to : ℕ → Node A → Node A
  unfolding drop_ops
  prune_to safe n =
      if leb safe n.trimmed
      then n
      else let cut = min safe n.seq in
        if ltb n.trimmed cut
        then record (drop_ops (λ op. leb op.seq cut) n) { trimmed = cut }
        else n

  -- prune()
  unfoldable pub prune : Node A → Node A
  unfolding watermark prune_to
  prune n = elim (watermark (values n.acks)) [ none ↦ n | some w ↦ prune_to (w - n.retain_ops) n ]

  -- receiveAck(peerNodeId, after, scope)
  unfoldable pub receive_ack : Text → ℕ → Option Scope → Node A → Node A
  unfolding prune
  receive_ack peer after scope n =
      prune (record n { acks = put (cursor_key peer scope) (min after n.seq) n.acks })

  -- _discardCollectionOps(db, coll), _discardDatabaseOps(db)
  unfoldable pub discard_collection_ops : Text → Text → Node A → Node A
  unfolding drop_ops
  discard_collection_ops db coll = drop_ops (λ op. text_eq op.db db && text_eq op.coll coll)

  unfoldable pub discard_database_ops : Text → Node A → Node A
  unfolding drop_ops
  discard_database_ops db = drop_ops (λ op. text_eq op.db db)

  -- needsSnapshot(after, scope)
  unfoldable pub needs_snapshot : ℕ → Option Scope → Node A → Bool
  needs_snapshot after none n = ltb after n.trimmed
  needs_snapshot after (some scope) n = some_trimmed after scope n.scope_trimmed

  -- the loop of _opsAfterIterable; `limit` 0 is no limit
  unfoldable pub ops_from : ℕ → ℕ → Option Scope → ℕ → List (Op A) → List (Op A)
  ops_from after limit scope count [] = []
  ops_from after limit scope count (op ∷ log) =
      let skip = ops_from after limit scope count log in
      let more = ops_from after limit scope (count + 1) log in
      if leb op.seq after
      then skip
      else if not (op_matches_scope op scope)
      then skip
      else op ∷ (if ltb 0 limit && leb limit (count + 1) then [] else more)

  -- _opsAfter(after, limit, scope)
  unfoldable pub ops_after : ℕ → ℕ → Option Scope → Node A → List (Op A)
  unfolding ops_from
  ops_after after limit scope n = ops_from after limit scope 0 n.log
