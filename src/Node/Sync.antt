-- ===== src/Node/Sync.antt =====
-- src/crdt.js: syncPeer with a peer in the same process, which localPeer makes of a node. A
-- session is the two nodes and what was applied so far; `limit` is syncBatchSize. The handler of a
-- truncated log is the argument `restore`: the rows that it restored, if it did, and the node.
pub mod Serving
pub mod Progress
use objy.Common.{
  ℕ, zero, suc, ◌+◌, ◌≤◌, ltb, leb, ◌==◌, max, Bool, true, false, not, ◌&&◌, ◌||◌, Option, none,
  some, List, [], ◌∷◌, if◌then◌else◌, get_or, length,
}
use objy.Common.Text.{Text, text_eq}
use objy.Common.Dict.{Dict, get, put}
use objy.Op.{Op}
use objy.Node.{Node, apply_remote, bind_cursor, last_seq, needs_snapshot, ops_after, receive_ack}
use objy.Node.Scopes.{Scope, cursor_key}

pub record Session (A : Type 0) : Type 0 where
  pub local : Node A
  pub remote : Node A
  pub total : ℕ

-- how an iteration of the loop ends: the sync returns, it throws LOG_TRUNCATED, or it goes on
pub data Outcome (A : Type 0) : Type 0 where
  done : Session A → Outcome A
  log_truncated : Session A → Outcome A
  more : Session A → Outcome A

-- the answer of localPeer's pull
pub data Response (A : Type 0) : Type 0 where
  gone : ℕ → Response A
  page : ℕ → List (Op A) → Response A

-- `value || fallback` on a number
abbrev pub or_number : ℕ → ℕ → ℕ
or_number zero fallback = fallback
or_number (suc n) fallback = suc n

module _ {A : Type 0} where
  -- localPeer(node).pull(after, limit, scope)
  unfoldable pub pull : ℕ → ℕ → Option Scope → Node A → Response A
  pull after limit scope n =
      if needs_snapshot after scope n
      then gone n.trimmed
      else page n.seq (ops_after after limit scope n)

  -- `lastSeen.get(key) || 0`
  abbrev pub seen_at : Text → Node A → ℕ
  seen_at key n = get_or (get key n.last_seen) 0

  unfoldable pub set_seen : Text → ℕ → Node A → Node A
  set_seen key seen n = record n { last_seen = put key seen n.last_seen }

  unfoldable pub bind_peer : Text → Text → Node A → Node A
  bind_peer node_id previous n = record n { last_seen = bind_cursor node_id previous n.last_seen }

  -- the cursor that the session's peer is asked from
  unfoldable pub cursor_of : Option Scope → Session A → ℕ
  cursor_of scope s = seen_at (cursor_key s.remote.id scope) s.local

  -- `seen = ops.length ? ops[ops.length - 1].seq : res.lastSeq || after`
  unfoldable pub seen_after : List (Op A) → ℕ → ℕ → ℕ
  seen_after [] last after = or_number last after
  seen_after (op ∷ ops) last after = last_seq (op ∷ ops)

  -- the floor below which the peer's log is gone, once rows were restored
  unfoldable pub raise_floor : Text → ℕ → ℕ → Node A → Node A
  unfolding set_seen
  raise_floor key rows floor n =
      if ltb 0 rows && ltb (seen_at key n) floor then set_seen key floor n else n

  module _ (shard_for : Text → Text → Text → Text)
      (restore : Option Scope → ℕ → Node A → Option ℕ × Node A) where
    -- the branch for status 410
    unfoldable pub catch_up : Option Scope → ℕ → ℕ → Session A → Outcome A
    catch_up scope after trimmed s =
        let key = cursor_key s.remote.id scope in
        let bound = bind_peer s.remote.id s.remote.id s.local in
        let before = or_number (seen_at key bound) after in
        let (rows, restored) = restore scope after bound in
        elim rows [
          | none ↦ log_truncated (record s { local = restored })
          | some count ↦
              let raised = raise_floor key count trimmed restored in
              if leb (seen_at key raised) before
              then log_truncated (record s { local = raised })
              else more (record s { local = raised; total = s.total + count })
        ]

    -- the branch for a page of operations
    unfoldable pub take_page : Option Scope → ℕ → ℕ → List (Op A) → Session A → Outcome A
    take_page scope after last ops s =
        if text_eq s.remote.id [] || text_eq s.remote.id s.local.id
        then done s
        else let key = cursor_key s.remote.id scope in
          let bound = bind_peer s.remote.id s.remote.id s.local in
          let (applied, fed) = apply_remote shard_for ops key bound in
          let seen = seen_after ops last after in
          let next : Session A = record {
            local = set_seen key (max (seen_at key fed) seen) fed;
            remote = receive_ack s.local.id seen scope s.remote;
            total = s.total + length applied;
          } in
          if length ops == 0 || leb (or_number last seen) seen then done next else more next

    abbrev answer : Option Scope → ℕ → Session A → Response A → Outcome A
    answer scope after s (gone trimmed) = catch_up scope after trimmed s
    answer scope after s (page last ops) = take_page scope after last ops s

    -- one iteration of the loop
    unfoldable pub sync_step : ℕ → Option Scope → Session A → Outcome A
    sync_step limit scope s =
        answer scope (cursor_of scope s) s (pull (cursor_of scope s) limit scope s.remote)

    -- syncPeer(peer, scope); none where the fuel does not last
    unfoldable pub sync_peer : ℕ → ℕ → Option Scope → Session A → Option (Outcome A)
    sync_peer zero limit scope s = none
    sync_peer (suc fuel) limit scope s = elim (sync_step limit scope s) [
      | done s' ↦ some (done s')
      | log_truncated s' ↦ some (log_truncated s')
      | more s' ↦ sync_peer fuel limit scope s'
    ]
