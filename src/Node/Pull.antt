-- ===== src/Node/Pull.antt =====
-- A pull of a scope never leaves a silent gap: what the log no longer holds turns the pull into a
-- demand for a snapshot.
use objy.Common.{
  ℕ, ◌+◌, ◌<◌, ◌≡◌, ◌⊎◌, refl, leb, Bool, true, false, not, Option, some, List, [], ◌∷◌, ◌++◌,
  if◌then◌else◌, Member, Member-append_left, Member-append_right, Member-append_cases, arith, inl,
  inr, ◌∙◌, append-nil, append_assoc, min,
}
use objy.Common.Text.{Text}
use objy.Common.Dict.{put}
use objy.Op.{Op}
use objy.Node.{
  Node, log_op, log_ops, commit_local_ops, apply_remote, receive_ack, discard_collection_ops,
  discard_database_ops, needs_snapshot, ops_from, ops_after, with_shard,
}
use objy.Node.Scopes.{
  Scope, scope_key, op_scope_key, op_matches_scope, scope_matches, parse_scope_key, cursor_key,
}
use objy.Node.Keys.{IsPlain, parse_scope_key-scope_key, some_trimmed_of_get}
use objy.Node.Log.{
  Event, local_ops, remote_ops, acknowledged, collection_dropped, database_dropped, handle,
  handle_all,
}
use objy.Node.Trim.{IsCovered, Remembered, drop_ops-IsCovered, prune-IsCovered, prune-operation_log}

module _ {A : Type 0} where
  -- without a limit the loop yields every operation past the cursor that is in the scope
  Member-ops_from :
      (after count : ℕ) (scope : Option Scope) (op : Op A) (log : List (Op A))
      → Member op log
      → after < op.seq
      → op_matches_scope op scope ≡ true
      → Member op (ops_from after 0 scope count log)
  unfolding ops_from
  Member-ops_from after count scope op [] m l s = m
  Member-ops_from after count scope op (x ∷ log) (inl e) l s =
      let p : leb x.seq after ≡ false = rw (← e) (ground arith) in
      let q : op_matches_scope x scope ≡ true = rw (← e) s in rw (p, q) (inl e)
  Member-ops_from after count scope op (x ∷ log) (inr m) l s =
      go (leb x.seq after) (op_matches_scope x scope)
        (Member-ops_from after count scope op log m l s)
        (Member-ops_from after (count + 1) scope op log m l s)
    where
      go :
          (a b : Bool)
          → Member op (ops_from after 0 scope count log)
          → Member op (ops_from after 0 scope (count + 1) log)
          → Member op (
              if a
              then ops_from after 0 scope count log
              else if not b
              then ops_from after 0 scope count log
              else x ∷ ops_from after 0 scope (count + 1) log)
      go true b h k = h
      go false false h k = h
      go false true h k = inr k

  -- an operation whose names have no newline, with its shard
  pub record IsAddressed (op : Op A) : Type 0 where
    pub shard : Text
    pub has_shard : op.shard ≡ some shard
    pub has_key :
        op_scope_key op
        ≡ some (scope_key (record { database = op.db; collection = op.coll; shard = shard }))
    pub plain_db : IsPlain op.db
    pub plain_coll : IsPlain op.coll
    pub plain_shard : IsPlain shard

  -- A node that still covers its history answers a scoped pull completely, or asks for a snapshot:
  -- every operation of the scope past the cursor is among those returned.
  pub pull_has_no_gap :
      (history : List (Op A)) (n : Node A) (op : Op A) (after : ℕ) (scope : Scope)
      → IsCovered history n
      → Member op history
      → IsAddressed op
      → op_matches_scope op (some scope) ≡ true
      → after < op.seq
      → (needs_snapshot after (some scope) n ≡ true) ⊎ Member op (ops_after after 0 (some scope) n)
  unfolding needs_snapshot ops_after
  pull_has_no_gap history n op after scope c m a s l = go (c.at op _ m a.has_key)
    where
      held : Scope
      held = record { database = op.db; collection = op.coll; shard = a.shard }

      matches : scope_matches (parse_scope_key (scope_key held)) scope ≡ true
      matches =
          rw (parse_scope_key-scope_key held a.plain_db a.plain_coll a.plain_shard)
            (unfold op_matches_scope in rw a.has_shard at s)

      go :
          Member op n.log ⊎ Remembered (scope_key held) op.seq n.scope_trimmed
          → (needs_snapshot after (some scope) n ≡ true)
            ⊎ Member op (ops_after after 0 (some scope) n)
      go (inl h) = inr (Member-ops_from after 0 (some scope) op n.log h l s)
      go (inr (t, g, k)) = inl (
          some_trimmed_of_get after t (scope_key held) scope n.scope_trimmed g (omega arith)
            matches)

module _ {A : Type 0} (shard_for : Text → Text → Text → Text) where
  -- the operations that an event adds to the history
  unfoldable pub logged : Event A → Node A → List (Op A)
  logged (local_ops ops) n = (log_ops shard_for ops n).0
  logged _ n = []

  -- the history after the events
  unfoldable pub history_all : List (Event A) → Node A → List (Op A) → List (Op A)
  unfolding logged
  history_all [] n history = history
  history_all (e ∷ es) n history = history_all es (handle shard_for e n) (history ++ logged e n)

  log_op-IsCovered :
      (op : Op A) (n : Node A) (history : List (Op A))
      → n.operation_log ≡ true
      → IsCovered history n
      → IsCovered (history ++ ((log_op shard_for op n).0 ∷ [])) (log_op shard_for op n).1
  unfolding log_op
  log_op-IsCovered op n history on c = record {
    at = λ p key m e. rw on (split p key e (Member-append_cases p history (entry ∷ []) m));
  }
    where
      entry : Op A
      entry = record (with_shard shard_for op) { from = n.id; seq = n.seq + 1 }

      split :
          (p : Op A) (key : Text)
          → op_scope_key p ≡ some key
          → Member p history ⊎ Member p (entry ∷ [])
          → Member p (n.log ++ (entry ∷ [])) ⊎ Remembered key p.seq n.scope_trimmed
      split p key e (inl m) = elim (c.at p key m e) [
        | inl h ↦ inl (Member-append_left p n.log (entry ∷ []) h)
        | inr r ↦ inr r
      ]
      split p key e (inr m) = inl (Member-append_right p n.log (entry ∷ []) m)

  log_ops-IsCovered :
      (ops : List (Op A)) (n : Node A) (history : List (Op A))
      → n.operation_log ≡ true
      → IsCovered history n
      → IsCovered (history ++ (log_ops shard_for ops n).0) (log_ops shard_for ops n).1
  unfolding log_ops
  log_ops-IsCovered [] n history on c = rw append-nil c
  log_ops-IsCovered (op ∷ ops) n history on c =
      rw
        (← append_assoc history ((log_op shard_for op n).0 ∷ [])
          (log_ops shard_for ops (log_op shard_for op n).1).0)
        (log_ops-IsCovered ops (log_op shard_for op n).1
          (history ++ ((log_op shard_for op n).0 ∷ [])) (unfold log_op in on)
          (log_op-IsCovered op n history on c))

  handle-IsCovered :
      (e : Event A) (n : Node A) (history : List (Op A))
      → n.operation_log ≡ true
      → IsCovered history n
      → IsCovered (history ++ logged e n) (handle shard_for e n)
  unfolding logged handle commit_local_ops apply_remote receive_ack discard_collection_ops
      discard_database_ops
  handle-IsCovered (local_ops ops) n history on c = record {
    at = (log_ops-IsCovered ops n history on c).at;
  }
  handle-IsCovered (remote_ops ops cursor) n history on c = rw append-nil (record { at = c.at })
  handle-IsCovered (acknowledged peer after scope) n history on c =
      let m : Node A = record n { acks = put (cursor_key peer scope) (min after n.seq) n.acks } in
      rw append-nil (prune-IsCovered history m (record { at = c.at }))
  handle-IsCovered (collection_dropped db coll) n history on c =
      rw append-nil (drop_ops-IsCovered _ history n c)
  handle-IsCovered (database_dropped db) n history on c =
      rw append-nil (drop_ops-IsCovered _ history n c)

  log_ops-operation_log :
      (ops : List (Op A)) (n : Node A) → (log_ops shard_for ops n).1.operation_log ≡ n.operation_log
  unfolding log_ops
  log_ops-operation_log [] n = refl
  log_ops-operation_log (op ∷ ops) n =
      log_ops-operation_log ops (log_op shard_for op n).1 ∙ unfold log_op in refl

  handle-operation_log :
      (e : Event A) (n : Node A) → (handle shard_for e n).operation_log ≡ n.operation_log
  unfolding handle commit_local_ops apply_remote receive_ack discard_collection_ops
      discard_database_ops
  handle-operation_log (local_ops ops) n = log_ops-operation_log ops n
  handle-operation_log (remote_ops ops cursor) n = refl
  handle-operation_log (acknowledged peer after scope) n =
      let m : Node A = record n { acks = put (cursor_key peer scope) (min after n.seq) n.acks } in
      prune-operation_log m
  handle-operation_log (collection_dropped db coll) n = refl
  handle-operation_log (database_dropped db) n = refl

  handle_all-IsCovered :
      (es : List (Event A)) (n : Node A) (history : List (Op A))
      → n.operation_log ≡ true
      → IsCovered history n
      → IsCovered (history_all es n history) (handle_all shard_for es n)
  unfolding history_all handle_all
  handle_all-IsCovered [] n history on c = c
  handle_all-IsCovered (e ∷ es) n history on c =
      handle_all-IsCovered es (handle shard_for e n) (history ++ logged e n)
        (handle-operation_log e n ∙ on) (handle-IsCovered e n history on c)

  -- After any local writes, remote batches, acknowledgements and drops, a scoped pull of a node
  -- that logs its operations has no gap: every operation of the scope past the cursor that these
  -- events logged, with names that have no newline, is returned, or the puller is told to take a
  -- snapshot.
  pub pull_after_events :
      (es : List (Event A)) (n : Node A) (op : Op A) (after : ℕ) (scope : Scope)
      → n.operation_log ≡ true
      → Member op (history_all es n [])
      → IsAddressed op
      → op_matches_scope op (some scope) ≡ true
      → after < op.seq
      → (needs_snapshot after (some scope) (handle_all shard_for es n) ≡ true)
        ⊎ Member op (ops_after after 0 (some scope) (handle_all shard_for es n))
  pull_after_events es n op after scope on m a s l =
      pull_has_no_gap (history_all es n []) (handle_all shard_for es n) op after scope
        (handle_all-IsCovered es n [] on (record { at = λ p key h e. absurd h })) m a s l
