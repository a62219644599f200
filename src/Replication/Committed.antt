-- ===== src/Replication/Committed.antt =====
-- From a local write to the hints that tell of it: _commitLocalOps of src/crdt.js hands what it
-- applied to the listener of src/replication-scheduler.js.
use objy.Common.{
  ◌≡◌, ◌≢◌, refl, sym, ap, ◌∙◌, subst, Bool, true, false, not, ◌||◌, some, List, [], ◌∷◌, filter_by,
  Member, Member-append_cases, if◌then◌else◌, Bool-cases, inl, inr,
}
use objy.Common.Text.{Text, text_eq, text_eq_iff}
use objy.Collection.{Collection}
use objy.Collection.Batch.{row_writer}
use objy.Op.{Op, is_delete}
use objy.Store.{Store, skipped, collection_of, store_collection}
use objy.Store.Runs.{apply_op, apply_each, apply_ops-apply_each}
use objy.Node.{Node, is_valid_op, apply_valid_ops, log_op, log_ops, commit_local_ops}
use objy.Node.Peers.{peers_for_shard}
use objy.Replication.{Replication, record_local_change, is_self}
use objy.Replication.Changes.{IsKeyed, Tells, recorded_then_told}
use objy.ShardMap.{Peer, peer_key}

unnamed : (shard : Text) → shard ≢ [] → not (text_eq shard []) ≡ true
unnamed [] h = absurd (h refl)
unnamed (u ∷ us) h = unfold text_eq in refl

module _ {A : Type 0} (shard_for : Text → Text → Text → Text) where
  from_logged :
      (op : Op A) (ops : List (Op A)) (n : Node A)
      → Member op (log_ops shard_for ops n).0
      → op.from ≡ n.id
  unfolding log_ops log_op
  from_logged op [] n m = absurd m
  from_logged op (o ∷ ops) n (inl e) = ap (λ (x : Op A). x.from) e
  from_logged op (o ∷ ops) n (inr m) = from_logged op ops (log_op shard_for o n).1 m

  filtered-Member :
      (keep : Op A → Bool) (xs : List (Op A)) (op : Op A)
      → Member op (filter_by keep xs)
      → Member op xs
  filtered-Member keep [] op m = absurd m
  filtered-Member keep (x ∷ xs) op m = elim (Bool-cases (keep x)) [
    | inl e ↦
        elim (subst (λ b. Member op (if b then x ∷ filter_by keep xs else filter_by keep xs)) e m) [
          | inl h ↦ inl h
          | inr h ↦ inr (filtered-Member keep xs op h)
        ]
    | inr e ↦ inr (
        filtered-Member keep xs op
          (subst (λ b. Member op (if b then x ∷ filter_by keep xs else filter_by keep xs)) e m))
  ]

  Member-apply_op : (op o : Op A) (st : Store A) → Member op (apply_op o st).1 → op ≡ o
  unfolding apply_op
  Member-apply_op op o st m =
      only (skipped o st) (row_writer (is_delete o.kind) o (collection_of o.db o.coll st)) m
    where
      only :
          (skip : Bool) (row : Collection A × Bool)
          → Member op
              (if◌then◌else◌ {A = Store A × List (Op A)} skip
                (st, [])
                (store_collection o.db o.coll row.0 st, if row.1 then o ∷ [] else [])).1
          → op ≡ o
      only true row h = absurd h
      only false (c, true) (inl e) = e
      only false (c, true) (inr h) = absurd h
      only false (c, false) h = absurd h

  Member-apply_each :
      (op : Op A) (ops : List (Op A)) (st : Store A)
      → Member op (apply_each ops st).1
      → Member op ops
  unfolding apply_each
  Member-apply_each op [] st m = absurd m
  Member-apply_each op (o ∷ ops) st m =
      elim (Member-append_cases op (apply_op o st).1 (apply_each ops (apply_op o st).0).1 m) [
        | inl h ↦ inl (Member-apply_op op o st h)
        | inr h ↦ inr (Member-apply_each op ops (apply_op o st).0 h)
      ]

  -- what a commit applies is among what it logs
  applied_logged :
      (op : Op A) (ops : List (Op A)) (n : Node A)
      → Member op (commit_local_ops shard_for ops n).0.1
      → Member op (log_ops shard_for ops n).0
  unfolding commit_local_ops apply_valid_ops
  applied_logged op ops n m = filtered-Member is_valid_op (log_ops shard_for ops n).0 op (
      Member-apply_each op (filter_by is_valid_op (log_ops shard_for ops n).0)
        (log_ops shard_for ops n).1.db
        (subst (λ (x : Store A × List (Op A)). Member op x.1)
          (apply_ops-apply_each (filter_by is_valid_op (log_ops shard_for ops n).0)
            (log_ops shard_for ops n).1.db)
          m))

  -- If hints are enabled and every pending scope stands under its key, then once a node has
  -- committed local operations and the scheduler of the node has heard of those that were applied,
  -- the next flush tells every peer of the shard of each applied operation that has one with a
  -- name, if the peer has a url, is not the node itself, and the peers of its key take hints: it
  -- tells of the shard with the sequence number of the operation or a later one.
  pub committed_then_told :
      (has_hint : Peer → Bool) (ops : List (Op A)) (op : Op A) (n : Node A) (r : Replication)
      (shard : Text) (p : Peer)
      → r.site.id ≡ n.id
      → r.enabled ≡ true
      → r.hints_enabled ≡ true
      → IsKeyed r.pending_hint_scopes
      → Member op (commit_local_ops shard_for ops n).0.1
      → op.shard ≡ some shard
      → shard ≢ []
      → Member p (peers_for_shard shard r.site)
      → (text_eq p.url [] || is_self r.site p) ≡ false
      → ((q : Peer) → peer_key q ≡ peer_key p → has_hint q ≡ true)
      → Tells has_hint (record_local_change (commit_local_ops shard_for ops n).0.1 r) op.seq shard p
  committed_then_told has_hint ops op n r shard p same e f keyed m s named told u takes =
      let sender : text_eq op.from r.site.id ≡ true =
        (text_eq_iff op.from r.site.id).1
          (from_logged op ops n (applied_logged op ops n m) ∙ sym same) in
      recorded_then_told has_hint (commit_local_ops shard_for ops n).0.1 op r shard p e f keyed m s
        (rw (sender, unnamed shard named) refl) told u takes
