-- ===== src/Node/Log.antt =====
-- The log holds ascending sequence numbers between what was trimmed and the node's counter.
use objy.Common.{
  ℕ, ◌+◌, ◌-◌, ◌≤◌, ◌<◌, ◌≡◌, refl, leb, ltb, min, Bool, true, false, not, Option, none, some, List,
  [], ◌∷◌, ◌++◌, if◌then◌else◌, filter_by, All, All-append, All-filter_by, arith, Bool-cases, inl,
  inr,
}
use objy.Common.Text.{Text}
use objy.Common.Dict.{put, values}
use objy.Op.{Op}
use objy.Node.{
  Node, with_shard, log_op, log_ops, commit_local_ops, apply_remote, drop_ops, prune_to, prune,
  receive_ack, discard_collection_ops, discard_database_ops, watermark,
}
use objy.Node.Scopes.{Scope, cursor_key}

abbrev pub Within : {A : Type 0} → ℕ → ℕ → List (Op A) → Type 0
Within lo hi = All (λ op. (lo < op.seq) × (op.seq ≤ hi))

abbrev pub Ascending : {A : Type 0} → List (Op A) → Type 0
Ascending [] = Unit
Ascending (op ∷ ops) = All (λ later. op.seq < later.seq) ops × Ascending ops

pub record IsLogged {A : Type 0} (n : Node A) : Type 0 where
  pub within : Within n.trimmed n.seq n.log
  pub ascending : Ascending n.log
  pub trimmed_le : n.trimmed ≤ n.seq

module _ {A : Type 0} where
  All-map :
      (P Q : Op A → Type 0) (xs : List (Op A)) → ((op : Op A) → P op → Q op) → All P xs → All Q xs
  All-map P Q [] f h = tt
  All-map P Q (x ∷ xs) f h = (f x h.0, All-map P Q xs f h.1)

  Ascending-snoc :
      (xs : List (Op A)) (op : Op A)
      → All (λ x. x.seq < op.seq) xs
      → Ascending xs
      → Ascending (xs ++ (op ∷ []))
  Ascending-snoc [] op h a = (tt, tt)
  Ascending-snoc (x ∷ xs) op h a =
      (All-append (λ y. x.seq < y.seq) xs (op ∷ []) a.0 (h.0, tt), Ascending-snoc xs op h.1 a.1)

  Ascending-filter_by :
      (keep : Op A → Bool) (xs : List (Op A)) → Ascending xs → Ascending (filter_by keep xs)
  Ascending-filter_by keep [] a = tt
  Ascending-filter_by keep (x ∷ xs) a = elim (Bool-cases (keep x)) [
    | inl e ↦ rw e (All-filter_by (λ y. x.seq < y.seq) keep xs a.0, Ascending-filter_by keep xs a.1)
    | inr e ↦ rw e (Ascending-filter_by keep xs a.1)
  ]

  -- what a cut leaves lies above it
  Within-cut :
      (lo hi cut : ℕ) (xs : List (Op A))
      → Within lo hi xs
      → Within cut hi (filter_by (λ op. not (leb op.seq cut)) xs)
  Within-cut lo hi cut [] h = tt
  Within-cut lo hi cut (x ∷ xs) h = elim (Bool-cases (leb x.seq cut)) [
    | inl e ↦ rw e (Within-cut lo hi cut xs h.1)
    | inr e ↦ rw e ((ground arith, h.0.1), Within-cut lo hi cut xs h.1)
  ]

  pub log_op-IsLogged :
      (shard_for : Text → Text → Text → Text) (op : Op A) (n : Node A)
      → IsLogged n
      → IsLogged (log_op shard_for op n).1
  unfolding log_op
  log_op-IsLogged shard_for op n h = go n.operation_log
    where
      entry : Op A
      entry = record (with_shard shard_for op) { from = n.id; seq = n.seq + 1 }

      more : Within n.trimmed (n.seq + 1) n.log
      more = All-map _ _ n.log (λ x p. (p.0, omega arith)) h.within

      go :
          (b : Bool)
          → IsLogged
              (record n { seq = n.seq + 1; log = if b then n.log ++ (entry ∷ []) else n.log })
      go true = record {
        within =
            All-append _ n.log (entry ∷ []) more ((omega (arith, h.trimmed_le), omega arith), tt);
        ascending =
            Ascending-snoc n.log entry (All-map _ _ n.log (λ x p. omega arith) h.within)
              h.ascending;
        trimmed_le = omega (arith, h.trimmed_le);
      }
      go false = record {
        within = more;
        ascending = h.ascending;
        trimmed_le = omega (arith, h.trimmed_le);
      }

  pub drop_ops-IsLogged :
      (drop : Op A → Bool) (n : Node A) → IsLogged n → IsLogged (drop_ops drop n)
  unfolding drop_ops
  drop_ops-IsLogged drop n h = record {
    within = All-filter_by _ (λ op. not (drop op)) n.log h.within;
    ascending = Ascending-filter_by (λ op. not (drop op)) n.log h.ascending;
    trimmed_le = h.trimmed_le;
  }

  prune_to-IsLogged : (safe : ℕ) (n : Node A) → IsLogged n → IsLogged (prune_to safe n)
  unfolding prune_to drop_ops
  prune_to-IsLogged safe n h = go (leb safe n.trimmed) (ltb n.trimmed (min safe n.seq))
    where
      cut : ℕ
      cut = min safe n.seq

      pruned : Node A
      pruned = record (drop_ops (λ op. leb op.seq cut) n) { trimmed = cut }

      go : (a b : Bool) → IsLogged (if a then n else if b then pruned else n)
      go true b = h
      go false false = h
      go false true = record {
        within = Within-cut n.trimmed n.seq cut n.log h.within;
        ascending = Ascending-filter_by (λ op. not (leb op.seq cut)) n.log h.ascending;
        trimmed_le = omega arith;
      }

  pub prune-IsLogged : (n : Node A) → IsLogged n → IsLogged (prune n)
  unfolding prune
  prune-IsLogged n h = go (watermark (values n.acks))
    where
      go : (w : Option ℕ) → IsLogged (elim w [ none ↦ n | some w ↦ prune_to (w - n.retain_ops) n ])
      go none = h
      go (some w) = prune_to-IsLogged (w - n.retain_ops) n h

  log_ops-IsLogged :
      (shard_for : Text → Text → Text → Text) (ops : List (Op A)) (n : Node A)
      → IsLogged n
      → IsLogged (log_ops shard_for ops n).1
  unfolding log_ops
  log_ops-IsLogged shard_for [] n h = h
  log_ops-IsLogged shard_for (op ∷ ops) n h =
      log_ops-IsLogged shard_for ops (log_op shard_for op n).1 (log_op-IsLogged shard_for op n h)

  same_log :
      (n m : Node A)
      → m.log ≡ n.log
      → m.seq ≡ n.seq
      → m.trimmed ≡ n.trimmed
      → IsLogged n
      → IsLogged m
  same_log n m e f g h = record {
    within = rw (e, f, g) h.within;
    ascending = rw e h.ascending;
    trimmed_le = rw (f, g) h.trimmed_le;
  }

-- what happens to a node's log
pub data Event (A : Type 0) : Type 0 where
  local_ops : List (Op A) → Event A
  remote_ops : List (Op A) → Text → Event A
  acknowledged : Text → ℕ → Option Scope → Event A
  collection_dropped : Text → Text → Event A
  database_dropped : Text → Event A

module _ {A : Type 0} (shard_for : Text → Text → Text → Text) where
  unfoldable pub handle : Event A → Node A → Node A
  handle (local_ops ops) n = (commit_local_ops shard_for ops n).1
  handle (remote_ops ops cursor) n = (apply_remote shard_for ops cursor n).1
  handle (acknowledged peer after scope) n = receive_ack peer after scope n
  handle (collection_dropped db coll) n = discard_collection_ops db coll n
  handle (database_dropped db) n = discard_database_ops db n

  unfoldable pub handle_all : List (Event A) → Node A → Node A
  unfolding handle
  handle_all [] n = n
  handle_all (e ∷ es) n = handle_all es (handle e n)

  handle-IsLogged : (e : Event A) (n : Node A) → IsLogged n → IsLogged (handle e n)
  unfolding handle commit_local_ops apply_remote receive_ack discard_collection_ops
      discard_database_ops
  handle-IsLogged (local_ops ops) n h =
      same_log (log_ops shard_for ops n).1 _ refl refl refl (log_ops-IsLogged shard_for ops n h)
  handle-IsLogged (remote_ops ops cursor) n h = same_log n _ refl refl refl h
  handle-IsLogged (acknowledged peer after scope) n h =
      let m : Node A = record n { acks = put (cursor_key peer scope) (min after n.seq) n.acks } in
      prune-IsLogged m (same_log n m refl refl refl h)
  handle-IsLogged (collection_dropped db coll) n h = drop_ops-IsLogged _ n h
  handle-IsLogged (database_dropped db) n h = drop_ops-IsLogged _ n h

  -- If the log of a node is in ascending sequence order, above what was trimmed and not above the
  -- node's counter, then whatever local writes, remote batches, acknowledgements and drops come, it
  -- stays in ascending sequence order, above what was trimmed and not above the node's counter.
  pub handle_all-IsLogged :
      (events : List (Event A)) (n : Node A) → IsLogged n → IsLogged (handle_all events n)
  unfolding handle_all
  handle_all-IsLogged [] n h = h
  handle_all-IsLogged (e ∷ es) n h = handle_all-IsLogged es (handle e n) (handle-IsLogged e n h)
