-- ===== src/Node/Sync/Progress.antt =====
-- The loop of syncPeer ends, and where it returns the cursor has caught up: src/crdt.js.
use objy.Common.{
  ℕ, zero, suc, ◌+◌, ◌-◌, ◌≤◌, ◌<◌, ◌≡◌, ◌⊎◌, refl, subst, leb, ◌==◌, max, true, false, ◌||◌,
  Option, none, some, List, [], ◌∷◌, length, arith, Bool-cases, inl, inr, All, if◌then◌else◌,
}
use objy.Common.Text.{Text, text_eq, text_eq_refl}
use objy.Common.Dict.{get-put_self}
use objy.Op.{Op}
use objy.Node.{Node, bind_cursor, last_seq, needs_snapshot, ops_after, receive_ack}
use objy.Node.Scopes.{Scope, cursor_key}
use objy.Node.Sync.{
  Session, Outcome, done, log_truncated, more, or_number, pull, seen_at, set_seen, bind_peer,
  cursor_of, seen_after, raise_floor, catch_up, take_page, sync_step, sync_peer,
}
use objy.Node.Sync.Serving.{
  IsServing, receive_ack-Kept, receive_ack-IsServing, needs_snapshot-below, ops_from-above,
  last_seq-above,
}

or_number_self : (a : ℕ) → or_number a a ≡ a
or_number_self zero = refl
or_number_self (suc n) = refl

or_number-ge : (a b : ℕ) → a ≤ or_number a b
or_number-ge zero b = omega arith
or_number-ge (suc n) b = omega arith

or_number-past : (a b : ℕ) → leb (or_number a b) b ≡ false → b < a
or_number-past zero b h = ground arith
or_number-past (suc n) b h = ground arith

past : (a b : ℕ) → leb a b ≡ false → b < a
past a b h = ground arith

at_most : (a b : ℕ) → leb a b ≡ true → a ≤ b
at_most a b h = ground arith

not_empty : {A : Type 0} (x : A) (xs : List A) → (length (x ∷ xs) == 0) ≡ false
not_empty x xs = ground arith

module _ {A : Type 0} where
  bind_peer-same : (id : Text) (n : Node A) → bind_peer id id n ≡ n
  unfolding bind_peer bind_cursor
  bind_peer-same id n = elim (Bool-cases (text_eq id [])) [
    | inl e ↦ rw e refl
    | inr e ↦ rw (e, text_eq_refl id) refl
  ]

  -- the session has no other node on the far side, so that the sync returns at once
  abbrev pub IsAlone : Session A → Type 0
  IsAlone s = (text_eq s.remote.id [] || text_eq s.remote.id s.local.id) ≡ true

  -- what an iteration that started from cursor `after` towards `last` has reached
  abbrev Advances : Option Scope → ℕ → Session A → Outcome A → Type 0
  Advances scope after s (done s') = IsAlone s' ⊎ (s.remote.seq ≤ cursor_of scope s')
  Advances scope after s (log_truncated s') = Unit
  Advances scope after s (more s') =
      IsServing s'.remote
      × (s'.remote.seq ≡ s.remote.seq)
      × (after < s.remote.seq)
      × (after < cursor_of scope s')

  module _ (shard_for : Text → Text → Text → Text)
      (restore : Option Scope → ℕ → Node A → Option ℕ × Node A) where
    catch_up-Advances :
        (scope : Option Scope) (trimmed : ℕ) (s : Session A)
        → IsServing s.remote
        → cursor_of scope s < s.remote.seq
        → Advances scope
            (cursor_of scope s)
            s
            (catch_up shard_for restore scope (cursor_of scope s) trimmed s)
    unfolding catch_up cursor_of
    catch_up-Advances scope trimmed s h l =
        go (or_number (seen_at key bound) (cursor_of scope s)) before
          (restore scope (cursor_of scope s) bound).0 (restore scope (cursor_of scope s) bound).1
      where
        key : Text
        key = cursor_key s.remote.id scope

        bound : Node A
        bound = bind_peer s.remote.id s.remote.id s.local

        before : cursor_of scope s ≤ or_number (seen_at key bound) (cursor_of scope s)
        before =
            rw (bind_peer-same s.remote.id s.local, or_number_self (seen_at key s.local))
              (omega arith)

        go :
            (old : ℕ)
            → cursor_of scope s ≤ old
            → (rows : Option ℕ) (restored : Node A)
            → Advances scope (cursor_of scope s) s (elim rows [
              | none ↦ log_truncated (record s { local = restored })
              | some count ↦
                  let raised = raise_floor key count trimmed restored in
                  if leb (seen_at key raised) old
                  then log_truncated (record s { local = raised })
                  else more (record s { local = raised; total = s.total + count })
            ])
        go old b none restored = tt
        go old b (some count) restored =
            elim (Bool-cases (leb (seen_at key (raise_floor key count trimmed restored)) old)) [
              | inl e ↦ rw e tt
              | inr e ↦ rw e (h, refl, l, omega (arith, b, past _ _ e))
            ]

    module _ (scope : Option Scope) (s : Session A) (h : IsServing s.remote) where
      -- the session after a page, of which `seen` is the last sequence number
      abbrev next : ℕ → Node A → ℕ → ℕ → Session A
      next seen fed held total = record {
        local = set_seen (cursor_key s.remote.id scope) (max held seen) fed;
        remote = receive_ack s.local.id seen scope s.remote;
        total = total;
      }

      next-cursor :
          (seen : ℕ) (fed : Node A) (held total : ℕ)
          → cursor_of scope (next seen fed held total) ≡ max held seen
      unfolding cursor_of set_seen
      next-cursor seen fed held total =
          rw
            (
              (receive_ack-Kept s.local.id seen scope s.remote h).id,
              get-put_self (cursor_key s.remote.id scope) (max held seen) fed.last_seen,
            )
            refl

      finish : (ops : List (Op A)) (seen : ℕ) → Session A → Outcome A
      finish ops seen s' =
          if length ops == 0 || leb (or_number s.remote.seq seen) seen then done s' else more s'

      finish-Advances :
          (after : ℕ) (ops : List (Op A)) (fed : Node A) (held total : ℕ)
          → All (λ op. after < op.seq) ops
          → Advances scope after s (
              finish ops
                (seen_after ops s.remote.seq after)
                (next (seen_after ops s.remote.seq after) fed held total))
      unfolding finish seen_after
      finish-Advances after [] fed held total a = inr (
          rw (next-cursor (or_number s.remote.seq after) fed held total)
            (omega (arith, or_number-ge s.remote.seq after)))
      finish-Advances after (op ∷ ops) fed held total a =
          elim (Bool-cases
            (leb (or_number s.remote.seq (last_seq (op ∷ ops))) (last_seq (op ∷ ops)))) [
              | inl e ↦
                  rw (not_empty op ops, e)
                    (inr (
                      rw (next-cursor (last_seq (op ∷ ops)) fed held total) (
                        omega (
                          arith,
                          or_number-ge s.remote.seq (last_seq (op ∷ ops)),
                          at_most (or_number s.remote.seq (last_seq (op ∷ ops)))
                              (last_seq (op ∷ ops)) e,
                        ))))
              | inr e ↦
                  rw (not_empty op ops, e)
                    (
                      receive_ack-IsServing s.local.id (last_seq (op ∷ ops)) scope s.remote h,
                      (receive_ack-Kept s.local.id (last_seq (op ∷ ops)) scope s.remote h).seq,
                      omega (
                        arith,
                        last_seq-above after op ops a,
                        or_number-past s.remote.seq (last_seq (op ∷ ops)) e,
                      ),
                      rw (next-cursor (last_seq (op ∷ ops)) fed held total)
                          (omega (arith, last_seq-above after op ops a)),
                    )
            ]

    above :
        (scope : Option Scope) (limit : ℕ) (s : Session A)
        → All
            (λ op. cursor_of scope s < op.seq)
            (ops_after (cursor_of scope s) limit scope s.remote)
    unfolding ops_after
    above scope limit s = ops_from-above (cursor_of scope s) limit 0 scope s.remote.log

    take_page-Advances :
        (scope : Option Scope) (limit : ℕ) (s : Session A)
        → IsServing s.remote
        → Advances scope (cursor_of scope s) s (
            take_page shard_for restore scope
              (cursor_of scope s)
              s.remote.seq
              (ops_after (cursor_of scope s) limit scope s.remote)
              s)
    unfolding take_page finish
    take_page-Advances scope limit s h =
        elim (Bool-cases (text_eq s.remote.id [] || text_eq s.remote.id s.local.id)) [
          | inl e ↦ rw e (inl e)
          | inr e ↦ rw e (
              finish-Advances scope s h (cursor_of scope s)
                (ops_after (cursor_of scope s) limit scope s.remote) _ _ _ (above scope limit s))
        ]

    -- what a sync that started when the peer's counter was `last` ends in: it returns only caught
    -- up, or throws
    abbrev pub Ends : Option Scope → ℕ → Option (Outcome A) → Type 0
    Ends scope last none = ⊥
    Ends scope last (some (done s)) = IsAlone s ⊎ (last ≤ cursor_of scope s)
    Ends scope last (some (log_truncated s)) = Unit
    Ends scope last (some (more s)) = ⊥

    sync_step-Advances :
        (scope : Option Scope) (limit : ℕ) (s : Session A)
        → IsServing s.remote
        → Advances scope (cursor_of scope s) s (sync_step shard_for restore limit scope s)
    unfolding sync_step pull
    sync_step-Advances scope limit s h =
        elim (Bool-cases (needs_snapshot (cursor_of scope s) scope s.remote)) [
          | inl e ↦ rw e (
              catch_up-Advances scope s.remote.trimmed s h
                (needs_snapshot-below (cursor_of scope s) scope s.remote h e))
          | inr e ↦ rw e (take_page-Advances scope limit s h)
        ]

    -- A sync with a peer whose log is in order ends within one pull more than the peer is ahead of
    -- the cursor, whatever the handler of a truncated log restores: it throws, or it returns with
    -- the cursor at the peer's counter or past it, unless the peer is the node itself.
    pub sync_peer-Ends :
        (fuel limit : ℕ) (scope : Option Scope) (s : Session A)
        → IsServing s.remote
        → s.remote.seq - cursor_of scope s < fuel
        → Ends scope s.remote.seq (sync_peer shard_for restore fuel limit scope s)
    unfolding sync_peer
    sync_peer-Ends zero limit scope s h l = absurd (omega arith)
    sync_peer-Ends (suc fuel) limit scope s h l =
        go (sync_step shard_for restore limit scope s) (sync_step-Advances scope limit s h)
          (λ s' h' l'. sync_peer-Ends fuel limit scope s' h' l')
      where
        go :
            (o : Outcome A)
            → Advances scope (cursor_of scope s) s o
            → ((s' : Session A)
                → IsServing s'.remote
                → s'.remote.seq - cursor_of scope s' < fuel
                → Ends scope s'.remote.seq (sync_peer shard_for restore fuel limit scope s'))
            → Ends scope s.remote.seq (elim o [
              | done s' ↦ some (done s')
              | log_truncated s' ↦ some (log_truncated s')
              | more s' ↦ sync_peer shard_for restore fuel limit scope s'
            ])
        go (done s') a ih = a
        go (log_truncated s') a ih = tt
        go (more s') (h', e, below, up) ih =
            subst (λ q. Ends scope q (sync_peer shard_for restore fuel limit scope s')) e
              (ih s' h' (omega (arith, e, below, up, l)))
