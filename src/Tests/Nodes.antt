-- ===== src/Tests/Nodes.antt =====
-- A node that writes, hears acknowledgements and answers pulls: src/crdt.js.
use objy.Common.{
  ℕ, ◌≡◌, ◌⊎◌, refl, true, none, some, List, [], ◌∷◌, ◌++◌, inl, inr, arith, Member, length, ◌≤◌,
}
use objy.Common.Text.{Text, text, text_eq}
use objy.Common.Dict.{get}
use objy.Clock.{make_clock, next_ts, ts_gt}
use objy.Store.{empty_store}
use objy.Node.{Node, ops_after, last_seq, needs_snapshot, prune, apply_remote, log_ops}
use objy.Node.Scopes.{Scope, op_scope_key, op_matches_scope}
use objy.Node.Log.{
  Event, local_ops, remote_ops, acknowledged, handle_all, IsLogged, handle_all-IsLogged,
}
use objy.Node.Trim.{Member-prune}
use objy.Node.Pull.{IsAddressed, history_all, pull_after_events}
use objy.Node.Pages.{pages_complete}
use objy.Node.Causal.{next_ts-apply_remote}
use objy.Tests.Stores.{write_a, remove_a}

abbrev pub one_shard : Text → Text → Text → Text
one_shard db coll id = text "s1"

abbrev pub scope : Scope
scope = record { database = text "app"; collection = text "users"; shard = text "s1" }

abbrev pub idle : Node ℕ
idle = record {
  id = text "n1";
  db = empty_store;
  clock = make_clock (text "n1");
  log = [];
  operation_log = true;
  seq = 0;
  trimmed = 0;
  scope_trimmed = [];
  retain_ops = 0;
  last_seen = [];
  acks = [];
}

abbrev pub logging : Node ℕ
logging = record idle { log = write_a ∷ remove_a ∷ []; seq = 2; acks = (text "n2", 1) ∷ [] }

pub logging-IsLogged : IsLogged logging
logging-IsLogged = record {
  within = ((omega arith, omega arith), ((omega arith, omega arith), tt));
  ascending = ((omega arith, tt), (tt, tt));
  trimmed_le = omega arith;
}

abbrev events : List (Event ℕ)
events =
    local_ops (write_a ∷ [])
    ∷ remote_ops (remove_a ∷ []) (text "n2")
    ∷ acknowledged (text "n2") 1 none
    ∷ []

handle_all_example : IsLogged (handle_all one_shard events logging)
handle_all_example = handle_all-IsLogged one_shard events logging logging-IsLogged

Member-prune_example : Member remove_a (prune logging).log
Member-prune_example =
    Member-prune remove_a logging (inr (text "n2", 1, unfold get text_eq in refl, omega arith))
      (inr (inl refl))

write_a-IsAddressed : IsAddressed write_a
unfolding op_scope_key text_eq
write_a-IsAddressed = record {
  shard = text "s1";
  has_shard = refl;
  has_key = refl;
  plain_db = ((λ e. omega (arith, e)), ((λ e. omega (arith, e)), ((λ e. omega (arith, e)), tt)));
  plain_coll = (
    (λ e. omega (arith, e)),
    (
      (λ e. omega (arith, e)),
      ((λ e. omega (arith, e)), ((λ e. omega (arith, e)), ((λ e. omega (arith, e)), tt))),
    ),
  );
  plain_shard = ((λ e. omega (arith, e)), ((λ e. omega (arith, e)), tt));
}

pull_example :
    (needs_snapshot 0 (some scope) (handle_all one_shard events idle) ≡ true)
    ⊎ Member write_a (ops_after 0 0 (some scope) (handle_all one_shard events idle))
pull_example =
    pull_after_events one_shard events idle write_a 0 scope refl
      (unfold history_all log_ops text_eq in inl refl) write_a-IsAddressed
      (unfold op_matches_scope text_eq in refl) (omega arith)

pages_example :
    (ops_after 0 0 (some scope) logging
      ≡ ops_after 0 1 (some scope) logging
        ++ ops_after (last_seq (ops_after 0 1 (some scope) logging)) 0 (some scope) logging)
    × (length (ops_after 0 1 (some scope) logging) ≤ 1)
pages_example =
    pages_complete 0 0 (some scope) logging logging-IsLogged
      (unfold ops_after op_matches_scope text_eq in λ e. cc)

next_ts_example :
    ts_gt (next_ts (apply_remote one_shard (remove_a ∷ []) (text "n2") idle).1.clock).1 remove_a.ts
    ≡ true
next_ts_example =
    next_ts-apply_remote one_shard (remove_a ∷ []) (text "n2") idle remove_a (inl refl)
