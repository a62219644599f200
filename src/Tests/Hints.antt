-- ===== src/Tests/Hints.antt =====
-- A scheduler that hears of a write and is asked for pulls: src/replication-scheduler.js.
use objy.Common.{
  ℕ, ◌+◌, ◌≡◌, ◌≢◌, ◌≤◌, ◌⊎◌, refl, max, Bool, true, none, some, List, [], ◌∷◌, inl, inr, All,
  Member, length,
}
use objy.Common.Text.{text, text_eq}
use objy.Common.Dict.{get, put}
use objy.Node.Peers.{Site, normalize_url, same_url, peers_for_shard}
use objy.Replication.{
  Pull, Replication, Stats, record_local_change, chunks, enqueue_pull, in_flight, is_self, pull_key,
}
use objy.Collection.{empty_collection, put_object}
use objy.Node.{commit_local_ops}
use objy.Store.{apply_ops, collection_of, empty_store, flush_if_other, op_key, run_rows, skipped}
use objy.Replication.Changes.{IsKeyed, Tells}
use objy.Replication.Committed.{committed_then_told}
use objy.Tests.Nodes.{idle, one_shard}
use objy.Replication.Hints.{joined, chunks-joined}
use objy.Replication.Pulls.{
  Event, asked, ended, woken, flying, count_key, handle_all, ends_all, handle_all-balance,
  enqueue_pull-Placed,
}
use objy.ShardMap.{Peer, peer_key, peers_for}
use objy.Tests.Stores.{write_a}

abbrev near : Peer
near = record { url = text "http://n1"; node_id = []; key = [] }

abbrev far : Peer
far = record { url = text "http://n2"; node_id = []; key = [] }

abbrev site : Site
site = record {
  id = text "n1";
  url = some (text "http://n1");
  shards = (text "s1", (text "http://n1", near) ∷ (text "http://n2", far) ∷ []) ∷ [];
}

abbrev no_stats : Stats
no_stats = record {
  hints_sent = 0;
  hints_received = 0;
  hint_scopes_sent = 0;
  hint_scopes_received = 0;
  pull_syncs = 0;
  last_error = none;
}

abbrev quiet : Replication
quiet = record {
  site = site;
  enabled = true;
  hints_enabled = true;
  max_scopes_per_hint = 128;
  pending_hint_scopes = [];
  pull_queue = [];
  inflight_pulls = [];
  stats = no_stats;
}

quiet-IsKeyed : IsKeyed quiet.pending_hint_scopes
unfolding get
quiet-IsKeyed = record { at = λ key scope e. cc }

far-Member : Member far (peers_for_shard (text "s1") site)
unfolding peers_for_shard peers_for get put text_eq peer_key
far-Member = inr (inl refl)

abbrev all_take : Peer → Bool
all_take p = true

write_a-applied : Member write_a (commit_local_ops one_shard (write_a ∷ []) idle).0.1
unfolding commit_local_ops text_eq apply_ops skipped empty_store flush_if_other run_rows op_key
    put_object get collection_of empty_collection
write_a-applied = inl refl

committed_then_told_example :
    Tells all_take
      (record_local_change (commit_local_ops one_shard (write_a ∷ []) idle).0.1 quiet)
      1
      (text "s1")
      far
committed_then_told_example =
    committed_then_told one_shard all_take (write_a ∷ []) write_a idle quiet (text "s1") far refl
      refl refl quiet-IsKeyed write_a-applied refl (λ e. cc) far-Member
      (unfold text_eq is_self normalize_url same_url in refl) (λ q e. refl)

abbrev pull_far : Pull
pull_far = record { peer = far; scope = none }

-- asked for twice, ended once and taken up again
abbrev events : List Event
events = asked pull_far ∷ asked pull_far ∷ ended (pull_key pull_far) none ∷ woken ∷ []

started_twice : count_key (pull_key pull_far) (handle_all events quiet).0 ≡ 2
unfolding handle_all text_eq pull_key peer_key put
started_twice = refl

handle_all-balance_example :
    flying (pull_key pull_far) quiet + count_key (pull_key pull_far) (handle_all events quiet).0
    ≡ flying (pull_key pull_far) (handle_all events quiet).1
      + ends_all (pull_key pull_far) events quiet
handle_all-balance_example = handle_all-balance (pull_key pull_far) events quiet

enqueue_pull-Placed_example :
    Member (pull_key pull_far, pull_far) (enqueue_pull pull_far quiet).0
    ⊎ (Member (pull_key pull_far, pull_far) (enqueue_pull pull_far quiet).1.pull_queue
        × (in_flight (pull_key pull_far) (enqueue_pull pull_far quiet).1.inflight_pulls ≡ true))
enqueue_pull-Placed_example = enqueue_pull-Placed pull_far quiet

chunks-joined_example :
    (joined (chunks {A = ℕ} (1 ∷ 2 ∷ 3 ∷ []) 2) ≡ 1 ∷ 2 ∷ 3 ∷ [])
    × All (λ c. (c ≢ []) × (length c ≤ max 1 2)) (chunks {A = ℕ} (1 ∷ 2 ∷ 3 ∷ []) 2)
chunks-joined_example = chunks-joined (1 ∷ 2 ∷ 3 ∷ []) 2
