-- ===== src/Replication.antt =====
-- src/replication-scheduler.js: the hints that tell peers of new operations, and the pulls that
-- hints ask for. What a hint or a pull came to is an argument of the function that ends it, and
-- whether a peer has a method `hint` is one of what sends hints; timers and times are left out.
pub mod Pulls
pub mod Targets
pub mod Hints
pub mod Changes
pub mod Committed
use objy.Common.{
  ℕ, zero, suc, ◌+◌, ltb, ◌==◌, max, Bool, true, false, not, ◌&&◌, ◌||◌, Option, none, some, List,
  [], ◌∷◌, ◌++◌, if◌then◌else◌, any, filter_by, length, map, take, drop,
}
use objy.Common.Text.{Text, text, text_eq}
use objy.Common.Dict.{Dict, get, put, del, values}
use objy.Common.Fallible.{Result, ok, err, ◌>>=◌}
use objy.Op.{Op}
use objy.Node.Scopes.{Scope, global}
use objy.Node.Peers.{
  Site, normalize_url, same_url, is_id, owns_shard, peers_for_shard, sync_scope_for_shard,
}
use objy.Query.Strings.{starts_with}
use objy.ShardMap.{Peer, peer_key}

-- a scope of a hint; its database and collection are the global ones
pub record HintScope : Type 0 where
  pub shard : Text
  pub last_seq : ℕ

-- what is pulled from whom
pub record Pull : Type 0 where
  pub peer : Peer
  pub scope : Option Scope

pub record Stats : Type 0 where
  pub hints_sent : ℕ
  pub hints_received : ℕ
  pub hint_scopes_sent : ℕ
  pub hint_scopes_received : ℕ
  pub pull_syncs : ℕ
  pub last_error : Option Text

pub record Replication : Type 0 where
  pub site : Site
  pub enabled : Bool
  pub hints_enabled : Bool
  pub max_scopes_per_hint : ℕ
  pub pending_hint_scopes : Dict HintScope
  pub pull_queue : Dict Pull
  pub inflight_pulls : List Text
  pub stats : Stats

-- a scope as it comes in a hint, and the refusals
pub record RawScope : Type 0 where
  pub shard : Option Text
  pub last_seq : ℕ

pub record Hint : Type 0 where
  pub node : Text
  pub url : Text
  pub scopes : List RawScope

pub data Refusal : Type 0 where
  no_scopes : Refusal
  no_shard : ℕ → Refusal

-- scopeKey(scope)
unfoldable pub scope_key : Option Scope → Text
scope_key none = text "*"
scope_key (some s) = s.database ++ (text "/" ++ (s.collection ++ (text "/" ++ s.shard)))

-- scopeKey(explicitShardScope(shard))
unfoldable pub hint_key : Text → Text
unfolding scope_key
hint_key shard = scope_key (some (record { database = global; collection = global; shard = shard }))

-- pullKey(peer, scope)
unfoldable pub pull_key : Pull → Text
unfolding peer_key scope_key
pull_key p = peer_key p.peer ++ (text "|" ++ scope_key p.scope)

-- isSelfPeer(node, peer)
unfoldable pub is_self : Site → Peer → Bool
unfolding normalize_url same_url
is_self site peer =
    (not (text_eq peer.url []) && same_url (normalize_url peer.url) site.url)
    || (is_id peer.node_id site.id || is_id peer.key site.id)

-- normalizeHintScopes(scopes)
unfoldable pub check_scopes : ℕ → List RawScope → Result Refusal (List HintScope)
check_scopes index [] = ok []
check_scopes index (s ∷ scopes) = elim s.shard [
  | none ↦ err (no_shard index)
  | some shard ↦
      if text_eq shard []
      then err (no_shard index)
      else check_scopes (index + 1) scopes >>= λ rest.
          ok (record { shard = shard; last_seq = s.last_seq } ∷ rest)
]

unfoldable pub normalize_hint_scopes : List RawScope → Result Refusal (List HintScope)
unfolding check_scopes
normalize_hint_scopes [] = err no_scopes
normalize_hint_scopes (s ∷ scopes) = check_scopes 0 (s ∷ scopes)

-- an operation of the loop of _recordLocalChange
abbrev pub newer_scope : HintScope → Option HintScope → Bool
newer_scope scope none = true
newer_scope scope (some pending) = ltb pending.last_seq scope.last_seq

unfoldable pub record_scope : Text → ℕ → Dict HintScope → Dict HintScope
record_scope shard seq pending =
    let scope : HintScope = record { shard = shard; last_seq = seq } in
    if newer_scope scope (get (hint_key shard) pending)
    then put (hint_key shard) scope pending
    else pending

module _ {A : Type 0} where
  unfoldable pub record_op : Text → Op A → Dict HintScope → Dict HintScope
  record_op id op pending = elim op.shard [
    | none ↦ pending
    | some shard ↦
        if text_eq op.from id && not (text_eq shard [])
        then record_scope shard op.seq pending
        else pending
  ]

  unfoldable pub record_ops : Text → List (Op A) → Dict HintScope → Dict HintScope
  record_ops id [] pending = pending
  record_ops id (op ∷ ops) pending = record_ops id ops (record_op id op pending)

  -- _recordLocalChange(change) for a change of kind "ops"
  unfoldable pub record_local_change : List (Op A) → Replication → Replication
  record_local_change ops r =
      if r.enabled && r.hints_enabled
      then record r { pending_hint_scopes = record_ops r.site.id ops r.pending_hint_scopes }
      else r

-- the loop of chunks
unfoldable pub chunks_from : {A : Type 0} → ℕ → ℕ → List A → List (List A)
chunks_from zero n values = []
chunks_from (suc fuel) n [] = []
chunks_from (suc fuel) n (v ∷ values) =
    take n (v ∷ values) ∷ chunks_from fuel n (drop n (v ∷ values))

-- chunks(values, size)
unfoldable pub chunks : {A : Type 0} → List A → ℕ → List (List A)
unfolding chunks_from
chunks values size = chunks_from (length values) (max 1 size) values

-- a peer with the scopes to tell it of
pub record Target : Type 0 where
  pub peer : Peer
  pub scopes : List HintScope

abbrev pub scopes_of : Option Target → List HintScope
scopes_of none = []
scopes_of (some t) = t.scopes

abbrev pub peer_of : Option Target → Peer → Peer
peer_of none p = p
peer_of (some t) p = t.peer

unfoldable pub add_target : HintScope → Peer → Dict Target → Dict Target
add_target scope p targets =
    let found = get (peer_key p) targets in
    put (peer_key p) (record { peer = peer_of found p; scopes = scopes_of found ++ (scope ∷ []) })
      targets

-- the loop of _hintTargets over the peers of a shard
unfoldable pub tell_peers : Site → HintScope → List Peer → Dict Target → Dict Target
unfolding add_target
tell_peers site scope [] targets = targets
tell_peers site scope (p ∷ peers) targets =
    if text_eq p.url [] || is_self site p
    then tell_peers site scope peers targets
    else tell_peers site scope peers (add_target scope p targets)

-- _hintTargets(scopes)
unfoldable pub hint_targets : Site → List HintScope → Dict Target → Dict Target
unfolding tell_peers
hint_targets site [] targets = targets
hint_targets site (s ∷ scopes) targets =
    hint_targets site scopes (tell_peers site s (peers_for_shard s.shard site) targets)

-- a call of _sendHint
pub record Send : Type 0 where
  pub key : Text
  pub peer : Peer
  pub scopes : List HintScope

abbrev pub sends_to : Text → Peer → List (List HintScope) → List Send
sends_to key p [] = []
sends_to key p (c ∷ chunks) = record { key = key; peer = p; scopes = c } ∷ sends_to key p chunks

unfoldable pub sends_of : ℕ → Dict Target → List Send
sends_of size [] = []
sends_of size ((key, t) ∷ targets) =
    sends_to key t.peer (chunks t.scopes size) ++ sends_of size targets

abbrev pub is_empty : Dict HintScope → Bool
is_empty [] = true
is_empty (e ∷ es) = false

-- the calls of _sendHint that come past its first line: `has_hint` tells which peers have a method
-- `hint`
unfoldable pub sent_hints : (Peer → Bool) → List Send → List Send
sent_hints has_hint [] = []
sent_hints has_hint (send ∷ sends) =
    if not (has_hint send.peer) then sent_hints has_hint sends else send ∷ sent_hints has_hint sends

-- flushHints(): the hints that are sent, and the scheduler
unfoldable pub flush_hints : (Peer → Bool) → Replication → List Send × Replication
unfolding sent_hints
flush_hints has_hint r =
    if not r.enabled || (not r.hints_enabled || is_empty r.pending_hint_scopes) then ([], r) else (
      sent_hints has_hint
          (sends_of r.max_scopes_per_hint (hint_targets r.site (values r.pending_hint_scopes) [])),
      record r { pending_hint_scopes = [] },
    )

-- _rememberError(err, prefix)
unfoldable pub remember_error : Text → Text → Stats → Stats
remember_error message [] s = record s { last_error = some message }
remember_error message (u ∷ us) s = record s {
  last_error = some ((u ∷ us) ++ (text ": " ++ message));
}

abbrev clears : Text → Text → Bool
clears [] error = true
clears (u ∷ us) error = starts_with ((u ∷ us) ++ text ":") error

-- _rememberSuccess(prefix)
unfoldable pub remember_success : Text → Stats → Stats
unfolding starts_with
remember_success prefix s = elim s.last_error [
  | none ↦ s
  | some error ↦
      if text_eq error []
      then s
      else if clears prefix error
      then record s { last_error = none }
      else s
]

-- the end of _sendHint: none where the peer answered, or the message of the error
unfoldable pub hint_ended : Send → Option Text → Replication → Replication
unfolding remember_error remember_success
hint_ended send failure r = elim failure [
  | none ↦ record r {
    stats = remember_success (text "hint " ++ send.key) (record r.stats {
      hints_sent = r.stats.hints_sent + 1;
      hint_scopes_sent = r.stats.hint_scopes_sent + length send.scopes;
    });
  }
  | some message ↦ record r { stats = remember_error message (text "hint " ++ send.key) r.stats }
]

abbrev pub in_flight : Text → List Text → Bool
in_flight key keys = any (λ k. text_eq k key) keys

-- the loop of _drainPullQueue: what stays queued, what is in flight, and what is started
unfoldable pub drain_from : Dict Pull → List Text → Dict Pull × (List Text × List (Text × Pull))
drain_from [] inflight = ([], (inflight, []))
drain_from ((key, p) ∷ queue) inflight =
    let (kept, (flying, begun)) = drain_from queue inflight in
    let (kept', (flying', begun')) = drain_from queue (inflight ++ (key ∷ [])) in
    if in_flight key inflight
    then ((key, p) ∷ kept, (flying, begun))
    else (kept', (flying', (key, p) ∷ begun'))

-- _drainPullQueue()
unfoldable pub drain_pull_queue : Replication → List (Text × Pull) × Replication
unfolding drain_from
drain_pull_queue r =
    let (queue, (inflight, begun)) = drain_from r.pull_queue r.inflight_pulls in
    (begun, record r { pull_queue = queue; inflight_pulls = inflight })

-- enqueuePull(peer, scope)
unfoldable pub enqueue_pull : Pull → Replication → List (Text × Pull) × Replication
unfolding drain_pull_queue pull_key
enqueue_pull p r = drain_pull_queue (record r { pull_queue = put (pull_key p) p r.pull_queue })

-- the end of _runPull: none where the sync returned, or the message of the error
unfoldable pub pull_ended : Text → Option Text → Replication → Replication
unfolding remember_error remember_success
pull_ended key failure r = record r {
  inflight_pulls = filter_by (λ k. not (text_eq k key)) r.inflight_pulls;
  stats = elim failure [
    | none ↦
        remember_success (text "pull " ++ key)
          (record r.stats { pull_syncs = r.stats.pull_syncs + 1 })
    | some message ↦ remember_error message (text "pull " ++ key) r.stats
  ];
}

-- whether a peer is the one that a hint came from
unfoldable pub sent_by : Site → Hint → Peer → Bool
unfolding is_self normalize_url same_url
sent_by site hint p =
    not (is_self site p)
    && ((not (text_eq hint.url []) && same_url (normalize_url p.url) (normalize_url hint.url))
        || (is_id p.node_id hint.node || is_id p.key hint.node))

unfoldable pub find_peer : (Peer → Bool) → List Peer → Option Peer
find_peer test [] = none
find_peer test (p ∷ peers) = if test p then some p else find_peer test peers

-- _peerForHint(shard, hint)
unfoldable pub peer_for_hint : Text → Hint → Site → Option Peer
unfolding find_peer sent_by peers_for_shard
peer_for_hint shard hint site = find_peer (sent_by site hint) (peers_for_shard shard site)

-- what receiveHint returns
pub record Received : Type 0 where
  pub accepted : ℕ
  pub matched_peer : Bool

-- the loop of receiveHint
unfoldable pub receive_scopes :
    Hint → List HintScope → Received → Replication → Received × (List (Text × Pull) × Replication)
unfolding peer_for_hint owns_shard enqueue_pull sync_scope_for_shard
receive_scopes hint [] got r = (got, ([], r))
receive_scopes hint (s ∷ scopes) got r = elim (peer_for_hint s.shard hint r.site) [
  | none ↦ receive_scopes hint scopes got r
  | some p ↦
      if owns_shard s.shard r.site
      then (let (begun, r') =
            enqueue_pull (record { peer = p; scope = sync_scope_for_shard s.shard }) r in
          let (got', (later, r'')) =
            receive_scopes hint scopes (record { accepted = got.accepted + 1; matched_peer = true })
              r' in
          (got', (begun ++ later, r'')))
      else receive_scopes hint scopes (record got { matched_peer = true }) r
]

abbrev count_hint :
    Received × (List (Text × Pull) × Replication) → Received × (List (Text × Pull) × Replication)
count_hint (got, (begun, r)) = (
  got,
  (
    begun,
    record r {
      stats = record r.stats {
        hints_received = r.stats.hints_received + 1;
        hint_scopes_received = r.stats.hint_scopes_received + got.accepted;
      };
    },
  ),
)

-- receiveHint(hint): what it returns, the pulls that it starts, and the scheduler
unfoldable pub receive_hint :
    Hint → Replication → Result Refusal (Received × (List (Text × Pull) × Replication))
unfolding receive_scopes normalize_hint_scopes
receive_hint hint r =
    if r.enabled && r.hints_enabled
    then (normalize_hint_scopes hint.scopes >>= λ scopes.
        ok (
          count_hint
            (receive_scopes hint scopes (record { accepted = 0; matched_peer = false }) r)))
    else ok (record { accepted = 0; matched_peer = false }, ([], r))
