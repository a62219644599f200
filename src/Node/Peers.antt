-- ===== src/Node/Peers.antt =====
-- src/crdt.js: what a node knows of the peers of its shards. A site is the id, the url and the
-- shard map of a node.
use objy.Common.{
  ◌==◌, Bool, true, false, not, ◌&&◌, ◌||◌, Option, none, some, List, [], ◌∷◌, if◌then◌else◌, any,
  filter_by,
}
use objy.Common.Text.{Text, text_eq}
use objy.Node.Scopes.{Scope, global}
use objy.ShardMap.{Peer, Shards, peers_for, default_shard}

pub record Site : Type 0 where
  pub id : Text
  pub url : Option Text
  pub shards : Shards

-- `String(url).replace(/\/+$/, "")`
unfoldable pub without_slashes : Text → Text
without_slashes [] = []
without_slashes (u ∷ us) =
    let rest = without_slashes us in
    if text_eq rest [] then (if u == 47 then [] else u ∷ []) else u ∷ rest

-- normalizeUrl(url); an absent url is the empty text, and null is none
unfoldable pub normalize_url : Text → Option Text
unfolding without_slashes
normalize_url [] = none
normalize_url (u ∷ us) = some (without_slashes (u ∷ us))

unfoldable pub same_url : Option Text → Option Text → Bool
same_url none none = true
same_url (some a) (some b) = text_eq a b
same_url _ _ = false

-- an absent field is the empty text, which is no id
abbrev pub is_id : Text → Text → Bool
is_id field id = not (text_eq field []) && text_eq field id

-- _isSelfPeer(peer)
unfoldable pub is_self_peer : Site → Peer → Bool
unfolding normalize_url same_url
is_self_peer site peer =
    same_url (normalize_url peer.url) site.url
    || (is_id peer.node_id site.id || is_id peer.key site.id)

-- peersForShard(shard)
unfoldable pub peers_for_shard : Text → Site → List Peer
unfolding peers_for
peers_for_shard shard site = peers_for shard site.shards

-- ownsShard(shard)
abbrev owns_one_of : Site → List Peer → Bool
owns_one_of site [] = true
owns_one_of site (p ∷ peers) = any (is_self_peer site) (p ∷ peers)

unfoldable pub owns_shard : Text → Site → Bool
unfolding peers_for_shard is_self_peer
owns_shard shard site = elim site.url [
  | none ↦ true
  | some url ↦ owns_one_of site (peers_for_shard shard site)
]

-- isPrimaryForShard(shard)
abbrev is_first : Site → List Peer → Bool
is_first site [] = true
is_first site (p ∷ peers) = is_self_peer site p

unfoldable pub is_primary_for_shard : Text → Site → Bool
unfolding peers_for_shard is_self_peer
is_primary_for_shard shard site = elim site.url [
  | none ↦ true
  | some url ↦ is_first site (peers_for_shard shard site)
]

-- routingPeersForShard(shard)
unfoldable pub routing_peers_for_shard : Text → Site → List Peer
unfolding peers_for_shard is_self_peer
routing_peers_for_shard shard site =
    filter_by (λ p. not (text_eq p.url []) && not (is_self_peer site p))
      (peers_for_shard shard site)

-- _scope(database, collection, shard)
unfoldable pub scope_of : Text → Text → Text → Option Scope
scope_of database collection shard =
    if text_eq database global && (text_eq collection global && text_eq shard default_shard)
    then none
    else some (record { database = database; collection = collection; shard = shard })

-- syncScopeForShard(shard)
unfoldable pub sync_scope_for_shard : Text → Option Scope
unfolding scope_of
sync_scope_for_shard shard = scope_of global global shard
