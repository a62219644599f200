-- ===== src/ShardMap.antt =====
-- src/shard-map.js: the shards and their peers, and the shard of an object.
pub mod Hash
pub mod Sort
pub mod Routing
pub mod Topology
pub mod Publish
pub mod Lifecycle
pub mod Replace
use objy.Common.{
  ◌==◌, ℕ, ◌+◌, ◌*◌, ◌%◌, ◌/◌, ◌^◌, bit_xor, Bool, true, false, not, ◌||◌, Option, none, some, List,
  [], ◌∷◌, ◌++◌, if◌then◌else◌, get_or, get_elem?, length, is_some,
}
use objy.Common.Text.{Text, text, text_eq, text_gt}
use objy.Common.Dict.{Dict, get, put, del, keys, values}

pub record Peer : Type 0 where
  pub url : Text
  pub node_id : Text
  pub key : Text

-- `peer.url || peer.nodeId || peer.key`, an absent field being the empty text
unfoldable pub peer_key : Peer → Text
peer_key p =
    if not (text_eq p.url [])
    then p.url
    else if not (text_eq p.node_id [])
    then p.node_id
    else p.key

-- this.shards: a map from shard names to maps from peer keys to peers
abbrev pub Shards : Type 0
Shards = Dict (Dict Peer)

abbrev pub default_shard : Text
default_shard = text "default"

-- _ensureShard(shard)
unfoldable pub ensure_shard : Text → Shards → Shards
ensure_shard shard shards = if is_some (get shard shards) then shards else put shard [] shards

-- addPeer(shard, peer): the peer that stays, and the shards
unfoldable pub add_peer : Text → Peer → Shards → Peer × Shards
add_peer shard peer shards =
    let shards' = ensure_shard shard shards in
    let peers = get_or (get shard shards') [] in
    elim (get (peer_key peer) peers) [
      | some existing ↦ (existing, shards')
      | none ↦ (peer, put shard (put (peer_key peer) peer peers) shards')
    ]

-- removePeer(shard, peer)
unfoldable pub remove_peer : Text → Peer → Shards → Bool × Shards
unfolding peer_key
remove_peer shard peer shards = elim (get shard shards) [
  | none ↦ (false, shards)
  | some peers ↦ (is_some (get (peer_key peer) peers), put shard (del (peer_key peer) peers) shards)
]

-- uniquePeers(peers): the last of the peers with one key, at the place of the first
unfoldable pub unique_onto : List Peer → Dict Peer → Dict Peer
unfolding peer_key
unique_onto [] out = out
unique_onto (p ∷ ps) out = unique_onto ps (put (peer_key p) p out)

unfoldable pub unique_peers : List Peer → List Peer
unfolding unique_onto
unique_peers ps = values (unique_onto ps [])

-- peersFor(shard)
unfoldable pub peers_for : Text → Shards → List Peer
unfolding unique_peers
peers_for shard shards =
    unique_peers
      (values (get_or (get default_shard shards) []) ++ values (get_or (get shard shards) []))

-- The state of hashString after the units of a text: a 32-bit FNV-1a hash. `Math.imul` and `^`
-- work on the same 32 bits, which `>>> 0` reads as an unsigned number at the end.
unfoldable pub hash_from : ℕ → Text → ℕ
hash_from h [] = h
hash_from h (u ∷ us) = hash_from ((bit_xor h u * 0x01000193) % 2 ^ 32) us

-- hashString(value)
unfoldable pub hash_string : Text → ℕ
unfolding hash_from
hash_string value = hash_from 0x811c9dc5 value

-- `names.sort()`: ascending by code units
unfoldable pub insert_text : Text → List Text → List Text
insert_text x [] = x ∷ []
insert_text x (y ∷ ys) = let rest = insert_text x ys in if text_gt x y then y ∷ rest else x ∷ y ∷ ys

unfoldable pub sort_texts : List Text → List Text
unfolding insert_text
sort_texts [] = []
sort_texts (x ∷ xs) = insert_text x (sort_texts xs)

-- shardsForCollection(database, collection), which looks at neither
unfoldable pub shards_for_collection : Shards → List Text
unfolding sort_texts
shards_for_collection shards = sort_texts (keys shards)

-- shardForObject(database, collection, objectId)
unfoldable pub shard_for_object : Text → Shards → Text
unfolding shards_for_collection hash_string
shard_for_object object_id shards =
    let names = shards_for_collection shards in
    if length names == 0
    then default_shard
    else get_or (get_elem? names (hash_string object_id % length names)) default_shard
