-- ===== src/ShardMap/Publish.antt =====
-- src/shard-map.js: `publishShardMap`, over the order of `localeCompare` and the random part of a
-- new topology id.
use objy.Common.{
  ◌==◌, ℕ, zero, suc, ◌+◌, ◌-◌, Bool, true, not, ◌&&◌, Option, none, some, List, [], ◌∷◌, ◌++◌,
  if◌then◌else◌, get_or, length, is_some, take,
}
use objy.Common.Fallible.{Result, ok, err, ◌>>=◌}
use objy.Common.Decimal.{decimal}
use objy.Common.Text.{Text, text, text_eq}
use objy.Common.Dict.{Dict, get, keys}
use objy.ShardMap.{Peer, sort_texts}
use objy.ShardMap.Topology.{
  Failure, resharding_unfinished, RawMap, NormalMap, resharding, short_hash, normalize_shard_map,
  normalize_desired,
}

-- `s.padStart(4, "0")`
abbrev pub zeros : ℕ → Text
zeros zero = []
zeros (suc n) = 48 ∷ zeros n

unfoldable pub pad4 : Text → Text
pad4 s = zeros (4 - length s) ++ s

-- partitionSignature(map)
unfoldable pub partition_signature : NormalMap → Text
unfolding decimal
partition_signature m = m.topology.partitioner ++ (text ":" ++ decimal (length m.shards))

-- transitionTopologyId(sourceId, signature)
unfoldable pub transition_topology_id : Text → Text → Text → Text
unfolding short_hash
transition_topology_id entropy source_id signature =
    text "t-"
    ++ (take 8 (short_hash (source_id ++ (text "|" ++ signature))) ++ (text "-" ++ entropy))

-- topologyShardName(topologyId, index)
unfoldable pub topology_shard_name : Text → ℕ → Text
unfolding pad4 decimal
topology_shard_name id index = id ++ (text "-s" ++ pad4 (decimal index))

-- `names.map((_, index) => topologyShardName(topologyId, index))`
unfoldable pub numbered : Text → ℕ → List Text → List Text
unfolding topology_shard_name
numbered id i [] = []
numbered id i (x ∷ xs) = topology_shard_name id i ∷ numbered id (i + 1) xs

module _ (locale_gt : Text → Text → Bool) where
  -- `entries.sort(([a], [b]) => a.localeCompare(b))`
  insert_entry : Text × List Peer → List (Text × List Peer) → List (Text × List Peer)
  insert_entry e [] = e ∷ []
  insert_entry e (f ∷ fs) =
      let rest = insert_entry e fs in if locale_gt e.0 f.0 then f ∷ rest else e ∷ f ∷ fs

  unfoldable pub sort_entries : List (Text × List Peer) → List (Text × List Peer)
  unfolding insert_entry
  sort_entries [] = []
  sort_entries (e ∷ es) = insert_entry e (sort_entries es)

  -- `targetNames.every((name) => Object.hasOwn(desiredShards, name))`
  abbrev all_present : List Text → Dict (List Peer) → Bool
  all_present [] d = true
  all_present (x ∷ xs) d = is_some (get x d) && all_present xs d

  -- the peers of the shard at a position, none where there is no entry
  abbrev peers_at : ℕ → List (Text × List Peer) → List Peer
  peers_at i [] = []
  peers_at zero (e ∷ es) = e.1
  peers_at (suc i) (e ∷ es) = peers_at i es

  unfoldable pub assign_from :
      Bool → Dict (List Peer) → List (Text × List Peer) → ℕ → List Text → Dict (List Peer)
  assign_from exact desired entries i [] = []
  assign_from exact desired entries i (name ∷ names) =
      (name, if exact then get_or (get name desired) [] else peers_at i entries)
      ∷ assign_from exact desired entries (i + 1) names

  -- assignPeerLayout(targetNames, desiredShards)
  unfoldable pub assign_peer_layout : List Text → Dict (List Peer) → Dict (List Peer)
  unfolding assign_from sort_entries
  assign_peer_layout targets desired =
      let entries = sort_entries desired in
      let exact = (length targets == length entries) && all_present targets desired in
      assign_from exact desired entries 0 (sort_texts targets)

  -- the new map where the number of shards changes
  unfoldable pub transition : Text → NormalMap → NormalMap → NormalMap
  unfolding assign_peer_layout transition_topology_id numbered partition_signature
  transition entropy current desired =
      let id = transition_topology_id entropy current.topology.id (partition_signature desired) in
      record {
        version = 2;
        topology = record {
          id = id;
          state = resharding;
          partitioner = desired.topology.partitioner;
          source =
              some (record { id = current.topology.id; shards = sort_texts (keys current.shards) });
        };
        shards =
            assign_peer_layout (numbered id 0 (sort_texts (keys desired.shards))) desired.shards;
      }

  -- `{ ...current, shards: assignPeerLayout(Object.keys(current.shards), desired.shards) }`
  unfoldable pub relayout : NormalMap → NormalMap → NormalMap
  unfolding assign_peer_layout
  relayout current desired = record current {
    shards = assign_peer_layout (keys current.shards) desired.shards;
  }

  unfoldable pub publish_over : Text → NormalMap → NormalMap → Result Failure NormalMap
  publish_over entropy current desired =
      let same = text_eq (partition_signature current) (partition_signature desired) in
      if text_eq current.topology.state resharding
      then if not same then err resharding_unfinished else ok (relayout current desired)
      else if same
      then ok (relayout current desired)
      else ok (transition entropy current desired)

  -- publishShardMap(currentMap, desiredMap)
  unfoldable pub publish_shard_map : Text → Option RawMap → RawMap → Result Failure NormalMap
  publish_shard_map entropy none desired = normalize_shard_map desired
  publish_shard_map entropy (some current) desired =
      if length (get_or current.shards []) == 0 then normalize_shard_map desired else do
        now ← normalize_shard_map current
        next ← normalize_desired desired now.topology.partitioner
        publish_over entropy now next
