-- ===== src/ShardMap/Lifecycle.antt =====
-- The life of a topology: active, resharding from a source, and active again.
use objy.Common.{
  ℕ, suc, ◌+◌, ◌≡◌, ◌≢◌, ◌⊎◌, refl, ap, ◌∙◌, Bool, true, none, some, List, [], ◌∷◌, length, is_some,
  arith,
}
use objy.Common.Fallible.{ok, err}
use objy.Common.Text.{Text, text_eq_iff}
use objy.Common.Dict.{Dict, keys}
use objy.ShardMap.{Peer, sort_texts, insert_text}
use objy.ShardMap.Topology.{
  resharding_unfinished, Topology, RawMap, NormalMap, active, resharding, validate_topology,
  normalize_shard_map, finalize_shard_map,
}
use objy.ShardMap.Publish.{
  partition_signature, transition_topology_id, numbered, sort_entries, assign_from,
  assign_peer_layout, transition, relayout, publish_over,
}

-- A topology that passes is active without a source or resharding from one.
pub validate_topology-ok :
    (t : Topology) (names : List Text)
    → validate_topology t names ≡ ok tt
    → ((t.state ≡ active) × (t.source ≡ none))
      ⊎ ((t.state ≡ resharding) × (is_some t.source ≡ true))
unfolding validate_topology
validate_topology-ok t names h =
    ground (arith, text_eq_iff t.state active, text_eq_iff t.state resharding)

normalize-ok :
    (m : RawMap) (n : NormalMap)
    → normalize_shard_map m ≡ ok n
    → (m.shards ≡ some n.shards)
      × (validate_topology n.topology (sort_texts (keys n.shards)) ≡ ok tt)
unfolding normalize_shard_map
normalize-ok m n h = ground arith

-- Finalizing ends the resharding: the result is active and has no source, with the id of the map
-- that was given and its shards; an expected id other than that one is refused.
pub finalize-active :
    (m : RawMap) (n : NormalMap) (expected : Text) (f : NormalMap)
    → normalize_shard_map m ≡ ok n
    → finalize_shard_map m expected ≡ ok f
    → (f.topology.state ≡ active)
      × (f.topology.source ≡ none)
      × (f.topology.id ≡ n.topology.id)
      × (f.shards ≡ n.shards)
      × ((expected ≡ []) ⊎ (n.topology.id ≡ expected))
unfolding finalize_shard_map
finalize-active m n expected f e h = ground (
  arith,
  (normalize-ok m n e).1,
  validate_topology-ok n.topology (sort_texts (keys n.shards)),
  text_eq_iff n.topology.state resharding,
  text_eq_iff expected [],
  text_eq_iff n.topology.id expected,
)

module _ (locale_gt : Text → Text → Bool) where
  length-assign_from :
      (exact : Bool) (desired : Dict (List Peer)) (entries : List (Text × List Peer)) (i : ℕ)
      (names : List Text)
      → length (assign_from locale_gt exact desired entries i names) ≡ length names
  unfolding assign_from
  length-assign_from exact desired entries i [] = refl
  length-assign_from exact desired entries i (x ∷ xs) =
      ap suc (length-assign_from exact desired entries (i + 1) xs)

length-insert_text : (x : Text) (xs : List Text) → length (insert_text x xs) ≡ suc (length xs)
unfolding insert_text
length-insert_text x [] = refl
length-insert_text x (y ∷ ys) = ground (arith, length-insert_text x ys)

length-sort_texts : (xs : List Text) → length (sort_texts xs) ≡ length xs
unfolding sort_texts
length-sort_texts [] = refl
length-sort_texts (x ∷ xs) = length-insert_text x (sort_texts xs) ∙ ap suc (length-sort_texts xs)

length-numbered : (id : Text) (i : ℕ) (xs : List Text) → length (numbered id i xs) ≡ length xs
unfolding numbered
length-numbered id i [] = refl
length-numbered id i (x ∷ xs) = ap suc (length-numbered id (i + 1) xs)

length-keys : {V : Type 0} (d : Dict V) → length (keys d) ≡ length d
length-keys [] = refl
length-keys (e ∷ d) = ap suc (length-keys d)

module _ (locale_gt : Text → Text → Bool) where
  length-assign_peer_layout :
      (targets : List Text) (desired : Dict (List Peer))
      → length (assign_peer_layout locale_gt targets desired) ≡ length targets
  unfolding assign_peer_layout
  length-assign_peer_layout targets desired =
      length-assign_from locale_gt _ desired (sort_entries locale_gt desired) 0 (sort_texts targets)
      ∙ length-sort_texts targets

  -- A change of the number of shards starts a resharding from exactly the shards of the current
  -- map, sorted, to as many new shards as are desired.
  transition-shape :
      (entropy : Text) (current desired : NormalMap)
      → ((transition locale_gt entropy current desired).topology.state ≡ resharding)
        × ((transition locale_gt entropy current desired).topology.source
            ≡ some (record { id = current.topology.id; shards = sort_texts (keys current.shards) }))
        × (length (transition locale_gt entropy current desired).shards ≡ length desired.shards)
  unfolding transition
  transition-shape entropy current desired = (
    refl,
    refl,
    length-assign_peer_layout (numbered id 0 (sort_texts (keys desired.shards))) desired.shards
        ∙ length-numbered id 0 (sort_texts (keys desired.shards))
        ∙ length-sort_texts (keys desired.shards)
        ∙ length-keys desired.shards,
  )
    where
      id : Text
      id = transition_topology_id entropy current.topology.id (partition_signature desired)

  -- Publishing over a current map: while it is resharding, only a map of the same partition
  -- signature is taken, and it changes neither the topology nor the number of shards; an active map
  -- keeps its topology and number of shards under the same signature, and starts resharding from
  -- its own sorted shards, to as many as desired, under another.
  pub publish-cases :
      (entropy : Text) (current desired next : NormalMap)
      → publish_over locale_gt entropy current desired ≡ ok next
      → ((partition_signature current ≡ partition_signature desired)
          × (next.topology ≡ current.topology)
          × (length next.shards ≡ length current.shards))
        ⊎ ((current.topology.state ≢ resharding)
            × (partition_signature current ≢ partition_signature desired)
            × (next.topology.state ≡ resharding)
            × (next.topology.source
                ≡ some (record {
                  id = current.topology.id;
                  shards = sort_texts (keys current.shards);
                }))
            × (length next.shards ≡ length desired.shards))
  unfolding publish_over relayout
  publish-cases entropy current desired next h = ground (
    arith,
    text_eq_iff (partition_signature current) (partition_signature desired),
    text_eq_iff current.topology.state resharding,
    transition-shape entropy current desired,
    length-assign_peer_layout (keys current.shards) desired.shards,
    length-keys current.shards,
  )

  -- A different partition is refused while a resharding is unfinished.
  pub publish-unfinished :
      (entropy : Text) (current desired : NormalMap)
      → current.topology.state ≡ resharding
      → partition_signature current ≢ partition_signature desired
      → publish_over locale_gt entropy current desired ≡ err resharding_unfinished
  unfolding publish_over
  publish-unfinished entropy current desired e n = ground (
    arith,
    text_eq_iff (partition_signature current) (partition_signature desired),
    text_eq_iff current.topology.state resharding,
  )
