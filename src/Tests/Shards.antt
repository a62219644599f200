-- ===== src/Tests/Shards.antt =====
-- Maps of two shards: src/shard-map.js.
use objy.Common.{
  ◌≡◌, ◌≢◌, ◌⊎◌, refl, sym, Bool, true, false, none, some, [], ◌∷◌, length, inl, inr, Member,
}
use objy.Common.Text.{Text, text, text_eq, text_eq_iff, text_gt}
use objy.Common.Decimal.{decimal}
use objy.Common.Dict.{keys, get, put}
use objy.ShardMap.{Peer, Shards, peer_key, add_peer, ensure_shard, sort_texts, shard_for_object}
use objy.ShardMap.Sort.{Distinct}
use objy.ShardMap.Routing.{shard_for_object-mem, shard_for_object-agree}
use objy.ShardMap.Topology.{
  NormalMap, active, resharding, partitioner_v1, raw_of, normalize_shard_map, finalize_shard_map,
  validate_topology, normalize_topology, unique_texts,
}
use objy.ShardMap.Replace.{replace, build_shards, replace_routes}
use objy.ShardMap.Publish.{partition_signature, transition, publish_over}
use objy.ShardMap.Lifecycle.{finalize-active, publish-cases}

abbrev peer : Peer
peer = record { url = text "http://a"; node_id = text "n1"; key = [] }

abbrev same_peer : Peer
same_peer = record { url = text "http://a"; node_id = []; key = [] }

abbrev here : Shards
here = (text "s1", []) ∷ (text "s2", []) ∷ []

abbrev there : Shards
there = (text "s2", []) ∷ (text "s1", []) ∷ []

not_true : false ≡ true → ⊥
not_true e = cc

names_differ : text "s1" ≢ text "s2"
unfolding text_eq
names_differ e = not_true ((text_eq_iff (text "s1") (text "s2")).1 e)

here-Distinct : Distinct (keys here)
here-Distinct = (λ m. elim m [ inl e ↦ names_differ e | inr z ↦ z ], ((λ z. z), tt))

there-Distinct : Distinct (keys there)
there-Distinct = (λ m. elim m [ inl e ↦ names_differ (sym e) | inr z ↦ z ], ((λ z. z), tt))

shard_for_object_mem_example : Member (shard_for_object (text "u1") here) (keys here)
shard_for_object_mem_example = shard_for_object-mem (text "u1") here (λ e. cc)

shard_for_object_agree_example :
    shard_for_object (text "u1") here ≡ shard_for_object (text "u1") there
shard_for_object_agree_example =
    shard_for_object-agree (text "u1") here there here-Distinct there-Distinct to from
  where
    to : (s : Text) → Member s (keys here) → Member s (keys there)
    to s (inl e) = inr (inl e)
    to s (inr (inl e)) = inl e
    to s (inr (inr z)) = absurd z

    from : (s : Text) → Member s (keys there) → Member s (keys here)
    from s (inl e) = inr (inl e)
    from s (inr (inl e)) = inl e
    from s (inr (inr z)) = absurd z

abbrev moving : NormalMap
moving = record {
  version = 2;
  topology = record {
    id = text "t2";
    state = resharding;
    partitioner = partitioner_v1;
    source = some (record { id = text "t1"; shards = text "s1" ∷ [] });
  };
  shards = (text "s2", []) ∷ (text "s3", []) ∷ [];
}

abbrev moved : NormalMap
moved = record moving { topology = record moving.topology { state = active; source = none } }

finalize_example :
    (moved.topology.state ≡ active)
    × (moved.topology.source ≡ none)
    × (moved.topology.id ≡ moving.topology.id)
    × (moved.shards ≡ moving.shards)
    × ((text "t2" ≡ []) ⊎ (moving.topology.id ≡ text "t2"))
unfolding normalize_shard_map finalize_shard_map validate_topology normalize_topology unique_texts
    sort_texts text_eq text_gt
finalize_example = finalize-active (raw_of moving) moving (text "t2") moved refl refl

abbrev one_shard : NormalMap
one_shard = record moved { shards = (text "s2", []) ∷ [] }

abbrev no_order : Text → Text → Bool
no_order a b = false

abbrev grown : NormalMap
grown = transition no_order (text "r4nd0m") moved one_shard

publish_example :
    ((partition_signature moved ≡ partition_signature one_shard)
      × (grown.topology ≡ moved.topology)
      × (length grown.shards ≡ length moved.shards))
    ⊎ ((moved.topology.state ≢ resharding)
        × (partition_signature moved ≢ partition_signature one_shard)
        × (grown.topology.state ≡ resharding)
        × (grown.topology.source
            ≡ some (record { id = moved.topology.id; shards = sort_texts (keys moved.shards) }))
        × (length grown.shards ≡ length one_shard.shards))
publish_example =
    publish-cases no_order (text "r4nd0m") moved one_shard grown
      (unfold publish_over partition_signature decimal text_eq in refl)

-- two maps of the same shards, the second with a peer and in another order
abbrev listed : NormalMap
listed = record moved { shards = (text "s2", []) ∷ (text "s3", []) ∷ [] }

abbrev listed_back : NormalMap
listed_back = record moved { shards = (text "s3", peer ∷ []) ∷ (text "s2", []) ∷ [] }

abbrev built : Shards
built = (text "s2", []) ∷ (text "s3", []) ∷ []

abbrev built_back : Shards
built_back = (text "s3", (text "http://a", peer) ∷ []) ∷ (text "s2", []) ∷ []

replace_routes_example :
    shard_for_object (text "u1") built ≡ shard_for_object (text "u1") built_back
unfolding replace build_shards normalize_shard_map validate_topology normalize_topology unique_texts
    sort_texts text_eq text_gt ensure_shard add_peer peer_key get put
replace_routes_example =
    replace_routes (text "u1") (raw_of listed) (raw_of listed_back) listed listed_back built
      built_back refl refl to from
  where
    to : (s : Text) → Member s (keys listed.shards) → Member s (keys listed_back.shards)
    to s (inl e) = inr (inl e)
    to s (inr (inl e)) = inl e
    to s (inr (inr z)) = absurd z

    from : (s : Text) → Member s (keys listed_back.shards) → Member s (keys listed.shards)
    from s (inl e) = inr (inl e)
    from s (inr (inl e)) = inl e
    from s (inr (inr z)) = absurd z
