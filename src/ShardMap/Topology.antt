-- ===== src/ShardMap/Topology.antt =====
-- src/shard-map.js: the topology of a shard map as it is normalized, published and finalized.
-- `localeCompare` and the random identifier are arguments. An absent text is the empty one, which
-- is as falsy.
use objy.Common.{
  ◌==◌, ltb, ℕ, zero, suc, ◌+◌, ◌%◌, ◌/◌, Bool, false, not, ◌&&◌, ◌||◌, Option, none, some, List,
  [], ◌∷◌, ◌++◌, if◌then◌else◌, get_or, length, is_some, any,
}
use objy.Common.Fallible.{Result, ok, err, ◌>>=◌, ◌>>◌, reject_if}
use objy.Common.Text.{Text, text, text_eq}
use objy.Common.Dict.{Dict, keys}
use objy.ShardMap.{Peer, sort_texts, hash_string}

pub data Failure : Type 0 where
  no_shards unsupported_version no_topology_id unsupported_partitioner unsupported_state : Failure
  active_with_source resharding_without_source overlapping_shards : Failure
  resharding_unfinished topology_changed : Failure

pub record Source : Type 0 where
  pub id : Text
  pub shards : List Text

pub record Topology : Type 0 where
  pub id : Text
  pub state : Text
  pub partitioner : Text
  pub source : Option Source

-- a map as it is given: any of its parts may be missing
pub record RawMap : Type 0 where
  pub version : Option ℕ
  pub topology : Option Topology
  pub shards : Option (Dict (List Peer))

pub record NormalMap : Type 0 where
  pub version : ℕ
  pub topology : Topology
  pub shards : Dict (List Peer)

abbrev pub partitioner_v1 : Text
partitioner_v1 = text "fnv1a32-mod-v1"

abbrev pub active : Text
active = text "active"

abbrev pub resharding : Text
resharding = text "resharding"

-- `a || b` on texts
abbrev pub text_or : Text → Text → Text
text_or [] b = b
text_or (u ∷ us) b = u ∷ us

abbrev pub includes : Text → List Text → Bool
includes x xs = any (λ y. text_eq y x) xs

-- `[...new Set(xs)]`
unfoldable pub unique_texts : List Text → List Text → List Text
unique_texts seen [] = []
unique_texts seen (x ∷ xs) =
    let dropped = unique_texts seen xs in
    let kept = unique_texts (x ∷ seen) xs in if includes x seen then dropped else x ∷ kept

-- a hexadecimal digit, and `n.toString(16).padStart(8, "0")` for a 32-bit number
hex_digit : ℕ → ℕ
hex_digit d = if ltb d 10 then 48 + d else 87 + d

hex_onto : ℕ → ℕ → Text → Text
unfolding hex_digit
hex_onto zero n out = out
hex_onto (suc k) n out = hex_onto k (n / 16) (hex_digit (n % 16) ∷ out)

unfoldable pub hex8 : ℕ → Text
unfolding hex_onto
hex8 n = hex_onto 8 n []

-- `[...value].reverse().join("")`, where a surrogate pair is one element
is_pair : ℕ → ℕ → Bool
is_pair a b = not (ltb a 0xd800) && (ltb a 0xdc00 && (not (ltb b 0xdc00) && ltb b 0xe000))

reverse_onto : Text → Text → Text
unfolding is_pair
reverse_onto [] out = out
reverse_onto (a ∷ []) out = a ∷ out
reverse_onto (a ∷ b ∷ us) out =
    let pair = reverse_onto us (a ∷ b ∷ out) in
    let single = reverse_onto (b ∷ us) (a ∷ out) in if is_pair a b then pair else single

-- shortHash(value)
unfoldable pub short_hash : Text → Text
unfolding hex8 reverse_onto hash_string
short_hash value = hex8 (hash_string value) ++ hex8 (hash_string (reverse_onto value []))

-- `names.join("|")`
unfoldable pub join_bar : List Text → Text
join_bar [] = []
join_bar (x ∷ []) = x
join_bar (x ∷ y ∷ xs) = x ++ (text "|" ++ join_bar (y ∷ xs))

-- initialTopologyId(shardNames, partitioner)
unfoldable pub initial_topology_id : List Text → Text → Text
unfolding short_hash join_bar
initial_topology_id names partitioner =
    text "t-" ++ short_hash (text "initial|" ++ (partitioner ++ (text "|" ++ join_bar names)))

-- normalizeTopology(topology, shardNames)
unfoldable pub normalize_source : Source → Source
unfolding unique_texts sort_texts
normalize_source s = record { id = s.id; shards = sort_texts (unique_texts [] s.shards) }

abbrev pub no_topology : Topology
no_topology = record { id = []; state = []; partitioner = []; source = none }

unfoldable pub normalize_topology : Option Topology → List Text → Topology
unfolding initial_topology_id normalize_source
normalize_topology given names =
    let t = get_or given no_topology in
    let partitioner = text_or t.partitioner partitioner_v1 in
    record {
      id = text_or t.id (initial_topology_id names partitioner);
      state = text_or t.state active;
      partitioner = partitioner;
      source = elim t.source [ none ↦ none | some s ↦ some (normalize_source s) ];
    }

-- the source part of validateTopology
abbrev pub check_source : Option Source → List Text → Result Failure (Unit {0})
check_source none names = err resharding_without_source
check_source (some s) names = do
  reject_if (text_eq s.id [] || (length s.shards == 0)) resharding_without_source
  reject_if (any (λ shard. includes shard names) s.shards) overlapping_shards

-- validateTopology(topology, shardNames)
unfoldable pub validate_topology : Topology → List Text → Result Failure (Unit {0})
validate_topology t names = do
  reject_if (text_eq t.id []) no_topology_id
  reject_if (not (text_eq t.partitioner partitioner_v1)) unsupported_partitioner
  reject_if (not (text_eq t.state active || text_eq t.state resharding)) unsupported_state
  reject_if (text_eq t.state active && is_some t.source) active_with_source
  if text_eq t.state resharding then check_source t.source names else ok tt

-- `map.version !== undefined && ![1, 2].includes(Number(map.version))`
abbrev pub bad_version : Option ℕ → Bool
bad_version none = false
bad_version (some v) = not ((v == 1) || (v == 2))

abbrev pub require_shards : Option (Dict (List Peer)) → Result Failure (Dict (List Peer))
require_shards none = err no_shards
require_shards (some shards) = ok shards

-- normalizeShardMap(map)
unfoldable pub normalize_shard_map : RawMap → Result Failure NormalMap
normalize_shard_map m = do
  shards ← require_shards m.shards
  reject_if (bad_version m.version) unsupported_version
  let names = sort_texts (keys shards)
  let topology = normalize_topology m.topology names
  validate_topology topology names
  ok (record { version = 2; topology = topology; shards = shards })

abbrev pub raw_of : NormalMap → RawMap
raw_of m = record { version = some m.version; topology = some m.topology; shards = some m.shards }

-- normalizeDesiredShardMap(map, fallbackPartitioner)
unfoldable pub normalize_desired : RawMap → Text → Result Failure NormalMap
normalize_desired m fallback = do
  shards ← require_shards m.shards
  let t = get_or m.topology no_topology
  let partitioner = text_or t.partitioner (text_or fallback partitioner_v1)
  reject_if (not (text_eq partitioner partitioner_v1)) unsupported_partitioner
  ok (record {
    version = 2;
    topology = record {
      id = text_or t.id (text "desired");
      state = active;
      partitioner = partitioner;
      source = none;
    };
    shards = shards;
  })

-- finalizeShardMap(map, expectedTopologyId)
unfoldable pub finalize_shard_map : RawMap → Text → Result Failure NormalMap
finalize_shard_map m expected = do
  n ← normalize_shard_map m
  reject_if (not (text_eq expected []) && not (text_eq n.topology.id expected)) topology_changed
  if not (text_eq n.topology.state resharding)
      then ok n
      else ok (record n { topology = record n.topology { state = active; source = none } })
