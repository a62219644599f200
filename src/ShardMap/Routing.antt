-- ===== src/ShardMap/Routing.antt =====
-- Where an object is routed, and what peers of a shard do to the map.
use objy.Common.{
  ◌==◌, ℕ, zero, suc, ◌%◌, ◌<◌, ◌≡◌, ◌≢◌, ◌⊎◌, refl, sym, Bool, true, false, Option, none, some,
  List, [], ◌∷◌, if◌then◌else◌, get_or, get_elem?, length, is_some, Member, arith, Bool-cases,
  Option-cases, inl, inr,
}
use objy.Common.Text.{Text, text_eq, text_eq_iff}
use objy.Common.Dict.{Dict, get, put, keys, get-put_self}
use objy.ShardMap.{
  Peer, Shards, default_shard, peer_key, ensure_shard, add_peer, hash_string, sort_texts,
  shards_for_collection, shard_for_object,
}
use objy.ShardMap.Sort.{
  Distinct, sort_texts-mem, mem-sort_texts, sort_texts-Ascends, Ascends-unique,
}

Member-get_elem? :
    (names : List Text) (i : ℕ)
    → i < length names
    → Member (get_or (get_elem? names i) default_shard) names
Member-get_elem? [] i h = elim h [ ]
Member-get_elem? (x ∷ xs) zero h = inl refl
Member-get_elem? (x ∷ xs) (suc i) h = inr (Member-get_elem? xs i (omega arith))

length-ne-zero : (names : List Text) → names ≢ [] → (length names == 0) ≡ false
length-ne-zero [] n = absurd (n refl)
length-ne-zero (x ∷ xs) n = ground arith

sorted-ne-nil : (names : List Text) → names ≢ [] → sort_texts names ≢ []
sorted-ne-nil [] n e = n refl
sorted-ne-nil (x ∷ xs) n e = absurd (in_nil (mem-sort_texts x (x ∷ xs) (inl refl)) e)
  where
    in_nil : Member x (sort_texts (x ∷ xs)) → sort_texts (x ∷ xs) ≡ [] → ⊥
    in_nil m p = rw p at m

-- An object is routed to a shard of the map, if the map has one.
pub shard_for_object-mem :
    (object_id : Text) (shards : Shards)
    → keys shards ≢ []
    → Member (shard_for_object object_id shards) (keys shards)
unfolding shard_for_object shards_for_collection
shard_for_object-mem object_id shards n =
    rw (length-ne-zero (sort_texts (keys shards)) (sorted-ne-nil (keys shards) n)) (
      sort_texts-mem _ (keys shards) (
        Member-get_elem? (sort_texts (keys shards))
          (hash_string object_id % length (sort_texts (keys shards)))
          (mod_length (sort_texts (keys shards)) (sorted-ne-nil (keys shards) n))))
  where
    mod_length :
        (names : List Text) → names ≢ [] → hash_string object_id % length names < length names
    mod_length [] n = absurd (n refl)
    mod_length (x ∷ xs) n = omega arith

-- Two peers whose maps name the same shards route every object alike, in whatever order the shards
-- were added.
pub shard_for_object-agree :
    (object_id : Text) (here there : Shards)
    → Distinct (keys here)
    → Distinct (keys there)
    → ((s : Text) → Member s (keys here) → Member s (keys there))
    → ((s : Text) → Member s (keys there) → Member s (keys here))
    → shard_for_object object_id here ≡ shard_for_object object_id there
unfolding shard_for_object shards_for_collection
shard_for_object-agree object_id here there d e f g = rw (
    Ascends-unique (sort_texts (keys here)) (sort_texts (keys there))
      (sort_texts-Ascends (keys here) d) (sort_texts-Ascends (keys there) e)
      (λ s m. mem-sort_texts s (keys there) (f s (sort_texts-mem s (keys here) m)))
      (λ s m. mem-sort_texts s (keys here) (g s (sort_texts-mem s (keys there) m))))

-- the names after a put: those of before, and the new one
pub keys-put-mem :
    {V : Type 0} (s k : Text) (v : V) (d : Dict V)
    → Member s (keys (put k v d))
    → (s ≡ k) ⊎ Member s (keys d)
unfolding put
keys-put-mem s k v [] (inl e) = inl e
keys-put-mem s k v [] (inr m) = absurd m
keys-put-mem s k v ((j, w) ∷ d) m = go (text_eq j k) m (keys-put-mem s k v d)
  where
    go :
        (b : Bool)
        → Member s (keys (if b then (k, v) ∷ d else (j, w) ∷ put k v d))
        → (Member s (keys (put k v d)) → (s ≡ k) ⊎ Member s (keys d))
        → (s ≡ k) ⊎ ((s ≡ j) ⊎ Member s (keys d))
    go true (inl e) f = inl e
    go true (inr m) f = inr (inr m)
    go false (inl e) f = inr (inl e)
    go false (inr m) f = elim (f m) [ inl e ↦ inl e | inr k ↦ inr (inr k) ]

pub put-Distinct :
    {V : Type 0} (k : Text) (v : V) (d : Dict V) → Distinct (keys d) → Distinct (keys (put k v d))
unfolding put
put-Distinct k v [] h = ((λ m. m), tt)
put-Distinct k v ((j, w) ∷ d) h = elim (Bool-cases (text_eq j k)) [
  | inl e ↦ rw e (rw (sym ((text_eq_iff j k).0 e)) h)
  | inr e ↦ rw e (
    (λ m. elim (keys-put-mem j k v d m) [ inl p ↦ differ e p | inr q ↦ h.0 q ]),
    put-Distinct k v d h.1,
  )
]
  where
    differ : text_eq j k ≡ false → j ≡ k → ⊥
    differ e p = cc (e, (text_eq_iff j k).1 p)

-- Adding a peer keeps the shard names distinct.
pub add_peer-Distinct :
    (shard : Text) (peer : Peer) (shards : Shards)
    → Distinct (keys shards)
    → Distinct (keys (add_peer shard peer shards).1)
unfolding add_peer
add_peer-Distinct shard peer shards d =
    go (get (peer_key peer) (get_or (get shard (ensure_shard shard shards)) []))
  where
    ensured : (b : Bool) → Distinct (keys (if b then shards else put shard [] shards))
    ensured true = d
    ensured false = put-Distinct shard [] shards d

    shards' : Shards
    shards' = ensure_shard shard shards

    kept : Distinct (keys (ensure_shard shard shards))
    kept = unfold ensure_shard in ensured (is_some (get shard shards))

    go :
        (o : Option Peer)
        → Distinct (
            keys
              (elim o as (λ _. Peer × Shards) [
                | some existing ↦ (existing, shards')
                | none ↦ (
                  peer,
                  put shard (put (peer_key peer) peer (get_or (get shard shards') [])) shards',
                )
              ]).1)
    go (some p) = kept
    go none = put-Distinct shard _ shards' kept

ensure_shard-get :
    (shard : Text) (shards : Shards) → is_some (get shard (ensure_shard shard shards)) ≡ true
unfolding ensure_shard
ensure_shard-get shard shards = elim (Bool-cases (is_some (get shard shards))) [
  | inl e ↦ rw e e
  | inr e ↦ rw e (rw get-put_self)
]

-- the shard holds this peer under its key
abbrev Holds : Text → Text → Peer → Shards → Type 0
Holds shard key p shards = (ps : Dict Peer) × (get shard shards ≡ some ps) × (get key ps ≡ some p)

add_peer-present :
    (shard : Text) (peer p : Peer) (shards : Shards)
    → Holds shard (peer_key peer) p shards
    → add_peer shard peer shards ≡ (p, shards)
unfolding add_peer
add_peer-present shard peer p shards (ps, g, h) =
    let e : ensure_shard shard shards ≡ shards = unfold ensure_shard in rw g in
    rw (add_peer, e, g, h) (cc e)

Holds-add_peer :
    (shard : Text) (peer : Peer) (shards : Shards)
    → Holds shard (peer_key peer) (add_peer shard peer shards).0 (add_peer shard peer shards).1
Holds-add_peer shard peer shards = elim (Option-cases (get shard shards')) [
  | inl n ↦ absurd (cc (n, ensure_shard-get shard shards))
  | inr (ps, g) ↦ elim (Option-cases (get (peer_key peer) ps)) [
    | inl n ↦
        let e : add_peer shard peer shards
            ≡ (peer, put shard (put (peer_key peer) peer ps) shards') =
          unfold add_peer in rw (add_peer, g, n) (rw g) in
        rw e (
          put (peer_key peer) peer ps,
          get-put_self shard _ shards',
          get-put_self (peer_key peer) peer ps,
        )
    | inr (p, h) ↦
        let e : add_peer shard peer shards ≡ (p, shards') =
          unfold add_peer in rw (add_peer, g, h) in
        rw e (ps, g, h)
  ]
]
  where
    shards' : Shards
    shards' = ensure_shard shard shards

-- Adding a peer whose key the shard already has returns the peer that is there and changes nothing.
pub add_peer_again :
    (shard : Text) (peer other : Peer) (shards : Shards)
    → peer_key other ≡ peer_key peer
    → add_peer shard other (add_peer shard peer shards).1 ≡ add_peer shard peer shards
add_peer_again shard peer other shards e =
    add_peer-present shard other (add_peer shard peer shards).0 (add_peer shard peer shards).1
      (rw e (Holds-add_peer shard peer shards))
