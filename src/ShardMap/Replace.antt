-- ===== src/ShardMap/Replace.antt =====
-- src/shard-map.js: `replace` builds the shards of a map anew.
use objy.Common.{
  ◌≡◌, ◌⊎◌, refl, sym, ◌∙◌, Bool, true, false, Option, none, some, List, [], ◌∷◌, if◌then◌else◌,
  get_or, is_some, Member, Bool-cases, Option-cases, inl, inr,
}
use objy.Common.Fallible.{Result, ok, ◌>>=◌, bind-ok}
use objy.Common.Text.{Text, text_eq, text_eq_iff}
use objy.Common.Dict.{Dict, get, put, keys}
use objy.ShardMap.{Peer, Shards, peer_key, ensure_shard, add_peer, shard_for_object}
use objy.ShardMap.Sort.{Distinct}
use objy.ShardMap.Routing.{keys-put-mem, put-Distinct, add_peer-Distinct, shard_for_object-agree}
use objy.ShardMap.Topology.{Failure, RawMap, NormalMap, normalize_shard_map}

-- the inner loop of replace
unfoldable add_peers : Text → List Peer → Shards → Shards
add_peers shard [] shards = shards
add_peers shard (peer ∷ peers) shards = add_peers shard peers (add_peer shard peer shards).1

-- the loop of replace
unfoldable pub build_shards : Dict (List Peer) → Shards → Shards
unfolding add_peers
build_shards [] shards = shards
build_shards ((shard, peers) ∷ rest) shards =
    build_shards rest (add_peers shard peers (ensure_shard shard shards))

-- replace(map): the normalized map and the shards
unfoldable pub replace : RawMap → Result Failure (NormalMap × Shards)
unfolding build_shards
replace m = do n ← normalize_shard_map m; ok (n, build_shards n.shards [])

module _ {V : Type 0} where
  mem-keys-put :
      (j k : Text) (v : V) (d : Dict V) → (j ≡ k) ⊎ Member j (keys d) → Member j (keys (put k v d))
  unfolding put
  mem-keys-put j k v [] h = h
  mem-keys-put j k v ((i, w) ∷ d) h =
      go (text_eq i k) (λ e. (text_eq_iff i k).0 e) h (λ x. mem-keys-put j k v d x)
    where
      go :
          (b : Bool)
          → (b ≡ true → i ≡ k)
          → (j ≡ k) ⊎ Member j (keys ((i, w) ∷ d))
          → ((j ≡ k) ⊎ Member j (keys d) → Member j (keys (put k v d)))
          → Member j (keys (if b then (k, v) ∷ d else (i, w) ∷ put k v d))
      go true f (inl e) g = inl e
      go true f (inr (inl e)) g = inl (e ∙ f refl)
      go true f (inr (inr m)) g = inr m
      go false f (inl e) g = inr (g (inl e))
      go false f (inr (inl e)) g = inl e
      go false f (inr (inr m)) g = inr (g (inr m))

  mem_of_get : (k : Text) (v : V) (d : Dict V) → get k d ≡ some v → Member k (keys d)
  unfolding get
  mem_of_get k v [] e = cc
  mem_of_get k v ((i, w) ∷ d) e = elim (Bool-cases (text_eq i k)) [
    | inl t ↦ inl (sym ((text_eq_iff i k).0 t))
    | inr t ↦ inr (mem_of_get k v d (rw t at e))
  ]

-- the names are those of before and one more
abbrev Adds : Text → Shards → Shards → Type 0
Adds shard before next =
    (x : Text)
    → (Member x (keys next) → (x ≡ shard) ⊎ Member x (keys before))
      × ((x ≡ shard) ⊎ Member x (keys before) → Member x (keys next))

ensure_shard-Adds : (shard : Text) (shards : Shards) → Adds shard shards (ensure_shard shard shards)
unfolding ensure_shard
ensure_shard-Adds shard shards x = elim (Option-cases (get shard shards)) [
  | inl e ↦ rw e ((λ m. keys-put-mem x shard [] shards m), (λ h. mem-keys-put x shard [] shards h))
  | inr (v, e) ↦
      rw e ((λ m. inr m), (λ h. elim h [ inl p ↦ rw p (mem_of_get shard v shards e) | inr m ↦ m ]))
]

Adds-trans : (k : Text) (a b c : Shards) → Adds k a b → Adds k b c → Adds k a c
Adds-trans k a b c f g x = (
  (λ m. elim ((g x).0 m) [ inl e ↦ inl e | inr n ↦ (f x).0 n ]),
  (λ h. (g x).1 (inr ((f x).1 h))),
)

put-Adds : (k : Text) (v : Dict Peer) (a : Shards) → Adds k a (put k v a)
put-Adds k v a x = ((λ m. keys-put-mem x k v a m), (λ h. mem-keys-put x k v a h))

add_peer-Adds :
    (shard : Text) (peer : Peer) (shards : Shards)
    → Adds shard shards (add_peer shard peer shards).1
unfolding add_peer
add_peer-Adds shard peer shards =
    go (get (peer_key peer) (get_or (get shard shards') [])) (ensure_shard-Adds shard shards)
      (put-Adds shard (put (peer_key peer) peer (get_or (get shard shards') [])) shards')
  where
    shards' : Shards
    shards' = ensure_shard shard shards

    more : Shards
    more = put shard (put (peer_key peer) peer (get_or (get shard shards') [])) shards'

    go :
        (found : Option Peer)
        → Adds shard shards shards'
        → Adds shard shards' more
        → Adds shard shards
            (elim found as (λ _. Peer × Shards) [
              | some existing ↦ (existing, shards')
              | none ↦ (peer, more)
            ]).1
    go (some existing) f g = f
    go none f g = Adds-trans shard shards shards' more f g

add_peers-Adds :
    (shard : Text) (peers : List Peer) (a b : Shards)
    → Adds shard a b
    → Adds shard a (add_peers shard peers b)
unfolding add_peers
add_peers-Adds shard [] a b f = f
add_peers-Adds shard (peer ∷ peers) a b f =
    add_peers-Adds shard peers a (add_peer shard peer b).1
      (Adds-trans shard a b (add_peer shard peer b).1 f (add_peer-Adds shard peer b))

build_shards-names :
    (d : Dict (List Peer)) (s : Shards) (x : Text)
    → (Member x (keys (build_shards d s)) → Member x (keys d) ⊎ Member x (keys s))
      × (Member x (keys d) ⊎ Member x (keys s) → Member x (keys (build_shards d s)))
unfolding build_shards
build_shards-names [] s x = ((λ m. inr m), (λ h. elim h [ inl z ↦ absurd z | inr m ↦ m ]))
build_shards-names ((shard, peers) ∷ d) s x =
    let next = add_peers shard peers (ensure_shard shard s) in
    let f = add_peers-Adds shard peers s (ensure_shard shard s) (ensure_shard-Adds shard s) x in
    let ih = build_shards-names d next x in
    (
      (λ m. elim (ih.0 m) [
        | inl n ↦ inl (inr n)
        | inr n ↦ elim (f.0 n) [ inl e ↦ inl (inl e) | inr k ↦ inr k ]
      ]),
      (λ h. elim h [
        | inl (inl e) ↦ ih.1 (inr (f.1 (inl e)))
        | inl (inr n) ↦ ih.1 (inl n)
        | inr n ↦ ih.1 (inr (f.1 (inr n)))
      ]),
    )

ensure_shard-Distinct :
    (shard : Text) (s : Shards) → Distinct (keys s) → Distinct (keys (ensure_shard shard s))
unfolding ensure_shard
ensure_shard-Distinct shard s d = go (is_some (get shard s))
  where
    go : (b : Bool) → Distinct (keys (if b then s else put shard [] s))
    go true = d
    go false = put-Distinct shard [] s d

add_peers-Distinct :
    (shard : Text) (peers : List Peer) (s : Shards)
    → Distinct (keys s)
    → Distinct (keys (add_peers shard peers s))
unfolding add_peers
add_peers-Distinct shard [] s d = d
add_peers-Distinct shard (peer ∷ peers) s d =
    add_peers-Distinct shard peers (add_peer shard peer s).1 (add_peer-Distinct shard peer s d)

build_shards-Distinct :
    (m : Dict (List Peer)) (s : Shards) → Distinct (keys s) → Distinct (keys (build_shards m s))
unfolding build_shards
build_shards-Distinct [] s d = d
build_shards-Distinct ((shard, peers) ∷ m) s d =
    build_shards-Distinct m (add_peers shard peers (ensure_shard shard s))
      (add_peers-Distinct shard peers (ensure_shard shard s) (ensure_shard-Distinct shard s d))

replace-built :
    (m : RawMap) (n : NormalMap) (s : Shards) → replace m ≡ ok (n, s) → s ≡ build_shards n.shards []
unfolding replace
replace-built m n s h =
    let (n', e, f) = bind-ok (normalize_shard_map m) (λ n. ok (n, build_shards n.shards [])) h in
    cc f

-- Two nodes that replace their maps by maps with the same shard names, with whatever peers and in
-- whatever order, route every object alike.
pub replace_routes :
    (object_id : Text) (here there : RawMap) (n k : NormalMap) (s t : Shards)
    → replace here ≡ ok (n, s)
    → replace there ≡ ok (k, t)
    → ((x : Text) → Member x (keys n.shards) → Member x (keys k.shards))
    → ((x : Text) → Member x (keys k.shards) → Member x (keys n.shards))
    → shard_for_object object_id s ≡ shard_for_object object_id t
replace_routes object_id here there n k s t e f to from =
    rw (replace-built here n s e, replace-built there k t f)
      (shard_for_object-agree object_id (build_shards n.shards []) (build_shards k.shards [])
        (build_shards-Distinct n.shards [] tt) (build_shards-Distinct k.shards [] tt)
        (same n.shards k.shards to) (same k.shards n.shards from))
  where
    same :
        (a b : Dict (List Peer))
        → ((x : Text) → Member x (keys a) → Member x (keys b))
        → (x : Text) → Member x (keys (build_shards a []))
        → Member x (keys (build_shards b []))
    same a b g x m = elim ((build_shards-names a [] x).0 m) [
      | inl h ↦ (build_shards-names b [] x).1 (inl (g x h))
      | inr z ↦ absurd z
    ]
