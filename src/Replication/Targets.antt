-- ===== src/Replication/Targets.antt =====
-- Which peers are to be told of which scopes: src/replication-scheduler.js.
use objy.Common.{
  ◌≡◌, refl, sym, ap, ◌∙◌, subst, false, ◌||◌, some, List, [], ◌∷◌, ◌++◌, Member,
  Member-append_left, Member-append_right, Bool-cases, Option-cases, inl, inr,
}
use objy.Common.Text.{Text, text_eq, text_eq_iff}
use objy.Common.Dict.{Dict, get, get-put, get-put_self}
use objy.Replication.{
  HintScope, Target, add_target, tell_peers, hint_targets, peer_of, scopes_of, is_self,
}
use objy.Node.Peers.{Site, peers_for_shard}
use objy.ShardMap.{Peer, peer_key}

-- the peer with the key is to be told of the scope
abbrev pub Told : Text → HintScope → Dict Target → Type 0
Told key scope d = (t : Target) × (get key d ≡ some t) × Member scope t.scopes

-- every target stands under the key of its peer
pub record IsTargeted (d : Dict Target) : Type 0 where
  pub at : (key : Text) (t : Target) → get key d ≡ some t → peer_key t.peer ≡ key

pub no_targets-IsTargeted : IsTargeted []
unfolding get
no_targets-IsTargeted = record { at = λ key t e. cc }

same_target : {t u : Target} → some t ≡ some u → t ≡ u
same_target e = cc

peer_of-key :
    (p : Peer) (d : Dict Target)
    → IsTargeted d
    → peer_key (peer_of (get (peer_key p) d) p) ≡ peer_key p
peer_of-key p d h = elim (Option-cases (get (peer_key p) d)) [
  | inl e ↦ rw e refl
  | inr (t, e) ↦ rw e (h.at (peer_key p) t e)
]

add_target-IsTargeted :
    (scope : HintScope) (p : Peer) (d : Dict Target)
    → IsTargeted d
    → IsTargeted (add_target scope p d)
unfolding add_target
add_target-IsTargeted scope p d h = record {
  at = λ key t e. elim (Bool-cases (text_eq (peer_key p) key)) [
    | inl f ↦
        ap (λ (u : Target). peer_key u.peer)
          (sym (same_target (rw f at (sym (get-put (peer_key p) key _ d) ∙ e))))
        ∙ (peer_of-key p d h ∙ (text_eq_iff (peer_key p) key).0 f)
    | inr f ↦ h.at key t (rw f at (sym (get-put (peer_key p) key _ d) ∙ e))
  ];
}

tell_peers-IsTargeted :
    (site : Site) (scope : HintScope) (peers : List Peer) (d : Dict Target)
    → IsTargeted d
    → IsTargeted (tell_peers site scope peers d)
unfolding tell_peers
tell_peers-IsTargeted site scope [] d h = h
tell_peers-IsTargeted site scope (p ∷ peers) d h =
    elim (Bool-cases (text_eq p.url [] || is_self site p)) [
      | inl e ↦ rw e (tell_peers-IsTargeted site scope peers d h)
      | inr e ↦ rw e (
          tell_peers-IsTargeted site scope peers (add_target scope p d)
            (add_target-IsTargeted scope p d h))
    ]

pub hint_targets-IsTargeted :
    (site : Site) (scopes : List HintScope) (d : Dict Target)
    → IsTargeted d
    → IsTargeted (hint_targets site scopes d)
unfolding hint_targets
hint_targets-IsTargeted site [] d h = h
hint_targets-IsTargeted site (s ∷ scopes) d h =
    hint_targets-IsTargeted site scopes _
      (tell_peers-IsTargeted site s (peers_for_shard s.shard site) d h)

add_target-Told :
    (scope : HintScope) (p : Peer) (d : Dict Target)
    → Told (peer_key p) scope (add_target scope p d)
unfolding add_target
add_target-Told scope p d =
    (_, get-put_self (peer_key p) _ d, Member-append_right scope _ (scope ∷ []) (inl refl))

add_target-keeps :
    (key : Text) (scope other : HintScope) (p : Peer) (d : Dict Target)
    → Told key scope d
    → Told key scope (add_target other p d)
unfolding add_target
add_target-keeps key scope other p d (t, e, m) = elim (Bool-cases (text_eq (peer_key p) key)) [
  | inl f ↦ (
    record { peer = t.peer; scopes = t.scopes ++ (other ∷ []) },
    get-put (peer_key p) key _ d
        ∙ rw f (
            ap (λ o. some (record { peer = peer_of o p; scopes = scopes_of o ++ (other ∷ []) }))
              (subst (λ k. get k d ≡ some t) (sym ((text_eq_iff (peer_key p) key).0 f)) e)),
    Member-append_left scope t.scopes (other ∷ []) m,
  )
  | inr f ↦ (t, get-put (peer_key p) key _ d ∙ rw f e, m)
]

tell_peers-keeps :
    (key : Text) (scope other : HintScope) (site : Site) (peers : List Peer) (d : Dict Target)
    → Told key scope d
    → Told key scope (tell_peers site other peers d)
unfolding tell_peers
tell_peers-keeps key scope other site [] d h = h
tell_peers-keeps key scope other site (p ∷ peers) d h =
    elim (Bool-cases (text_eq p.url [] || is_self site p)) [
      | inl e ↦ rw e (tell_peers-keeps key scope other site peers d h)
      | inr e ↦ rw e (
          tell_peers-keeps key scope other site peers (add_target other p d)
            (add_target-keeps key scope other p d h))
    ]

tell_peers-Told :
    (site : Site) (scope : HintScope) (p : Peer) (peers : List Peer) (d : Dict Target)
    → Member p peers
    → (text_eq p.url [] || is_self site p) ≡ false
    → Told (peer_key p) scope (tell_peers site scope peers d)
unfolding tell_peers
tell_peers-Told site scope p [] d m h = absurd m
tell_peers-Told site scope p (q ∷ peers) d (inl e) h =
    let f : (text_eq q.url [] || is_self site q) ≡ false =
      subst (λ x. (text_eq x.url [] || is_self site x) ≡ false) e h in
    rw f (
      tell_peers-keeps (peer_key p) scope scope site peers (add_target scope q d)
        (subst (λ x. Told (peer_key p) scope (add_target scope x d)) e (add_target-Told scope p d)))
tell_peers-Told site scope p (q ∷ peers) d (inr m) h =
    elim (Bool-cases (text_eq q.url [] || is_self site q)) [
      | inl e ↦ rw e (tell_peers-Told site scope p peers d m h)
      | inr e ↦ rw e (tell_peers-Told site scope p peers (add_target scope q d) m h)
    ]

hint_targets-keeps :
    (key : Text) (scope : HintScope) (site : Site) (scopes : List HintScope) (d : Dict Target)
    → Told key scope d
    → Told key scope (hint_targets site scopes d)
unfolding hint_targets
hint_targets-keeps key scope site [] d h = h
hint_targets-keeps key scope site (s ∷ scopes) d h =
    hint_targets-keeps key scope site scopes _
      (tell_peers-keeps key scope s site (peers_for_shard s.shard site) d h)

pub hint_targets-Told :
    (site : Site) (scope : HintScope) (p : Peer) (scopes : List HintScope) (d : Dict Target)
    → Member scope scopes
    → Member p (peers_for_shard scope.shard site)
    → (text_eq p.url [] || is_self site p) ≡ false
    → Told (peer_key p) scope (hint_targets site scopes d)
unfolding hint_targets
hint_targets-Told site scope p [] d m n h = absurd m
hint_targets-Told site scope p (s ∷ scopes) d (inl e) n h = rw (← e) (
    hint_targets-keeps (peer_key p) scope site scopes _
      (tell_peers-Told site scope p (peers_for_shard scope.shard site) d n h))
hint_targets-Told site scope p (s ∷ scopes) d (inr m) n h =
    hint_targets-Told site scope p scopes _ m n h
