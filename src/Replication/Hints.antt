-- ===== src/Replication/Hints.antt =====
-- What hints are sent: src/replication-scheduler.js.
use objy.Common.{
  ℕ, zero, suc, ◌≤◌, ◌≡◌, ◌≢◌, refl, sym, ap, ◌∙◌, subst, max, Bool, true, false, ◌||◌, some, List,
  [], ◌∷◌, ◌++◌, length, take, drop, take-append-drop, All, Member, Member-append_left,
  Member-append_right, Member-append_cases, Bool-cases, inl, inr, arith,
}
use objy.Common.Text.{Text, text_eq, text_eq_iff}
use objy.Common.Dict.{Dict, get, values}
use objy.Replication.{
  chunks_from, chunks, HintScope, Target, Send, hint_targets, sends_to, sends_of, sent_hints,
  is_empty, is_self, flush_hints, Replication,
}
use objy.Replication.Targets.{no_targets-IsTargeted, hint_targets-IsTargeted, hint_targets-Told}
use objy.Node.Peers.{peers_for_shard}
use objy.ShardMap.{Peer, peer_key}

max_one : (n : ℕ) → max 1 (suc n) ≡ suc n
max_one n = omega arith

module _ {A : Type 0} where
  abbrev pub joined : List (List A) → List A
  joined [] = []
  joined (c ∷ cs) = c ++ joined cs

  length-drop : (n : ℕ) (xs : List A) → length (drop n xs) ≤ length xs
  length-drop zero xs = omega arith
  length-drop (suc n) [] = omega arith
  length-drop (suc n) (x ∷ xs) = omega (arith, length-drop n xs)

  length-take : (n : ℕ) (xs : List A) → length (take n xs) ≤ n
  length-take zero xs = omega arith
  length-take (suc n) [] = omega arith
  length-take (suc n) (x ∷ xs) = omega (arith, length-take n xs)

  chunks_from-joined :
      (fuel n : ℕ) (xs : List A) → length xs ≤ fuel → joined (chunks_from fuel (suc n) xs) ≡ xs
  unfolding chunks_from
  chunks_from-joined zero n [] h = refl
  chunks_from-joined zero n (x ∷ xs) h = ground (arith, h)
  chunks_from-joined (suc fuel) n [] h = refl
  chunks_from-joined (suc fuel) n (x ∷ xs) h =
      ap (λ l. x ∷ (take n xs ++ l))
        (chunks_from-joined fuel n (drop n xs) (omega (arith, length-drop n xs, h)))
      ∙ ap (λ l. x ∷ l) (take-append-drop n xs)

  chunks_from-short :
      (fuel n : ℕ) (xs : List A)
      → All (λ c. (c ≢ []) × (length c ≤ suc n)) (chunks_from fuel (suc n) xs)
  unfolding chunks_from
  chunks_from-short zero n xs = tt
  chunks_from-short (suc fuel) n [] = tt
  chunks_from-short (suc fuel) n (x ∷ xs) =
      (((λ e. cc), omega (arith, length-take n xs)), chunks_from-short fuel n (drop n xs))

  -- The chunks of a list hold its values once and in order; none is empty, and none is longer than
  -- the size asked for, or than 1 if that is 0.
  pub chunks-joined :
      (xs : List A) (size : ℕ)
      → (joined (chunks xs size) ≡ xs)
        × All (λ c. (c ≢ []) × (length c ≤ max 1 size)) (chunks xs size)
  unfolding chunks
  chunks-joined xs zero =
      (chunks_from-joined (length xs) 0 xs (omega arith), chunks_from-short (length xs) 0 xs)
  chunks-joined xs (suc n) =
      rw (max_one n)
        (chunks_from-joined (length xs) n xs (omega arith), chunks_from-short (length xs) n xs)

  -- what a list of lists joins stands in one of the lists
  Member-joined :
      (x : A) (cs : List (List A)) → Member x (joined cs) → (c : List A) × Member c cs × Member x c
  Member-joined x [] m = absurd m
  Member-joined x (c ∷ cs) m = elim (Member-append_cases x c (joined cs) m) [
    | inl h ↦ (c, inl refl, h)
    | inr h ↦ let (d, n, k) = Member-joined x cs h in (d, inr n, k)
  ]

some-injective : {A : Type 0} {a b : A} → some a ≡ some b → a ≡ b
some-injective e = cc

-- a hint among these tells the peer, under the key, of the scope
Sent : Text → Peer → HintScope → List Send → Type 0
Sent key p scope sends =
    (send : Send) × Member send sends
    × (send.key ≡ key)
    × (send.peer ≡ p)
    × Member scope send.scopes

sends_to-Sent :
    (key : Text) (p : Peer) (scope : HintScope) (c : List HintScope) (cs : List (List HintScope))
    → Member c cs
    → Member scope c
    → Sent key p scope (sends_to key p cs)
unfolding Sent
sends_to-Sent key p scope c [] m n = absurd m
sends_to-Sent key p scope c (d ∷ cs) (inl e) n = (_, inl refl, refl, refl, subst (Member scope) e n)
sends_to-Sent key p scope c (d ∷ cs) (inr m) n =
    let (send, a, w, s, b) = sends_to-Sent key p scope c cs m n in (send, inr a, w, s, b)

sends_of-Sent :
    (key : Text) (scope : HintScope) (size : ℕ) (t : Target) (d : Dict Target)
    → get key d ≡ some t
    → Member scope t.scopes
    → Sent key t.peer scope (sends_of size d)
unfolding Sent sends_of get
sends_of-Sent key scope size t [] e m = cc
sends_of-Sent key scope size t ((k, u) ∷ d) e m = elim (Bool-cases (text_eq k key)) [
  | inl f ↦
      let same : u ≡ t = some-injective (rw f at e) in
      let (c, a, b) = Member-joined scope (chunks u.scopes size) (
        subst (Member scope) (sym (chunks-joined u.scopes size).0)
          (subst (λ x. Member scope x.scopes) (sym same) m)) in
      let (send, v, w, s, n) = sends_to-Sent k u.peer scope c (chunks u.scopes size) a b in
      (
        send,
        Member-append_left send _ (sends_of size d) v,
        w ∙ (text_eq_iff k key).0 f,
        s ∙ ap (λ (x : Target). x.peer) same,
        n,
      )
  | inr f ↦
      let (send, v, w, s, n) = sends_of-Sent key scope size t d (rw f at e) m in
      (send, Member-append_right send (sends_to k u.peer (chunks u.scopes size)) _ v, w, s, n)
]

not_empty : (scope : HintScope) (d : Dict HintScope) → Member scope (values d) → is_empty d ≡ false
not_empty scope [] m = absurd m
not_empty scope (e ∷ d) m = refl

Member-sent_hints :
    (has_hint : Peer → Bool) (send : Send) (sends : List Send)
    → has_hint send.peer ≡ true
    → Member send sends
    → Member send (sent_hints has_hint sends)
unfolding sent_hints
Member-sent_hints has_hint send [] h m = absurd m
Member-sent_hints has_hint send (s ∷ sends) h (inl e) =
    rw (subst (λ (x : Send). has_hint x.peer ≡ true) e h) (inl e)
Member-sent_hints has_hint send (s ∷ sends) h (inr m) = elim (Bool-cases (has_hint s.peer)) [
  | inl e ↦ rw e (inr (Member-sent_hints has_hint send sends h m))
  | inr e ↦ rw e (Member-sent_hints has_hint send sends h m)
]

-- Where hints are enabled, a flush tells every peer of a shard, that has a url and is not the node
-- itself, of each scope of the shard that was pending, if the peers of its key take hints, and
-- nothing stays pending.
pub flush_hints-told :
    (has_hint : Peer → Bool) (r : Replication) (scope : HintScope) (p : Peer)
    → r.enabled ≡ true
    → r.hints_enabled ≡ true
    → Member scope (values r.pending_hint_scopes)
    → Member p (peers_for_shard scope.shard r.site)
    → (text_eq p.url [] || is_self r.site p) ≡ false
    → ((q : Peer) → peer_key q ≡ peer_key p → has_hint q ≡ true)
    → ((send : Send) × Member send (flush_hints has_hint r).0
        × (send.key ≡ peer_key p)
        × Member scope send.scopes)
      × ((flush_hints has_hint r).1.pending_hint_scopes ≡ [])
unfolding flush_hints Sent
flush_hints-told has_hint r scope p e f m n h takes =
    let targets = hint_targets r.site (values r.pending_hint_scopes) [] in
    let (t, g, k) = hint_targets-Told r.site scope p (values r.pending_hint_scopes) [] m n h in
    let (send, v, w, s, l) = sends_of-Sent (peer_key p) scope r.max_scopes_per_hint t targets g k in
    let takes_it : has_hint send.peer ≡ true = takes send.peer (
      ap peer_key s
      ∙ (hint_targets-IsTargeted r.site (values r.pending_hint_scopes) [] no_targets-IsTargeted).at
          (peer_key p) t g) in
    rw (e, f, not_empty scope r.pending_hint_scopes m)
      ((send, Member-sent_hints has_hint send _ takes_it v, w, l), refl)
