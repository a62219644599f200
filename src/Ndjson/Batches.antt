-- ===== src/Ndjson/Batches.antt =====
-- The batches hold every value once, in order, and keep to their limits.
use objy.Common.{
  ℕ, ◌+◌, ◌≤◌, ◌<◌, ◌≡◌, refl, sym, ◌∙◌, subst, ltb, leb, Bool, true, false, not, ◌&&◌, ◌||◌, List,
  [], ◌∷◌, ◌++◌, if◌then◌else◌, length, length-append, All, All-append, map, append-nil,
  append_assoc, arith,
}
use objy.Ndjson.{
  Entry, Pending, is_empty, empty_pending, yielded, make_room, push, yield_full, max_objects_of,
  batches_from, parse_ndjson_batches,
}

max_objects_of-pos : (n : ℕ) → 0 < max_objects_of n
unfolding max_objects_of
max_objects_of-pos n = ground arith

module _ {V : Type 0} where
  -- the values of the batches, in order
  unfoldable pub flat : List (List V) → List V
  flat [] = []
  flat (b ∷ bs) = b ++ flat bs

  abbrev pub values_of : List (Entry V) → List V
  values_of = map (λ (e : Entry V). e.value)

  flat-append : (xs ys : List (List V)) → flat (xs ++ ys) ≡ flat xs ++ flat ys
  unfolding flat
  flat-append [] ys = refl
  flat-append (x ∷ xs) ys = rw (flat-append xs ys, append_assoc)

  flat-yielded : (vs : List V) → flat (yielded vs) ≡ vs
  unfolding flat
  flat-yielded [] = refl
  flat-yielded (v ∷ vs) = rw append-nil

  flat-make_room :
      (max_bytes : ℕ) (e : Entry V) (p : Pending V)
      → flat (make_room max_bytes e p).0 ++ (make_room max_bytes e p).1.batch ≡ p.batch
  unfolding make_room flat
  flat-make_room max_bytes e p = ground (arith, append-nil p.batch)

  flat-yield_full :
      (max_objects max_bytes : ℕ) (p : Pending V)
      → flat (yield_full max_objects max_bytes p).0 ++ (yield_full max_objects max_bytes p).1.batch
        ≡ p.batch
  unfolding yield_full flat
  flat-yield_full max_objects max_bytes p = ground (arith, append-nil p.batch)

  flat-batches_from :
      (max_objects max_bytes : ℕ) (p : Pending V) (es : List (Entry V))
      → flat (batches_from max_objects max_bytes p es) ≡ p.batch ++ values_of es
  unfolding batches_from
  flat-batches_from max_objects max_bytes p [] = flat-yielded p.batch ∙ sym (append-nil p.batch)
  flat-batches_from max_objects max_bytes p (e ∷ es) =
      let q = (make_room max_bytes e p).1 in
      let f = yield_full max_objects max_bytes (push e q) in
      let later : flat (f.0 ++ batches_from max_objects max_bytes f.1 es)
          ≡ q.batch ++ (e.value ∷ values_of es) =
        flat-append f.0 (batches_from max_objects max_bytes f.1 es)
        ∙ rw (flat-batches_from max_objects max_bytes f.1 es) (
            sym (append_assoc (flat f.0) f.1.batch (values_of es))
            ∙ rw (flat-yield_full max_objects max_bytes (push e q))
                (unfold push in append_assoc q.batch (e.value ∷ []) (values_of es))) in
      flat-append (make_room max_bytes e p).0 (f.0 ++ batches_from max_objects max_bytes f.1 es)
      ∙ rw later (
          sym (append_assoc (flat (make_room max_bytes e p).0) q.batch (e.value ∷ values_of es))
          ∙ rw (flat-make_room max_bytes e p))

  -- Every batch has a value, and at most as many as allowed.
  abbrev pub Sized : ℕ → List (List V) → Type 0
  Sized max_objects = All (λ b. (0 < length b) × (length b ≤ max_objects))

  make_room-Sized :
      (max_objects max_bytes : ℕ) (e : Entry V) (p : Pending V)
      → length p.batch < max_objects
      → Sized max_objects (make_room max_bytes e p).0
        × (length (make_room max_bytes e p).1.batch < max_objects)
  unfolding make_room
  make_room-Sized max_objects max_bytes e p h =
      go p.batch (ltb 0 max_bytes && ltb max_bytes (p.bytes + e.bytes)) h
    where
      go :
          (vs : List V) (c : Bool)
          → length vs < max_objects
          → (let r : List (List V) × Pending V =
                if not (is_empty vs) && c
                then (vs ∷ [], empty_pending)
                else ([], record p { batch = vs }) in
              Sized max_objects r.0 × (length r.1.batch < max_objects))
      go [] c h = (tt, h)
      go (v ∷ vs) true h = (((omega arith, omega arith), tt), omega arith)
      go (v ∷ vs) false h = (tt, h)

  yield_full-Sized :
      (max_objects max_bytes : ℕ) (e : Entry V) (p : Pending V)
      → length p.batch < max_objects
      → Sized max_objects (yield_full max_objects max_bytes (push e p)).0
        × (length (yield_full max_objects max_bytes (push e p)).1.batch < max_objects)
  unfolding yield_full push
  yield_full-Sized max_objects max_bytes e p h =
      go
        (leb max_objects (length (p.batch ++ (e.value ∷ [])))
          || (ltb 0 max_bytes && leb max_bytes (p.bytes + e.bytes)))
        (λ c. ground arith)
    where
      grown : length (p.batch ++ (e.value ∷ [])) ≡ length p.batch + 1
      grown = length-append p.batch (e.value ∷ []) ∙ omega arith

      go :
          (b : Bool)
          → (b ≡ false → length (p.batch ++ (e.value ∷ [])) < max_objects)
          → (let r : List (List V) × Pending V =
                if b then ((p.batch ++ (e.value ∷ [])) ∷ [], empty_pending) else ([], push e p) in
              Sized max_objects r.0 × (length r.1.batch < max_objects))
      go true f = (((omega (arith, grown), omega (arith, grown)), tt), omega arith)
      go false f = (tt, f refl)

  yielded-Sized :
      (max_objects : ℕ) (vs : List V) → length vs ≤ max_objects → Sized max_objects (yielded vs)
  yielded-Sized max_objects [] h = tt
  yielded-Sized max_objects (v ∷ vs) h = ((omega arith, h), tt)

  batches_from-Sized :
      (max_objects max_bytes : ℕ) (p : Pending V) (es : List (Entry V))
      → length p.batch < max_objects
      → Sized max_objects (batches_from max_objects max_bytes p es)
  unfolding batches_from
  batches_from-Sized max_objects max_bytes p [] h = yielded-Sized max_objects p.batch (omega arith)
  batches_from-Sized max_objects max_bytes p (e ∷ es) h =
      let (a, q) = make_room-Sized max_objects max_bytes e p h in
      let (b, r) = yield_full-Sized max_objects max_bytes e (make_room max_bytes e p).1 q in
      let f = yield_full max_objects max_bytes (push e (make_room max_bytes e p).1) in
      All-append _ _ _ a (All-append _ _ _ b (batches_from-Sized max_objects max_bytes f.1 es r))

  -- The batches hold the values of the entries, each once and in order; none is empty, and none is
  -- longer than the limit that was asked for, where that is not 0.
  pub parse_ndjson_batches-all :
      (max_batch_objects max_batch_bytes : ℕ) (es : List (Entry V))
      → 0 < max_batch_objects
      → (flat (parse_ndjson_batches max_batch_objects max_batch_bytes es) ≡ values_of es)
        × Sized max_batch_objects (parse_ndjson_batches max_batch_objects max_batch_bytes es)
  unfolding parse_ndjson_batches
  parse_ndjson_batches-all max_batch_objects max_batch_bytes es h = (
    flat-batches_from (max_objects_of max_batch_objects) max_batch_bytes empty_pending es,
    subst
        (λ m.
          Sized m
            (batches_from (max_objects_of max_batch_objects) max_batch_bytes empty_pending es))
        limit
        (batches_from-Sized (max_objects_of max_batch_objects) max_batch_bytes empty_pending es
          (max_objects_of-pos max_batch_objects)),
  )
    where
      limit : max_objects_of max_batch_objects ≡ max_batch_objects
      limit = unfold max_objects_of in ground arith
