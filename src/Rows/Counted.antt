-- ===== src/Rows/Counted.antt =====
-- The count of candidates that the directory keeps: src/object-store.js.
use objy.Common.{
  ℕ, zero, suc, ◌+◌, ◌-◌, ◌≤◌, ◌≡◌, ◌⊎◌, refl, ap, ◌∙◌, subst, leb, ltb, ◌==◌, Bool, true, false,
  not, ◌&&◌, ◌||◌, Option, none, some, [], length, is_some, get_or, Bool-cases, Option-cases, inl,
  inr, arith, if◌then◌else◌,
}
use objy.Common.Text.{Text}
use objy.Common.Dict.{Dict, get, put, get-put_self}
use objy.Rows.{
  Directory, remove_key, drop_oldest, drop_oldest_candidate, make_room, candidates_at,
  set_candidates, trim_path, add_candidate, remember_candidate, candidates_for_path, should_promote,
  delete_candidate, path_or_root, without_oldest,
}
use objy.Rows.Candidates.{
  total, IsAbsent, total-put, length-put_new, length-put_there, length-remove_key, some_same,
  drop_oldest-total, drop_oldest-IsAbsent, length-total, length-without_oldest,
  absent_without_oldest, some_length, and_room, option_conflict, or_right, none_there,
}

-- the directory counts its candidates, and has no more than it may
pub record IsCounted {N : Type 0} (d : Directory N) : Type 0 where
  pub counted : d.candidate_count ≡ total d.path_candidates
  pub bounded : d.candidate_count ≤ d.options.max_candidates

module _ {N : Type 0} where
  set_candidates-IsCounted :
      (path : Text) (cs : Dict ℕ) (count : ℕ) (d : Directory N)
      → IsCounted d
      → count + length (candidates_at path d) ≡ d.candidate_count + length cs
      → count ≤ d.options.max_candidates
      → IsCounted (set_candidates path cs count d)
  unfolding set_candidates
  set_candidates-IsCounted path cs count d h e b = record {
    counted = omega (arith, total-put path cs d.path_candidates, h.counted, e);
    bounded = b;
  }

  drop_oldest_candidate-IsCounted :
      (d d' : Directory N) → drop_oldest_candidate d ≡ some d' → IsCounted d → IsCounted d'
  unfolding drop_oldest_candidate
  drop_oldest_candidate-IsCounted d d' e h = elim (Option-cases (drop_oldest d.path_candidates)) [
    | inl f ↦ absurd (option_conflict (rw (f, drop_oldest_candidate) at e))
    | inr (r, f) ↦ subst IsCounted (some_same (rw (f, drop_oldest_candidate) at e)) (record {
      counted = omega (arith, h.counted, drop_oldest-total d.path_candidates r f);
      bounded = omega (arith, h.bounded);
    })
  ]

  drop_oldest_candidate-IsAbsent :
      (path key : Text) (d d' : Directory N)
      → drop_oldest_candidate d ≡ some d'
      → IsAbsent path key d.path_candidates
      → IsAbsent path key d'.path_candidates
  unfolding drop_oldest_candidate
  drop_oldest_candidate-IsAbsent path key d d' e h =
      elim (Option-cases (drop_oldest d.path_candidates)) [
        | inl f ↦ absurd (option_conflict (rw (f, drop_oldest_candidate) at e))
        | inr (r, f) ↦
            subst (λ x. IsAbsent path key x.path_candidates)
              (some_same (rw (f, drop_oldest_candidate) at e))
              (drop_oldest-IsAbsent path key d.path_candidates r f h)
      ]

  -- making room keeps the count right, and brings no candidate back
  make_room-IsCounted :
      (path key : Text) (fuel : ℕ) (d : Directory N)
      → IsCounted d
      → IsAbsent path key d.path_candidates
      → IsCounted (make_room fuel d) × IsAbsent path key (make_room fuel d).path_candidates
  unfolding make_room
  make_room-IsCounted path key zero d h a = (h, a)
  make_room-IsCounted path key (suc fuel) d h a =
      go (leb d.options.max_candidates d.candidate_count) (Option-cases (drop_oldest_candidate d))
        (λ d' h' a'. make_room-IsCounted path key fuel d' h' a')
    where
      Kept : Directory N → Type 0
      Kept x = IsCounted x × IsAbsent path key x.path_candidates

      go :
          (b : Bool)
          → (drop_oldest_candidate d ≡ none)
            ⊎ ((d' : Directory N) × (drop_oldest_candidate d ≡ some d'))
          → ((d' : Directory N)
              → IsCounted d'
              → IsAbsent path key d'.path_candidates
              → Kept (make_room fuel d'))
          → Kept (
              if b
              then elim (drop_oldest_candidate d) [ none ↦ d | some d' ↦ make_room fuel d' ]
              else d)
      go false c ih = (h, a)
      go true (inl e) ih = rw e (h, a)
      go true (inr (d', e)) ih = rw e (
          ih d' (drop_oldest_candidate-IsCounted d d' e h)
            (drop_oldest_candidate-IsAbsent path key d d' e a))

  make_room-options : (fuel : ℕ) (d : Directory N) → (make_room fuel d).options ≡ d.options
  unfolding make_room drop_oldest_candidate
  make_room-options zero d = refl
  make_room-options (suc fuel) d =
      go (leb d.options.max_candidates d.candidate_count) (drop_oldest d.path_candidates)
        (λ d'. make_room-options fuel d')
    where
      go :
          (b : Bool) (o : Option (Dict (Dict ℕ)))
          → ((d' : Directory N) → (make_room fuel d').options ≡ d'.options)
          → (if b
              then elim (elim o as (λ _. Option (Directory N)) [
                | none ↦ none
                | some paths ↦
                    some (record d {
                      path_candidates = paths;
                      candidate_count = d.candidate_count - 1;
                    })
              ])
                  as (λ _. Directory N) [ none ↦ d | some d' ↦ make_room fuel d' ]
              else d).options
            ≡ d.options
      go false o ih = refl
      go true none ih = refl
      go true (some paths) ih = ih _

  trim_path-IsCounted :
      (path key : Text) (d : Directory N)
      → (d.options.max_candidates_per_path == 0) ≡ false
      → IsCounted d
      → IsAbsent path key d.path_candidates
      → IsCounted (trim_path path d) × IsAbsent path key (trim_path path d).path_candidates
  unfolding trim_path set_candidates
  trim_path-IsCounted path key d z h a =
      elim (Bool-cases (leb d.options.max_candidates_per_path (length (candidates_at path d)))) [
        | inl e ↦ rw e (
          set_candidates-IsCounted path (without_oldest (candidates_at path d))
              (d.candidate_count - 1) d h
              (omega (
                arith,
                length-without_oldest (candidates_at path d) (some_length _ _ z e),
                some_length _ _ z e,
                length-total path d.path_candidates,
                h.counted,
              ))
              (omega (arith, h.bounded)),
          rw (get-put_self path (without_oldest (candidates_at path d)) d.path_candidates)
              (absent_without_oldest key (candidates_at path d) a),
        )
        | inr e ↦ rw e (h, a)
      ]

  add_candidate-IsCounted :
      (path key : Text) (count : ℕ) (d : Directory N)
      → IsCounted d
      → IsAbsent path key d.path_candidates
      → IsCounted (add_candidate path key count d)
  unfolding add_candidate
  add_candidate-IsCounted path key count d h a =
      elim (Bool-cases (
        ltb d.candidate_count d.options.max_candidates
        && ltb (length (candidates_at path d)) d.options.max_candidates_per_path)) [
          | inl e ↦ rw e (
              set_candidates-IsCounted path (put key count (candidates_at path d))
                (d.candidate_count + 1) d h
                (omega (arith, length-put_new key count (candidates_at path d) a))
                (and_room _ _ _ e))
          | inr e ↦ rw e h
        ]

  remember_candidate-IsCounted :
      (path key : Text) (count : ℕ) (d : Directory N)
      → IsCounted d
      → IsCounted (remember_candidate path key count d)
  unfolding remember_candidate
  remember_candidate-IsCounted path key count d h =
      elim (Bool-cases
        ((d.options.max_candidates == 0) || (d.options.max_candidates_per_path == 0))) [
          | inl e ↦ rw e h
          | inr e ↦ elim (Bool-cases (is_some (get key (candidates_at path d)))) [
            | inl f ↦
                rw (e, f)
                  (set_candidates-IsCounted path (put key count (candidates_at path d))
                    d.candidate_count d h
                    (omega (arith, length-put_there key count (candidates_at path d) f)) h.bounded)
            | inr f ↦ rw (e, f) (absent f (or_right _ _ e))
          ]
        ]
    where
      room : Directory N
      room = make_room (d.candidate_count + 1) d

      absent :
          IsAbsent path key d.path_candidates
          → (d.options.max_candidates_per_path == 0) ≡ false
          → IsCounted (
              if leb room.options.max_candidates room.candidate_count
              then room
              else add_candidate path key count (trim_path path room))
      absent a z =
          let (made, gone) = make_room-IsCounted path key (d.candidate_count + 1) d h a in
          let z' : (room.options.max_candidates_per_path == 0) ≡ false =
            ap (λ o. o.max_candidates_per_path == 0) (make_room-options (d.candidate_count + 1) d)
            ∙ z in
          let (trimmed, free) = trim_path-IsCounted path key room z' made gone in
          elim (Bool-cases (leb room.options.max_candidates room.candidate_count)) [
            | inl e ↦ rw e made
            | inr e ↦
                rw e (add_candidate-IsCounted path key count (trim_path path room) trimmed free)
          ]

  delete_candidate-IsCounted :
      (path key : Text) (d : Directory N) → IsCounted d → IsCounted (delete_candidate path key d)
  unfolding delete_candidate
  delete_candidate-IsCounted path key d h =
      elim (Bool-cases (is_some (get key (candidates_at (path_or_root path) d)))) [
        | inl e ↦ rw e (
            set_candidates-IsCounted (path_or_root path)
              (remove_key key (candidates_at (path_or_root path) d)) (d.candidate_count - 1) d h
              (omega (
                arith,
                length-remove_key key (candidates_at (path_or_root path) d) e,
                length-total (path_or_root path) d.path_candidates,
                h.counted,
              ))
              (omega (arith, h.bounded)))
        | inr e ↦ rw e h
      ]

  candidates_for_path-IsCounted :
      (path : Text) (d : Directory N) → IsCounted d → IsCounted (candidates_for_path path d).1
  unfolding candidates_for_path
  candidates_for_path-IsCounted path d h =
      elim (Bool-cases (is_some (get (path_or_root path) d.path_candidates))) [
        | inl e ↦ rw e h
        | inr e ↦ elim (Bool-cases (leb d.options.max_paths (length d.path_candidates))) [
          | inl f ↦ rw (e, f) h
          | inr f ↦
              rw (e, f)
                (record {
                  counted = omega (
                    arith,
                    total-put (path_or_root path) [] d.path_candidates,
                    none_there (path_or_root path) d.path_candidates e,
                    h.counted,
                  );
                  bounded = h.bounded;
                })
        ]
      ]

  -- Whatever value the directory is asked about under whatever path: if its count of candidates is
  -- the number of candidates that it keeps and within the limit, both stay so.
  pub should_promote-IsCounted :
      (path key : Text) (d : Directory N) → IsCounted d → IsCounted (should_promote path key d).1
  unfolding should_promote
  should_promote-IsCounted path key d h =
      elim (Bool-cases (leb d.options.max_entries (length d.pool))) [
        | inl e ↦ rw e h
        | inr e ↦ rw e (
            go (candidates_for_path path d).0 (candidates_for_path path d).1
              (candidates_for_path-IsCounted path d h))
      ]
    where
      go :
          (allowed : Bool) (d' : Directory N)
          → IsCounted d'
          → IsCounted (
              let count = get_or (get key (candidates_at (path_or_root path) d')) 0 + 1 in
              let result : Bool × Directory N =
                (if not allowed
                  then (false, d')
                  else if leb d'.options.min_refs count
                  then (true, d')
                  else (false, remember_candidate (path_or_root path) key count d')) in
              result.1)
      go false d' h' = h'
      go true d' h' =
          elim (Bool-cases (
            leb d'.options.min_refs
              (get_or (get key (candidates_at (path_or_root path) d')) 0 + 1))) [
                | inl e ↦ rw e h'
                | inr e ↦ rw e (
                    remember_candidate-IsCounted (path_or_root path) key
                      (get_or (get key (candidates_at (path_or_root path) d')) 0 + 1) d' h')
              ]
