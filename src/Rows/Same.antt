-- ===== src/Rows/Same.antt =====
-- Keeping candidates does not touch the pool: src/object-store.js.
use objy.Common.{
  ℕ, zero, suc, ◌+◌, ◌-◌, ◌≡◌, refl, ◌∙◌, leb, Bool, true, false, not, Option, none, some, length,
  is_some, get_or, if◌then◌else◌, Bool-cases, inl, inr,
}
use objy.Common.Text.{Text}
use objy.Common.Dict.{Dict, get}
use objy.Rows.{
  Directory, drop_oldest, drop_oldest_candidate, make_room, candidates_at, set_candidates,
  trim_path, add_candidate, remember_candidate, candidates_for_path, should_promote,
  delete_candidate, path_or_root,
}

module _ {N : Type 0} where
  -- the same pool under the same options
  pub record Same (d d' : Directory N) : Type 0 where
    pub pool : d'.pool ≡ d.pool
    pub options : d'.options ≡ d.options

  pub same : (d : Directory N) → Same d d
  same d = record { pool = refl; options = refl }

  make_room-Same : (fuel : ℕ) (d : Directory N) → Same d (make_room fuel d)
  unfolding make_room drop_oldest_candidate
  make_room-Same zero d = same d
  make_room-Same (suc fuel) d =
      go (leb d.options.max_candidates d.candidate_count) (drop_oldest d.path_candidates)
        (λ d'. make_room-Same fuel d')
    where
      go :
          (b : Bool) (o : Option (Dict (Dict ℕ)))
          → ((d' : Directory N) → Same d' (make_room fuel d'))
          → Same d (
              if b
              then elim (elim o as (λ _. Option (Directory N)) [
                | none ↦ none
                | some paths ↦
                    some (record d {
                      path_candidates = paths;
                      candidate_count = d.candidate_count - 1;
                    })
              ])
                  as (λ _. Directory N) [ none ↦ d | some d' ↦ make_room fuel d' ]
              else d)
      go false o ih = same d
      go true none ih = same d
      go true (some paths) ih =
          let s =
            ih (record d { path_candidates = paths; candidate_count = d.candidate_count - 1 }) in
          record { pool = s.pool; options = s.options }

  if_Same : (b : Bool) (d x y : Directory N) → Same d x → Same d y → Same d (if b then x else y)
  if_Same true d x y p q = p
  if_Same false d x y p q = q

  pub Same-trans : (d e f : Directory N) → Same d e → Same e f → Same d f
  Same-trans d e f p q = record { pool = q.pool ∙ p.pool; options = q.options ∙ p.options }

  set_candidates-Same :
      (path : Text) (cs : Dict ℕ) (count : ℕ) (d : Directory N)
      → Same d (set_candidates path cs count d)
  unfolding set_candidates
  set_candidates-Same path cs count d = record { pool = refl; options = refl }

  trim_path-Same : (path : Text) (d : Directory N) → Same d (trim_path path d)
  unfolding trim_path
  trim_path-Same path d = if_Same _ d _ d (set_candidates-Same path _ _ d) (same d)

  add_candidate-Same :
      (path key : Text) (count : ℕ) (d : Directory N) → Same d (add_candidate path key count d)
  unfolding add_candidate
  add_candidate-Same path key count d = if_Same _ d _ d (set_candidates-Same path _ _ d) (same d)

  remember_candidate-Same :
      (path key : Text) (count : ℕ) (d : Directory N) → Same d (remember_candidate path key count d)
  unfolding remember_candidate
  remember_candidate-Same path key count d = if_Same _ d d _ (same d) (
      if_Same _ d _ _ (set_candidates-Same path _ _ d) (
        if_Same _ d room _ made (
          Same-trans d (trim_path path room) _ (Same-trans d room _ made (trim_path-Same path room))
            (add_candidate-Same path key count (trim_path path room)))))
    where
      room : Directory N
      room = make_room (d.candidate_count + 1) d

      made : Same d room
      made = make_room-Same (d.candidate_count + 1) d

  pub delete_candidate-Same :
      (path key : Text) (d : Directory N) → Same d (delete_candidate path key d)
  unfolding delete_candidate
  delete_candidate-Same path key d =
      if_Same _ d _ d (set_candidates-Same (path_or_root path) _ _ d) (same d)

  candidates_for_path-Same : (path : Text) (d : Directory N) → Same d (candidates_for_path path d).1
  unfolding candidates_for_path
  candidates_for_path-Same path d =
      elim (Bool-cases (is_some (get (path_or_root path) d.path_candidates))) [
        | inl e ↦ rw e (same d)
        | inr e ↦ elim (Bool-cases (leb d.options.max_paths (length d.path_candidates))) [
          | inl f ↦ rw (e, f) (same d)
          | inr f ↦ rw (e, f) (record { pool = refl; options = refl })
        ]
      ]

  pub should_promote-Same :
      (path key : Text) (d : Directory N) → Same d (should_promote path key d).1
  unfolding should_promote
  should_promote-Same path key d = elim (Bool-cases (leb d.options.max_entries (length d.pool))) [
    | inl e ↦ rw e (same d)
    | inr e ↦ rw e (
        go (candidates_for_path path d).0 (candidates_for_path path d).1
          (candidates_for_path-Same path d))
  ]
    where
      go :
          (allowed : Bool) (d' : Directory N)
          → Same d d'
          → Same d (
              let count = get_or (get key (candidates_at (path_or_root path) d')) 0 + 1 in
              let result : Bool × Directory N =
                (if not allowed
                  then (false, d')
                  else if leb d'.options.min_refs count
                  then (true, d')
                  else (false, remember_candidate (path_or_root path) key count d')) in
              result.1)
      go false d' h = h
      go true d' h =
          elim (Bool-cases (
            leb d'.options.min_refs
              (get_or (get key (candidates_at (path_or_root path) d')) 0 + 1))) [
                | inl e ↦ rw e h
                | inr e ↦
                    rw e
                      (Same-trans d d' _ h (remember_candidate-Same (path_or_root path) key _ d'))
              ]
