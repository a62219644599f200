-- ===== src/Patch/Paths.antt =====
-- Reads after the writes of `setPath` and `unsetPath`.
use objy.Common.{
  ◌≡◌, ◌⊎◌, refl, false, none, some, List, [], ◌∷◌, if◌then◌else◌, arith, Option-cases, inl, inr,
}
use objy.Common.Text.{Text, text_eq, text_eq_iff, text_eq_refl}
use objy.Patch.{
  Value, undefined, null, bool, num, str, arr, obj, Fields, end, field, get_field, set_field,
  delete_field, child_or_new, as_object, set_at, unset_at,
}

module _ {N : Type 0} where
  pub get_field-set_field :
      (k j : Text) (v : Value N) (fs : Fields N)
      → get_field j (set_field k v fs) ≡ (if text_eq k j then v else get_field j fs)
  unfolding get_field set_field
  get_field-set_field k j v end = refl
  get_field-set_field k j v (field i w fs) =
      ground
        (arith, text_eq_iff k j, text_eq_iff i k, text_eq_iff i j, get_field-set_field k j v fs)

  pub get_field-delete_field :
      (k j : Text) (fs : Fields N)
      → get_field j (delete_field k fs) ≡ (if text_eq k j then undefined else get_field j fs)
  unfolding get_field delete_field
  get_field-delete_field k j end = ground arith
  get_field-delete_field k j (field i w fs) =
      ground
        (arith, text_eq_iff k j, text_eq_iff i k, text_eq_iff i j, get_field-delete_field k j fs)

  get_field-set_field_self :
      (k : Text) (v : Value N) (fs : Fields N) → get_field k (set_field k v fs) ≡ v
  get_field-set_field_self k v fs = rw get_field-set_field (rw (text_eq_refl k))

  -- the value at a path: getPathValue of src/query.js, where the path leads through plain objects
  unfoldable pub get_at : List Text → Fields N → Value N
  get_at [] fs = obj fs
  get_at (part ∷ []) fs = get_field part fs
  get_at (part ∷ next ∷ parts) fs = get_at (next ∷ parts) (child_or_new (get_field part fs))

  -- What is set at a path is read there.
  pub get_at-set_at :
      (part : Text) (parts : List Text) (v : Value N) (fs : Fields N)
      → get_at (part ∷ parts) (set_at (part ∷ parts) v fs) ≡ v
  unfolding get_at set_at
  get_at-set_at part [] v fs = get_field-set_field_self part v fs
  get_at-set_at part (next ∷ parts) v fs =
      rw get_field-set_field_self (get_at-set_at next parts v (child_or_new (get_field part fs)))

-- The paths part ways at some position, so that neither leads through the other.
abbrev pub Diverge : List Text → List Text → Type 0
Diverge [] qs = ⊥
Diverge (p ∷ ps) [] = ⊥
Diverge (p ∷ ps) (q ∷ qs) = (text_eq p q ≡ false) ⊎ ((p ≡ q) × Diverge ps qs)

module _ {N : Type 0} where
  pub get_at-cons :
      (q : Text) (qs : List Text) (fs gs : Fields N)
      → get_field q fs ≡ get_field q gs
      → get_at (q ∷ qs) fs ≡ get_at (q ∷ qs) gs
  unfolding get_at
  get_at-cons q [] fs gs e = e
  get_at-cons q (r ∷ rs) fs gs e = rw e

  -- a write at one field leaves the paths through another
  set_field-elsewhere :
      (p q : Text) (qs : List Text) (v : Value N) (fs : Fields N)
      → text_eq p q ≡ false
      → get_at (q ∷ qs) (set_field p v fs) ≡ get_at (q ∷ qs) fs
  set_field-elsewhere p q qs v fs e =
      get_at-cons q qs (set_field p v fs) fs (rw (get_field-set_field, e))

  -- What is set at a path leaves every path that parts ways with it.
  pub get_at-set_at_ne :
      (ps qs : List Text) (v : Value N) (fs : Fields N)
      → Diverge ps qs
      → get_at qs (set_at ps v fs) ≡ get_at qs fs
  unfolding set_at get_at
  get_at-set_at_ne [] qs v fs d = absurd d
  get_at-set_at_ne (p ∷ ps) [] v fs d = absurd d
  get_at-set_at_ne (p ∷ []) (q ∷ qs) v fs (inl e) = set_field-elsewhere p q qs v fs e
  get_at-set_at_ne (p ∷ []) (q ∷ qs) v fs (inr (e, d)) = absurd d
  get_at-set_at_ne (p ∷ p' ∷ ps) (q ∷ qs) v fs (inl e) = set_field-elsewhere p q qs _ fs e
  get_at-set_at_ne (p ∷ p' ∷ ps) (q ∷ []) v fs (inr (e, d)) = absurd d
  get_at-set_at_ne (p ∷ p' ∷ ps) (q ∷ q' ∷ qs) v fs (inr (e, d)) =
      rw (e, get_field-set_field_self)
        (get_at-set_at_ne (p' ∷ ps) (q' ∷ qs) v (child_or_new (get_field q fs)) d)

  get_at-end :
      (q : Text) (qs : List Text) (fs : Fields N) → fs ≡ end → get_at (q ∷ qs) fs ≡ undefined
  unfolding get_at get_field
  get_at-end q [] fs e = rw e
  get_at-end q (r ∷ rs) fs e = get_at-end r rs (child_or_new (get_field q fs)) (rw e)

  no_object : (v : Value N) → as_object v ≡ none → child_or_new v ≡ end
  no_object undefined e = refl
  no_object null e = refl
  no_object (bool b) e = refl
  no_object (num n) e = refl
  no_object (str s) e = refl
  no_object (arr xs) e = refl
  no_object (obj fs) e = cc

  an_object : (v : Value N) (fs : Fields N) → as_object v ≡ some fs → v ≡ obj fs
  an_object undefined fs e = cc
  an_object null fs e = cc
  an_object (bool b) fs e = cc
  an_object (num n) fs e = cc
  an_object (str s) fs e = cc
  an_object (arr xs) fs e = cc
  an_object (obj gs) fs e = cc

  pub unset_at-some :
      (p p' : Text) (ps : List Text) (fs child : Fields N)
      → as_object (get_field p fs) ≡ some child
      → unset_at (p ∷ p' ∷ ps) fs ≡ set_field p (obj (unset_at (p' ∷ ps) child)) fs
  unfolding unset_at
  unset_at-some p p' ps fs child e = rw (e, unset_at)

  pub unset_at-none :
      (p p' : Text) (ps : List Text) (fs : Fields N)
      → as_object (get_field p fs) ≡ none
      → unset_at (p ∷ p' ∷ ps) fs ≡ fs
  unfolding unset_at
  unset_at-none p p' ps fs e = rw (e, unset_at)

  -- What is unset at a path is not there any more.
  pub get_at-unset_at :
      (part : Text) (parts : List Text) (fs : Fields N)
      → get_at (part ∷ parts) (unset_at (part ∷ parts) fs) ≡ undefined
  unfolding get_at
  get_at-unset_at p [] fs =
      unfold get_at unset_at in rw get_field-delete_field (rw (text_eq_refl p))
  get_at-unset_at p (p' ∷ ps) fs = elim (Option-cases (as_object (get_field p fs))) [
    | inl e ↦
        rw (unset_at-none p p' ps fs e)
          (get_at-end p' ps (child_or_new (get_field p fs)) (no_object (get_field p fs) e))
    | inr (child, e) ↦
        rw (unset_at-some p p' ps fs child e)
          (rw get_field-set_field_self (get_at-unset_at p' ps child))
  ]

  delete_field-elsewhere :
      (p q : Text) (qs : List Text) (fs : Fields N)
      → text_eq p q ≡ false
      → get_at (q ∷ qs) (delete_field p fs) ≡ get_at (q ∷ qs) fs
  delete_field-elsewhere p q qs fs e =
      get_at-cons q qs (delete_field p fs) fs (rw (get_field-delete_field, e))

  -- What is unset at a path leaves every path that parts ways with it.
  pub get_at-unset_at_ne :
      (ps qs : List Text) (fs : Fields N)
      → Diverge ps qs
      → get_at qs (unset_at ps fs) ≡ get_at qs fs
  get_at-unset_at_ne [] qs fs d = absurd d
  get_at-unset_at_ne (p ∷ ps) [] fs d = absurd d
  get_at-unset_at_ne (p ∷ []) (q ∷ qs) fs (inl e) =
      unfold unset_at in delete_field-elsewhere p q qs fs e
  get_at-unset_at_ne (p ∷ []) (q ∷ qs) fs (inr (e, d)) = absurd d
  get_at-unset_at_ne (p ∷ p' ∷ ps) (q ∷ qs) fs d =
      elim (Option-cases (as_object (get_field p fs))) [
        | inl e ↦ rw (unset_at-none p p' ps fs e)
        | inr (child, e) ↦
            rw (unset_at-some p p' ps fs child e)
              (inside child e qs d (λ ws k. get_at-unset_at_ne (p' ∷ ps) ws child k))
      ]
    where
      inside :
          (child : Fields N)
          → as_object (get_field p fs) ≡ some child
          → (ws : List Text) → Diverge (p ∷ p' ∷ ps) (q ∷ ws)
          → ((us : List Text)
              → Diverge (p' ∷ ps) us
              → get_at us (unset_at (p' ∷ ps) child) ≡ get_at us child)
          → get_at (q ∷ ws) (set_field p (obj (unset_at (p' ∷ ps) child)) fs) ≡ get_at (q ∷ ws) fs
      inside child e ws (inl n) ih = set_field-elsewhere p q ws _ fs n
      inside child e [] (inr (n, d)) ih = absurd d
      inside child e (w ∷ ws) (inr (n, d)) ih =
          let at_q : get_field q fs ≡ obj child = rw n at (an_object (get_field p fs) child e) in
          unfold get_at in rw (n, get_field-set_field_self, at_q) (ih (w ∷ ws) d)
