-- ===== src/Rows/Faithful.antt =====
-- With the default options the directory shares strings only, and every value is read as it was
-- stored: src/object-store.js.
use objy.Common.{
  ◌+◌, ◌≡◌, refl, sym, ap, ap₂, ◌∙◌, subst, ltb, Bool, true, false, Option, none, some, [], ◌++◌,
  length, if◌then◌else◌, Bool-cases, inl, inr,
}
use objy.Common.Text.{Text, text, text_eq, text_eq_refl, text_eq_iff}
use objy.Common.Dict.{get, put, get-put}
use objy.Query.{Js}
use objy.Rows.{Pooled, Directory, should_promote, delete_candidate}
use objy.Rows.Candidates.{some_same}
use objy.Rows.Store.{
  Stored, string_key, shared_or, share, keyed, key_for, is_kept, count_items, count_fields, store,
  store_items, store_fields,
}
use objy.Value.{
  Value, undefined, null, bool, num, str, arr, obj, Items, nil, item, Fields, end, field,
}
use objy.Rows.Same.{Same, delete_candidate-Same, should_promote-Same}

string_key-injective : (a b : Text) → string_key a ≡ string_key b → a ≡ b
unfolding string_key text_eq
string_key-injective a b e =
    (text_eq_iff a b).0
      (subst (λ t. text_eq (string_key a) t ≡ true) e (text_eq_refl (string_key a)))

module _ {N : Type 0} where
  -- only strings are shared, each under its own key
  pub record IsFaithful (d : Directory N) : Type 0 where
    pub plain : d.options.pool_structured_values ≡ false
    pub at : (s : Text) (p : Pooled N) → get (string_key s) d.pool ≡ some p → p.value ≡ str s

  pub Same-IsFaithful : (d d' : Directory N) → Same d d' → IsFaithful d → IsFaithful d'
  Same-IsFaithful d d' s h = record {
    plain = ap (λ o. o.pool_structured_values) s.options ∙ h.plain;
    at = λ t p e. h.at t p (sym (ap (get (string_key t)) s.pool) ∙ e);
  }

  put-IsFaithful :
      (d : Directory N) (s : Text) (p : Pooled N)
      → p.value ≡ str s
      → IsFaithful d
      → IsFaithful (record d { pool = put (string_key s) p d.pool })
  put-IsFaithful d s p v h = record {
    plain = h.plain;
    at = λ t q e. elim (Bool-cases (text_eq (string_key s) (string_key t))) [
      | inl f ↦
          sym (
            ap (λ x. x.value)
              (some_same (rw f at (sym (get-put (string_key s) (string_key t) p d.pool) ∙ e))))
          ∙ v
          ∙ ap str (string_key-injective s t ((text_eq_iff (string_key s) (string_key t)).0 f))
      | inr f ↦ h.at t q (rw f at (sym (get-put (string_key s) (string_key t) p d.pool) ∙ e))
    ];
  }

  -- what is stored is the value, and the directory stays faithful
  abbrev pub Keeps : {V : Type 0} → V → Stored V N → Type 0
  Keeps v st = (st.value ≡ v) × IsFaithful st.directory

  -- what share answers for a value
  abbrev IsHit : Value N → Option (Value N × Text) × Directory N → Type 0
  IsHit v (none, d) = IsFaithful d
  IsHit v (some (w, key), d) = (w ≡ v) × IsFaithful d

  share-IsHit :
      (s path : Text) (d : Directory N)
      → IsFaithful d
      → IsHit (str s) (share (some (string_key s)) (str s) path d)
  unfolding share
  share-IsHit s path d h = found (get (string_key s) d.pool) refl
    where
      promote :
          (promoted : Bool) (d' : Directory N)
          → IsFaithful d'
          → IsHit (str s) (
              if promoted
              then (
                some (str s, string_key s),
                delete_candidate path (string_key s) (record d' {
                  pool = put (string_key s) (record { value = str s; refs = 1 }) d'.pool;
                }),
              )
              else (none, d'))
      promote false d' h' = h'
      promote true d' h' = (
        refl,
        Same-IsFaithful _ _ (delete_candidate-Same path (string_key s) _)
            (put-IsFaithful d' s (record { value = str s; refs = 1 }) refl h'),
      )

      found :
          (o : Option (Pooled N))
          → get (string_key s) d.pool ≡ o
          → IsHit (str s) (elim o [
            | some p ↦ (
              some (p.value, string_key s),
              record d { pool = put (string_key s) (record p { refs = p.refs + 1 }) d.pool },
            )
            | none ↦
                let (promoted, d') = should_promote path (string_key s) d in
                if promoted
                then (
                  some (str s, string_key s),
                  delete_candidate path (string_key s) (record d' {
                    pool = put (string_key s) (record { value = str s; refs = 1 }) d'.pool;
                  }),
                )
                else (none, d')
          ])
      found (some p) e =
          (h.at s p e, put-IsFaithful d s (record p { refs = p.refs + 1 }) (h.at s p e) h)
      found none e =
          promote (should_promote path (string_key s) d).0 (should_promote path (string_key s) d).1
            (Same-IsFaithful d _ (should_promote-Same path (string_key s) d) h)

  shared_or-Keeps :
      (v : Value N) (hit : Option (Value N × Text) × Directory N)
      → IsHit v hit
      → Keeps v (shared_or hit (record { value = v; refs = []; directory = hit.1 }))
  shared_or-Keeps v (none, d) h = (refl, h)
  shared_or-Keeps v (some (w, key), d) h = h

module _ {N : Type 0} (js : Js N) where
  keyed_plain_arr : (xs : Items N) (d : Directory N) → IsFaithful d → keyed js (arr xs) d ≡ none
  unfolding key_for
  keyed_plain_arr xs d h = elim (Bool-cases d.options.enabled) [
    | inl e ↦ rw (e, h.plain) refl
    | inr e ↦ rw e refl
  ]

  keyed_plain_obj : (fs : Fields N) (d : Directory N) → IsFaithful d → keyed js (obj fs) d ≡ none
  unfolding key_for
  keyed_plain_obj fs d h = elim (Bool-cases d.options.enabled) [
    | inl e ↦ rw (e, h.plain) refl
    | inr e ↦ rw e refl
  ]

  share-none : (v : Value N) (path : Text) (d : Directory N) → share none v path d ≡ (none, d)
  unfolding share
  share-none v path d = refl

  keyed_str :
      (s path : Text) (d : Directory N)
      → IsFaithful d
      → IsHit (str s) (share (keyed js (str s) d) (str s) path d)
  unfolding key_for
  keyed_str s path d h = go d.options.enabled (ltb d.options.max_string_length (length s))
    where
      go :
          (a b : Bool)
          → IsHit
              (str s)
              (share (if a then if b then none else some (string_key s) else none) (str s) path d)
      go false b = rw (share-none (str s) path d) h
      go true true = rw (share-none (str s) path d) h
      go true false = share-IsHit s path d h

  mutual
    unfolding store

    store-Keeps :
        (v : Value N) (path : Text) (trusted : Bool) (d : Directory N)
        → IsFaithful d
        → Keeps v (store js v path trusted d)
    store-Keeps (arr xs) path trusted d h =
        let k = store_items-Keeps xs (path ++ text "[]") trusted d h in
        rw (keyed_plain_arr xs d h) (elim (Bool-cases (is_kept js trusted (count_items xs) d)) [
          | inl e ↦ rw e (refl, h)
          | inr e ↦ rw e (ap arr k.0, k.1)
        ])
    store-Keeps (obj fs) path trusted d h =
        let k = store_fields-Keeps fs (path ++ text ".") trusted d h in
        rw (keyed_plain_obj fs d h) (elim (Bool-cases (is_kept js trusted (count_fields fs) d)) [
          | inl e ↦ rw e (refl, h)
          | inr e ↦ rw e (ap obj k.0, k.1)
        ])
    store-Keeps (str s) path trusted d h =
        shared_or-Keeps (str s) (share (keyed js (str s) d) (str s) path d) (keyed_str s path d h)
    store-Keeps undefined path trusted d h = (refl, h)
    store-Keeps null path trusted d h = (refl, h)
    store-Keeps (bool b) path trusted d h = (refl, h)
    store-Keeps (num n) path trusted d h = (refl, h)

    store_items-Keeps :
        (xs : Items N) (path : Text) (trusted : Bool) (d : Directory N)
        → IsFaithful d
        → Keeps xs (store_items js xs path trusted d)
    store_items-Keeps nil path trusted d h = (refl, h)
    store_items-Keeps (item v xs) path trusted d h =
        let first = store-Keeps v path trusted d h in
        let rest =
          store_items-Keeps xs path trusted (store js v path trusted d).directory first.1 in
        (ap₂ item first.0 rest.0, rest.1)

    pub store_fields-Keeps :
        (fs : Fields N) (path : Text) (trusted : Bool) (d : Directory N)
        → IsFaithful d
        → Keeps fs (store_fields js fs path trusted d)
    store_fields-Keeps end path trusted d h = (refl, h)
    store_fields-Keeps (field k v fs) path trusted d h =
        let first = store-Keeps v (path ++ k) trusted d h in
        let rest =
          store_fields-Keeps fs path trusted (store js v (path ++ k) trusted d).directory first.1 in
        (ap₂ (field k) first.0 rest.0, rest.1)
