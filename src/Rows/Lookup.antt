-- ===== src/Rows/Lookup.antt =====
-- What is read of the rows after one was rebuilt or removed: src/object-store.js.
use objy.Common.{
  ◌-◌, ◌≡◌, refl, sym, ap, ◌∙◌, subst, leb, Bool, Option, none, some, List, [], ◌∷◌, if◌then◌else◌,
  Bool-cases, inl, inr, arith,
}
use objy.Common.Text.{Text, text_eq, text_eq_iff}
use objy.Common.Dict.{get, put, del, get-put, get-del}
use objy.Query.{Js}
use objy.Rows.{Pooled, Directory, release, release_all}
use objy.Rows.Candidates.{some_same}
use objy.Rows.Store.{Row, RowStore, string_key, remove_object, rebuild, read}
use objy.Rows.Faithful.{IsFaithful, store_fields-Keeps}
use objy.Value.{Fields, end, field, str}

module _ {N : Type 0} where
  release-IsFaithful : (key : Text) (d : Directory N) → IsFaithful d → IsFaithful (release key d)
  unfolding release
  release-IsFaithful key d h = go (get key d.pool) refl
    where
      kept :
          (t : Text) (q : Pooled N)
          → (if text_eq key (string_key t) then none else get (string_key t) d.pool) ≡ some q
          → get (string_key t) d.pool ≡ some q
      kept t q g = elim (Bool-cases (text_eq key (string_key t))) [
        | inl f ↦ ground (arith, rw f at g)
        | inr f ↦ rw f at g
      ]

      counted :
          (t : Text) (p q : Pooled N)
          → get key d.pool ≡ some p
          → (if text_eq key (string_key t)
              then some (record p { refs = p.refs - 1 })
              else get (string_key t) d.pool)
            ≡ some q
          → q.value ≡ str t
      counted t p q e g = elim (Bool-cases (text_eq key (string_key t))) [
        | inl f ↦
            sym (ap (λ x. x.value) (some_same (rw f at g)))
            ∙ h.at t p (subst (λ k. get k d.pool ≡ some p) ((text_eq_iff key (string_key t)).0 f) e)
        | inr f ↦ h.at t q (rw f at g)
      ]

      go :
          (o : Option (Pooled N))
          → get key d.pool ≡ o
          → IsFaithful (elim o [
            | none ↦ d
            | some p ↦
                if leb (p.refs - 1) 0
                then record d { pool = del key d.pool }
                else record d { pool = put key (record p { refs = p.refs - 1 }) d.pool }
          ])
      go none e = h
      go (some p) e = elim (Bool-cases (leb (p.refs - 1) 0)) [
        | inl f ↦ rw f (record {
          plain = h.plain;
          at = λ t q g. h.at t q (kept t q (sym (get-del key (string_key t) d.pool) ∙ g));
        })
        | inr f ↦ rw f (record {
          plain = h.plain;
          at = λ t q g.
              counted t p q e
                (sym (get-put key (string_key t) (record p { refs = p.refs - 1 }) d.pool) ∙ g);
        })
      ]

  release_all-IsFaithful :
      (refs : List Text) (d : Directory N) → IsFaithful d → IsFaithful (release_all refs d)
  unfolding release_all
  release_all-IsFaithful [] d h = h
  release_all-IsFaithful (key ∷ refs) d h =
      release_all-IsFaithful refs (release key d) (release-IsFaithful key d h)

  remove_object-IsFaithful :
      (id : Text) (s : RowStore N)
      → IsFaithful s.value_directory
      → IsFaithful (remove_object id s).value_directory
  unfolding remove_object
  remove_object-IsFaithful id s h = go (get id s.rows)
    where
      go :
          (o : Option (Row N))
          → IsFaithful
              (elim o as (λ _. RowStore N) [
                | none ↦ s
                | some row ↦ record s {
                  rows = del id s.rows;
                  value_directory = release_all row.refs s.value_directory;
                }
              ]).value_directory
      go none = h
      go (some row) = release_all-IsFaithful row.refs s.value_directory h

  value_at : Option (Row N) → Option (Fields N)
  value_at o = elim o [ none ↦ none | some row ↦ some row.value ]

  read-remove_object :
      (id other : Text) (s : RowStore N)
      → read other (remove_object id s) ≡ (if text_eq id other then none else read other s)
  unfolding read remove_object value_at
  read-remove_object id other s = go (get id s.rows) refl
    where
      go :
          (o : Option (Row N))
          → get id s.rows ≡ o
          → value_at (
              get other
                (elim o as (λ _. RowStore N) [
                  | none ↦ s
                  | some row ↦ record s {
                    rows = del id s.rows;
                    value_directory = release_all row.refs s.value_directory;
                  }
                ]).rows)
            ≡ (if text_eq id other then none else value_at (get other s.rows))
      go none e = elim (Bool-cases (text_eq id other)) [
        | inl f ↦
            ap value_at (subst (λ k. get k s.rows ≡ none) ((text_eq_iff id other).0 f) e)
            ∙ rw f refl
        | inr f ↦ rw f refl
      ]
      go (some row) e =
          ap value_at (get-del id other s.rows)
          ∙ (elim (Bool-cases (text_eq id other)) [ inl f ↦ rw f refl | inr f ↦ rw f refl ])

  read-put :
      (id other : Text) (row : Row N) (d : Directory N) (s : RowStore N)
      → read other (record s { rows = put id row s.rows; value_directory = d })
        ≡ (if text_eq id other then some row.value else read other s)
  unfolding read value_at
  read-put id other row d s =
      ap value_at (get-put id other row s.rows)
      ∙ (elim (Bool-cases (text_eq id other)) [ inl f ↦ rw f refl | inr f ↦ rw f refl ])

  -- an object without a field has no row
  abbrev pub row_of : Fields N → Option (Fields N)
  row_of end = none
  row_of (field k v fs) = some (field k v fs)

module _ {N : Type 0} (js : Js N) where
  -- If the pool of the directory holds strings only, each under its own key, and structured values
  -- are not to be shared, then after an object is rebuilt from its fields, that object reads as
  -- exactly those fields, or as missing where there are none, every other object reads as before,
  -- and the pool is still such, whichever strings the rows share and release.
  pub read-rebuild :
      (id : Text) (live : Fields N) (trusted : Bool) (s : RowStore N)
      → IsFaithful s.value_directory
      → ((other : Text)
          → read other (rebuild js id live trusted s)
            ≡ (if text_eq id other then row_of live else read other s))
        × IsFaithful (rebuild js id live trusted s).value_directory
  unfolding rebuild
  read-rebuild id end trusted s h =
      ((λ other. read-remove_object id other s), remove_object-IsFaithful id s h)
  read-rebuild id (field k v fs) trusted s h =
      let cleared = remove_object id s in
      let kept =
        store_fields-Keeps js (field k v fs) [] trusted cleared.value_directory
          (remove_object-IsFaithful id s h) in
      (
        (λ other. read-put id other _ _ cleared ∙ elim (Bool-cases (text_eq id other)) [
          | inl f ↦ rw f (ap some kept.0)
          | inr f ↦ rw f (read-remove_object id other s ∙ rw f refl)
        ]),
        kept.1,
      )
