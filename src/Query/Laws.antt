-- ===== src/Query/Laws.antt =====
-- What criteria mean: src/query.js.
use objy.Common.{◌≡◌, refl, ap, ◌∙◌, Bool, true, false, ◌&&◌, ◌||◌, Bool-cases, inl, inr}
use objy.Common.Text.{Text, text, text_eq}
use objy.Common.Dict.{get}
use objy.Value.{
  Value, undefined, null, bool, num, str, arr, obj, Items, nil, item, Fields, end, field,
}
use objy.Query.{Js}
use objy.Query.Match.{matches_query, matches_entries, every_item, some_item, matches_entry}
use objy.Query.Operators.{is_control, logic_of}
use objy.Query.Controls.{entries_where, strip_query_controls}

and_split : (a b : Bool) → a && b ≡ (a && true) && b
and_split true b = refl
and_split false b = refl

pub and_last : (a : Bool) → a && true ≡ a
and_last true = refl
and_last false = refl

module _ {N : Type 0} (js : Js N) where
  abbrev one_entry : Value N → (k : Text) → Value N → Bool
  one_entry o k v = matches_query js o (obj (field k v end))

  -- an entry counts by itself
  matches_query-field :
      (o : Value N) (k : Text) (v : Value N) (fs : Fields N)
      → matches_query js o (obj (field k v fs)) ≡ one_entry o k v && matches_query js o (obj fs)
  unfolding matches_query
  matches_query-field o k v fs = elim (Bool-cases (is_control k)) [
    | inl e ↦ rw e refl
    | inr e ↦ rw e (and_split _ (matches_entries js o fs))
  ]

  control_entry :
      (o : Value N) (k : Text) (v : Value N) → is_control k ≡ true → one_entry o k v ≡ true
  unfolding matches_query
  control_entry o k v e = rw e refl

  pub matches_query-end : (o : Value N) → matches_query js o (obj end) ≡ true
  unfolding matches_query
  matches_query-end o = refl

  entries_where-matches :
      (o : Value N) (fs : Fields N)
      → matches_query js o (obj (entries_where false fs)) ≡ matches_query js o (obj fs)
  unfolding entries_where
  entries_where-matches o end = refl
  entries_where-matches o (field k v fs) = elim (Bool-cases (is_control k)) [
    | inl e ↦
        rw (e, matches_query-field o k v fs, control_entry o k v e) (entries_where-matches o fs)
    | inr e ↦
        rw
          (
            e,
            matches_query-field o k v fs,
            matches_query-field o k v (entries_where false fs),
            entries_where-matches o fs,
          )
          refl
  ]

  -- A query matches the same objects as what stripQueryControls leaves of it.
  pub matches_query-strip_query_controls :
      (o q : Value N) → matches_query js o (strip_query_controls q) ≡ matches_query js o q
  unfolding strip_query_controls matches_query
  matches_query-strip_query_controls o (obj fs) = entries_where-matches o fs
  matches_query-strip_query_controls o undefined = refl
  matches_query-strip_query_controls o null = refl
  matches_query-strip_query_controls o (bool b) = refl
  matches_query-strip_query_controls o (num n) = refl
  matches_query-strip_query_controls o (str s) = refl
  matches_query-strip_query_controls o (arr xs) = refl

  abbrev pub all_of : Items N → Value N
  all_of cs = obj (field (text "$and") (arr cs) end)

  abbrev pub one_of : Items N → Value N
  one_of cs = obj (field (text "$or") (arr cs) end)

  pub matches_query-all_of :
      (o : Value N) (cs : Items N) → matches_query js o (all_of cs) ≡ every_item js o cs
  unfolding matches_query is_control matches_entry text_eq logic_of get
  matches_query-all_of o cs = and_last (every_item js o cs)

  pub matches_query-one_of :
      (o : Value N) (cs : Items N) → matches_query js o (one_of cs) ≡ some_item js o cs
  unfolding matches_query is_control matches_entry text_eq logic_of get
  matches_query-one_of o cs = and_last (some_item js o cs)

  pub some_item-cons :
      (o c : Value N) (cs : Items N)
      → some_item js o (item c cs) ≡ matches_query js o c || some_item js o cs
  unfolding matches_query
  some_item-cons o c cs = refl

  pub some_item-nil : (o : Value N) → some_item js o nil ≡ false
  unfolding matches_query
  some_item-nil o = refl

  -- two criteria under `$and`
  pub matches_query-both :
      (o c d : Value N)
      → matches_query js o (all_of (item c (item d nil)))
        ≡ matches_query js o c && matches_query js o d
  unfolding matches_query
  matches_query-both o c d =
      matches_query-all_of o (item c (item d nil))
      ∙ ap (λ b. matches_query js o c && b) (and_last _)
