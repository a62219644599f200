-- ===== src/Permissions/Read.antt =====
-- The query that a read is narrowed to, against the check of a single object: src/permissions.js.
use objy.Common.{
  ◌≡◌, refl, sym, ap, ◌∙◌, Bool, true, false, ◌&&◌, ◌||◌, Option, none, some, List, [], ◌∷◌, any,
  filter_by, Bool-cases, inl, inr, if◌then◌else◌, arith,
}
use objy.Common.Text.{Text, text}
use objy.Value.{Value, obj, Fields, end, field, nil}
use objy.Query.{Js}
use objy.Query.Strings.{truthy}
use objy.Query.Match.{matches_query, some_item}
use objy.Query.Laws.{
  matches_query-end, matches_query-both, matches_query-one_of, some_item-cons, some_item-nil,
  and_last,
}
use objy.Permissions.{
  Rule, read, has_collection_permission, rules_for, permits, is_allow_all_rule,
  matches_permission_query, can, can_read, read_rules, items_of, auth_query, merged,
  merge_read_permission_query,
}

any-filter_by :
    {A : Type 0} (p q : A → Bool) (xs : List A) → any (λ x. p x && q x) xs ≡ any q (filter_by p xs)
any-filter_by p q [] = refl
any-filter_by p q (x ∷ xs) = elim (Bool-cases (p x)) [
  | inl e ↦ rw (e, any-filter_by p q xs) refl
  | inr e ↦ rw (e, any-filter_by p q xs) refl
]

if_or : (a b : Bool) → (if a then true else b) ≡ a || b
if_or true b = refl
if_or false b = refl

or_false : (a : Bool) → a ≡ a || false
or_false true = refl
or_false false = refl

and_false : (a : Bool) → false ≡ a && false
and_false true = refl
and_false false = refl

module _ {N : Type 0} (js : Js N) where
  -- the objects that a merged query lets through; a denied read lets none through
  abbrev pub lets_through : Option (Value N) → Value N → Bool
  lets_through none o = false
  lets_through (some q) o = matches_query js o q

  allowed_matches :
      (o : Value N) (rules : List (Rule N))
      → any (is_allow_all_rule js) rules ≡ true
      → any (matches_permission_query js o) rules ≡ true
  unfolding matches_permission_query
  allowed_matches o [] e = e
  allowed_matches o (r ∷ rules) e = elim (Bool-cases (is_allow_all_rule js r)) [
    | inl f ↦ rw f refl
    | inr f ↦ rw f (ground (arith, allowed_matches o rules (rw f at e)))
  ]

  ruled_matches :
      (o : Value N) (rules : List (Rule N))
      → truthy js o ≡ true
      → any (is_allow_all_rule js) rules ≡ false
      → any (matches_permission_query js o) rules ≡ some_item js o (items_of js rules)
  unfolding matches_permission_query items_of
  ruled_matches o [] t e = sym (some_item-nil js o)
  ruled_matches o (r ∷ rules) t e = elim (Bool-cases (is_allow_all_rule js r)) [
    | inl f ↦ ground (arith, rw f at e)
    | inr f ↦
        rw
          (
            f,
            t,
            ruled_matches o rules t (rw f at e),
            some_item-cons js o (obj r.query) (items_of js rules),
          )
          (if_or (matches_query js o (obj r.query)) _)
  ]

  auth_matches :
      (o : Value N) (r : Rule N) (rules : List (Rule N))
      → matches_query js o (auth_query js (r ∷ rules)) ≡ some_item js o (items_of js (r ∷ rules))
  unfolding auth_query items_of
  auth_matches o r [] = rw (some_item-cons js o (obj r.query) nil, some_item-nil js o) (or_false _)
  auth_matches o r (s ∷ rules) = matches_query-one_of js o (items_of js (r ∷ s ∷ rules))

  merged-lets :
      (o : Value N) (fs : Fields N) (rules : List (Rule N))
      → lets_through (merged js rules (obj fs)) o
        ≡ matches_query js o (obj fs) && some_item js o (items_of js rules)
  unfolding items_of
  merged-lets o fs [] = rw (some_item-nil js o) (and_false _)
  merged-lets o end (r ∷ rules) = rw (matches_query-end js o) (auth_matches o r rules)
  merged-lets o (field k v fs) (r ∷ rules) =
      matches_query-both js o (obj (field k v fs)) (auth_query js (r ∷ rules))
      ∙ ap (λ b. matches_query js o (obj (field k v fs)) && b) (auth_matches o r rules)

  -- The query that a read by a user is narrowed to matches an object of a collection exactly when
  -- the object matches the criteria of the read and the user can read it; if the read is denied,
  -- the user can read no object that the criteria match.
  pub merge_read_permission_query-can_read :
      (user o : Value N) (fs : Fields N) (collection : Text)
      → truthy js o ≡ true
      → lets_through (merge_read_permission_query js (obj fs) user collection) o
        ≡ matches_query js o (obj fs) && can_read js user o collection
  unfolding merge_read_permission_query can_read read_rules can truthy
  merge_read_permission_query-can_read user o fs collection t =
      elim (Bool-cases (has_collection_permission js user (text "read") collection)) [
        | inl e ↦ rw e (sym (and_last _))
        | inr e ↦
            rw
              (
                e,
                any-filter_by (permits js read) (matches_permission_query js o) (rules_for js user),
              )
              (go (filter_by (permits js read) (rules_for js user)))
      ]
    where
      go :
          (rules : List (Rule N))
          → lets_through
              (if any (is_allow_all_rule js) rules then some (obj fs) else merged js rules (obj fs))
              o
            ≡ matches_query js o (obj fs) && any (matches_permission_query js o) rules
      go rules = elim (Bool-cases (any (is_allow_all_rule js) rules)) [
        | inl f ↦ rw (f, allowed_matches o rules f) (sym (and_last _))
        | inr f ↦ rw (f, ruled_matches o rules t f) (merged-lets o fs rules)
      ]
