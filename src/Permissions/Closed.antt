-- ===== src/Permissions/Closed.antt =====
-- Permissions that are not well formed permit nothing: src/permissions.js.
use objy.Common.{◌≡◌, refl, Bool, true, false, ◌||◌, List, [], ◌∷◌, Member, inl, inr, arith}
use objy.Common.Text.{Text, text}
use objy.Common.Fallible.{Result, ok, err, ◌>>=◌}
use objy.Value.{Value, arr, Items}
use objy.Query.{Js}
use objy.Query.Key.{member}
use objy.Query.Compare.{list_of}
use objy.Permissions.{
  Rule, Operation, normalize_rule, normalize_rules, normalize_permissions, is_free,
  has_collection_permission, rules_or_none, rules_for, collection_action, can,
}

failed : {E A : Type 0} → Result E A → Bool
failed (ok a) = false
failed (err e) = true

or_nothing : (a : Bool) → a || false ≡ a
or_nothing true = refl
or_nothing false = refl

failed-bind :
    {E A B : Type 0} (r : Result E A) (f : A → Result E B)
    → ((a : A) → failed (f a) ≡ true)
    → failed (r >>= f) ≡ true
unfolding failed
failed-bind (ok a) f h = h a
failed-bind (err e) f h = refl

failed-first :
    {E A B : Type 0} (r : Result E A) (f : A → Result E B)
    → failed r ≡ true
    → failed (r >>= f) ≡ true
unfolding failed
failed-first (ok a) f h = ground arith
failed-first (err e) f h = refl

failed-err : {E A : Type 0} (r : Result E A) (e : E) → r ≡ err e → failed r ≡ true
unfolding failed
failed-err r e h = rw h refl

module _ {N : Type 0} (js : Js N) where
  normalize_rules-failed :
      (v : Value N) (e : Text) (vs : List (Value N))
      → Member v vs
      → normalize_rule js v ≡ err e
      → failed (normalize_rules js vs) ≡ true
  unfolding normalize_rules
  normalize_rules-failed v e [] m h = absurd m
  normalize_rules-failed v e (x ∷ xs) (inl p) h =
      failed-first (normalize_rule js x) _ (failed-err (normalize_rule js x) e (rw p at h))
  normalize_rules-failed v e (x ∷ xs) (inr m) h =
      failed-bind (normalize_rule js x) _
        (λ r. failed-first (normalize_rules js xs) _ (normalize_rules-failed v e xs m h))

  rules_of_failed : (r : Result Text (List (Rule N))) → failed r ≡ true → rules_or_none js r ≡ []
  unfolding failed
  rules_of_failed (ok rules) h = ground arith
  rules_of_failed (err e) h = refl

  -- If one rule of a user, who is neither an admin nor absent, is refused, then whatever the other
  -- rules say the user can do only what a grant on the whole collection allows.
  pub can-refused_rule :
      (user object v : Value N) (operation : Operation) (collection e : Text) (rules : Items N)
      → is_free js user ≡ false
      → member js (text "permissions") user ≡ arr rules
      → Member v (list_of rules)
      → normalize_rule js v ≡ err e
      → can js user operation object collection
        ≡ has_collection_permission js user (collection_action operation) collection
  unfolding can rules_for normalize_permissions
  can-refused_rule user object v operation collection e rules f p m h =
      rw
        (
          f,
          p,
          rules_of_failed (normalize_rules js (list_of rules))
              (normalize_rules-failed v e (list_of rules) m h),
        )
        (or_nothing _)
