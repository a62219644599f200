-- ===== src/Permissions.antt =====
-- src/permissions.js: the rules of a user and what they permit. A user is the value that its token
-- holds; a denied read is none.
pub mod Read
pub mod Closed
use objy.Common.{
  ℕ, ◌==◌, Bool, true, false, not, ◌&&◌, ◌||◌, Option, none, some, List, [], ◌∷◌, ◌++◌, map,
  if◌then◌else◌, any, filter_by,
}
use objy.Common.Text.{Text, text, text_eq}
use objy.Common.Fallible.{Result, ok, err, ◌>>=◌, ◌>>◌, reject_if}
use objy.Value.{
  Value, undefined, null, bool, num, str, arr, obj, Items, nil, item, Fields, end, field, get_field,
}
use objy.Query.{Js}
use objy.Query.Strings.{truthy}
use objy.Query.Key.{member}
use objy.Query.Compare.{strict_eq, list_of}
use objy.Query.Operators.{is_control}
use objy.Query.Match.{matches_query}

pub record Rule (N : Type 0) : Type 0 where
  pub name : Option Text
  pub query : Fields N
  pub perm : Text

pub data Operation : Type 0 where
  create read update delete : Operation

-- OP_CODES, as the unit of the letter
unfoldable pub code_of : Operation → ℕ
code_of create = 99
code_of read = 114
code_of update = 117
code_of delete = 100

-- VALID_PERMS
abbrev pub is_code : ℕ → Bool
is_code u = u == 99 || u == 114 || u == 117 || u == 100

-- the loop over the letters
unfoldable pub letters : Text → Text → Text
letters seen [] = []
letters seen (u ∷ us) =
    let passed = letters seen us in
    let kept = letters (u ∷ seen) us in
    if not (is_code u) || any (λ v. v == u) seen then passed else u ∷ kept

abbrev pub collection_action : Operation → Text
collection_action read = text "read"
collection_action o = text "write"

module _ {N : Type 0} (js : Js N) where
  -- normalizePerm(value)
  abbrev perm_letters : Text → Text
  perm_letters raw = if text_eq raw (text "*") then text "*" else letters [] raw

  unfoldable pub normalize_perm : Value N → Text
  unfolding letters
  normalize_perm (str s) = perm_letters (js.to_lower (js.trim s))
  normalize_perm v = []

  unfoldable pub has_control : Fields N → Bool
  has_control end = false
  has_control (field k v fs) = is_control k || has_control fs

  abbrev rule_query : Value N → Result Text (Fields N)
  rule_query undefined = ok end
  rule_query (obj fs) =
      reject_if (has_control fs) (text "query must not include a control") >> ok fs
  rule_query v = err (text "query must be an object")

  abbrev rule_name : Value N → Option Text
  rule_name (str []) = none
  rule_name (str (u ∷ us)) = some (u ∷ us)
  rule_name v = none

  abbrev rule_with : Text → Fields N → Result Text (Option (Rule N))
  rule_with [] fs = ok none
  rule_with (u ∷ us) fs = rule_query (get_field (text "query") fs) >>= λ q.
      ok (some (record { name = rule_name (get_field (text "name") fs); query = q; perm = u ∷ us }))

  -- normalizeRule(rule, index); a rule without a letter is null
  unfoldable pub normalize_rule : Value N → Result Text (Option (Rule N))
  unfolding normalize_perm has_control get_field
  normalize_rule (obj fs) = rule_with (normalize_perm (get_field (text "perm") fs)) fs
  normalize_rule v = err (text "a rule must be an object")

  abbrev and_rule : Option (Rule N) → List (Rule N) → List (Rule N)
  and_rule none rules = rules
  and_rule (some r) rules = r ∷ rules

  unfoldable pub normalize_rules : List (Value N) → Result Text (List (Rule N))
  unfolding normalize_rule
  normalize_rules [] = ok []
  normalize_rules (v ∷ vs) =
      normalize_rule v >>= λ r. normalize_rules vs >>= λ rules. ok (and_rule r rules)

  -- normalizePermissions(permissions)
  unfoldable pub normalize_permissions : Value N → Result Text (List (Rule N))
  unfolding normalize_rules
  normalize_permissions undefined = ok []
  normalize_permissions null = ok []
  normalize_permissions (arr xs) = normalize_rules (list_of xs)
  normalize_permissions v = err (text "permissions must be an array")

  abbrev is_true : Value N → Bool
  is_true (bool b) = b
  is_true v = false

  abbrev is_text : Value N → Text → Bool
  is_text (str s) t = text_eq s t
  is_text v t = false

  -- isPermissionBypass(userOrClaims)
  unfoldable pub is_permission_bypass : Value N → Bool
  unfolding member
  is_permission_bypass user =
      is_true (member js (text "admin") user)
      || (is_true (member js (text "globalUser") user)
          && is_text (member js (text "role") user) (text "admin"))

  -- `!user || isPermissionBypass(user)`
  unfoldable pub is_free : Value N → Bool
  unfolding truthy is_permission_bypass
  is_free user = not (truthy js user) || is_permission_bypass user

  abbrev includes_name : Value N → Text → Bool
  includes_name (arr xs) collection = any (λ v. is_text v collection) (list_of xs)
  includes_name v collection = false

  -- hasCollectionPermission(user, operation, collection); no collection is the empty name
  unfoldable pub has_collection_permission : Value N → Text → Text → Bool
  unfolding member
  has_collection_permission user action [] = is_free user
  has_collection_permission user action (u ∷ us) =
      is_free user
      || includes_name (member js action (member js (text "collectionPermissions") user)) (u ∷ us)

  abbrev allow_all : List (Rule N)
  allow_all = record { name = none; query = end; perm = text "*" } ∷ []

  abbrev rules_or_none : Result Text (List (Rule N)) → List (Rule N)
  rules_or_none (ok rules) = rules
  rules_or_none (err e) = []

  -- rulesFor(user)
  unfoldable pub rules_for : Value N → List (Rule N)
  unfolding normalize_permissions
  rules_for user =
      if is_free user
      then allow_all
      else rules_or_none (normalize_permissions (member js (text "permissions") user))

  -- permits(rule, code)
  unfoldable pub permits : Operation → Rule N → Bool
  unfolding code_of
  permits operation rule =
      text_eq rule.perm (text "*") || any (λ u. u == code_of operation) rule.perm

  abbrev no_entries : Fields N → Bool
  no_entries end = true
  no_entries (field k v fs) = false

  -- isAllowAllRule(rule)
  unfoldable pub is_allow_all_rule : Rule N → Bool
  is_allow_all_rule rule = text_eq rule.perm (text "*") && no_entries rule.query

  -- matchesPermissionQuery(rule, object)
  unfoldable pub matches_permission_query : Value N → Rule N → Bool
  unfolding is_allow_all_rule truthy matches_query
  matches_permission_query object rule =
      is_allow_all_rule rule || (truthy js object && matches_query js object (obj rule.query))

  -- can(user, operation, object, collection)
  unfoldable pub can : Value N → Operation → Value N → Text → Bool
  unfolding has_collection_permission rules_for permits matches_permission_query
  can user operation object collection =
      has_collection_permission user (collection_action operation) collection
      || any (λ rule. permits operation rule && matches_permission_query object rule)
          (rules_for user)

  -- canCreate, canRead, canUpdate and canDelete
  unfoldable pub can_create : Value N → Value N → Text → Bool
  unfolding can
  can_create user object collection = can user create object collection

  unfoldable pub can_read : Value N → Value N → Text → Bool
  unfolding can
  can_read user object collection = can user read object collection

  unfoldable pub can_update : Value N → Value N → Value N → Text → Bool
  unfolding can
  can_update user before after collection =
      can user update before collection && can user update after collection

  unfoldable pub can_delete : Value N → Value N → Text → Bool
  unfolding can
  can_delete user object collection = can user delete object collection

  -- readRules(user)
  unfoldable pub read_rules : Value N → List (Rule N)
  unfolding rules_for permits
  read_rules user = filter_by (permits read) (rules_for user)

  unfoldable pub items_of : List (Rule N) → Items N
  items_of [] = nil
  items_of (r ∷ rules) = item (obj r.query) (items_of rules)

  unfoldable pub auth_query : List (Rule N) → Value N
  unfolding items_of
  auth_query (r ∷ []) = obj r.query
  auth_query rules = obj (field (text "$or") (arr (items_of rules)) end)

  -- `criteria || {}`
  abbrev pub criteria_or_empty : Value N → Value N
  criteria_or_empty v = if truthy js v then v else obj end

  -- `!criteria || Object.keys(criteria).length === 0`
  abbrev pub no_criteria : Value N → Bool
  no_criteria (obj fs) = no_entries fs
  no_criteria (arr (item v xs)) = false
  no_criteria (str (u ∷ us)) = false
  no_criteria v = true

  abbrev pub merged : List (Rule N) → Value N → Option (Value N)
  merged [] criteria = none
  merged (r ∷ rules) criteria =
      if no_criteria criteria
      then some (auth_query (r ∷ rules))
      else some
          (obj (field (text "$and") (arr (item criteria (item (auth_query (r ∷ rules)) nil))) end))

  -- mergeReadPermissionQuery(criteria, user, collection)
  unfoldable pub merge_read_permission_query : Value N → Value N → Text → Option (Value N)
  unfolding has_collection_permission read_rules is_allow_all_rule truthy auth_query
  merge_read_permission_query criteria user collection =
      if has_collection_permission user (text "read") collection
      then some (criteria_or_empty criteria)
      else if any is_allow_all_rule (read_rules user)
      then some (criteria_or_empty criteria)
      else merged (read_rules user) criteria
