-- ===== src/Node/Scopes.antt =====
-- src/crdt.js: sync scopes, the keys of `scopeTrimmed`, and the tests on them.
use objy.Common.{
  ℕ, ltb, ◌==◌, Bool, true, false, ◌&&◌, ◌||◌, Option, none, some, [], ◌∷◌, ◌++◌, if◌then◌else◌,
}
use objy.Common.Text.{Text, text, text_eq}
use objy.Common.Dict.{Dict}
use objy.Op.{Op}

pub record Scope : Type 0 where
  pub database : Text
  pub collection : Text
  pub shard : Text

abbrev pub global : Text
global = text "*"

abbrev newline : ℕ
newline = 10

-- scopeKey(scope): the names joined by newlines
unfoldable pub scope_key : Scope → Text
scope_key s = s.database ++ (newline ∷ (s.collection ++ (newline ∷ s.shard)))

-- the part of a text before the first newline, and the part after it
unfoldable pub first_line : Text → Text
first_line [] = []
first_line (u ∷ us) = if u == newline then [] else u ∷ first_line us

unfoldable pub other_lines : Text → Text
other_lines [] = []
other_lines (u ∷ us) = if u == newline then us else other_lines us

-- parseScopeKey(key): the first three parts of `key.split("\n")`
unfoldable pub parse_scope_key : Text → Scope
unfolding first_line other_lines
parse_scope_key key = record {
  database = first_line key;
  collection = first_line (other_lines key);
  shard = first_line (other_lines (other_lines key));
}

-- scopeMatches(opScope, requested)
unfoldable pub scope_matches : Scope → Scope → Bool
scope_matches held requested =
    (text_eq requested.database global || text_eq requested.database held.database)
    && ((text_eq requested.collection global || text_eq requested.collection held.collection)
        && text_eq requested.shard held.shard)

-- the loop of needsSnapshot over `scopeTrimmed`
unfoldable pub some_trimmed : ℕ → Scope → Dict ℕ → Bool
some_trimmed after scope [] = false
some_trimmed after scope ((key, trimmed) ∷ rest) =
    if ltb after trimmed && scope_matches (parse_scope_key key) scope
    then true
    else some_trimmed after scope rest

-- `this._cursorKey(peerKey, scope)`
unfoldable pub cursor_key : Text → Option Scope → Text
cursor_key peer none = peer
cursor_key peer (some s) =
    peer ++ text "|" ++ s.database ++ text "/" ++ s.collection ++ text "/" ++ s.shard

module _ {A : Type 0} where
  -- the key of an operation's scope, if it has a database, a collection and a shard
  unfoldable pub op_scope_key : Op A → Option Text
  op_scope_key op = elim op.shard [
    | none ↦ none
    | some shard ↦
        if text_eq op.db [] || text_eq op.coll [] || text_eq shard []
        then none
        else some (scope_key (record { database = op.db; collection = op.coll; shard = shard }))
  ]

  -- _opMatchesScope(op, scope), true where no scope is asked for
  unfoldable pub op_matches_scope : Op A → Option Scope → Bool
  unfolding scope_matches
  op_matches_scope op none = true
  op_matches_scope op (some scope) = elim op.shard [
    | none ↦ false
    | some shard ↦
        scope_matches (record { database = op.db; collection = op.coll; shard = shard }) scope
  ]
