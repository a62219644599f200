-- ===== src/Node/Keys.antt =====
-- The keys of `scopeTrimmed` are read back as the scopes that they were made from.
use objy.Common.{
  ℕ, ◌<◌, ◌≡◌, ◌≢◌, refl, true, some, [], ◌∷◌, ◌++◌, All, arith, Bool-cases, inl, inr, ap,
}
use objy.Common.Text.{Text, text_eq, text_eq_iff}
use objy.Common.Dict.{Dict, get}
use objy.Node.Scopes.{
  Scope, scope_key, first_line, other_lines, parse_scope_key, scope_matches, some_trimmed,
}

-- no newline in a name
abbrev pub IsPlain : Text → Type 0
IsPlain = All (λ u. u ≢ 10)

first_line-join : (a b : Text) → IsPlain a → first_line (a ++ (10 ∷ b)) ≡ a
unfolding first_line
first_line-join [] b h = refl
first_line-join (u ∷ us) b h = ground (arith, h.0, first_line-join us b h.1)

other_lines-join : (a b : Text) → IsPlain a → other_lines (a ++ (10 ∷ b)) ≡ b
unfolding other_lines
other_lines-join [] b h = refl
other_lines-join (u ∷ us) b h = ground (arith, h.0, other_lines-join us b h.1)

first_line-plain : (a : Text) → IsPlain a → first_line a ≡ a
unfolding first_line
first_line-plain [] h = refl
first_line-plain (u ∷ us) h = ground (arith, h.0, first_line-plain us h.1)

-- A scope is read back from its key, if its names have no newline.
pub parse_scope_key-scope_key :
    (s : Scope)
    → IsPlain s.database
    → IsPlain s.collection
    → IsPlain s.shard
    → parse_scope_key (scope_key s) ≡ s
unfolding parse_scope_key scope_key
parse_scope_key-scope_key s d c h = rw (
  first_line-join s.database (s.collection ++ (10 ∷ s.shard)) d,
  other_lines-join s.database (s.collection ++ (10 ∷ s.shard)) d,
  first_line-join s.collection s.shard c,
  other_lines-join s.collection s.shard c,
  first_line-plain s.shard h,
)

-- A scope trimmed past `after` is found by every request that it matches.
pub some_trimmed_of_get :
    (after t : ℕ) (key : Text) (scope : Scope) (trims : Dict ℕ)
    → get key trims ≡ some t
    → after < t
    → scope_matches (parse_scope_key key) scope ≡ true
    → some_trimmed after scope trims ≡ true
unfolding get some_trimmed
some_trimmed_of_get after t key scope [] g l m = cc
some_trimmed_of_get after t key scope ((j, s) ∷ rest) g l m = elim (Bool-cases (text_eq j key)) [
  | inl e ↦ ground (
    arith,
    (text_eq_iff j key).0 e,
    ap (λ k. scope_matches (parse_scope_key k) scope) ((text_eq_iff j key).0 e),
  )
  | inr e ↦ ground (arith, some_trimmed_of_get after t key scope rest)
]
