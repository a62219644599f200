-- ===== src/Value.antt =====
-- JavaScript values without functions, as src/patch.js and src/query.js read them: the numbers are
-- the parameter `N`, and an object has its own properties only, so the name `__proto__` is outside
-- of the model.
use objy.Common.{Bool, ◌==◌, ℕ, List, [], ◌∷◌, if◌then◌else◌}
use objy.Common.Text.{Text, text_eq}

mutual
  pub data Value (N : Type 0) : Type 0 where
    undefined : Value N
    null : Value N
    bool : Bool → Value N
    num : N → Value N
    str : Text → Value N
    arr : Items N → Value N
    obj : Fields N → Value N

  pub data Items (N : Type 0) : Type 0 where
    nil : Items N
    item : Value N → Items N → Items N

  pub data Fields (N : Type 0) : Type 0 where
    end : Fields N
    field : Text → Value N → Fields N → Fields N

-- `path.split(".")`
unfoldable pub cons_head : ℕ → List Text → List Text
cons_head u [] = (u ∷ []) ∷ []
cons_head u (part ∷ parts) = (u ∷ part) ∷ parts

unfoldable pub split_dots : Text → List Text
unfolding cons_head
split_dots [] = [] ∷ []
split_dots (u ∷ us) = let rest = split_dots us in if u == 46 then [] ∷ rest else cons_head u rest

module _ {N : Type 0} where
  -- `o[k]` on own properties
  unfoldable pub get_field : Text → Fields N → Value N
  get_field k end = undefined
  get_field k (field j v fs) = if text_eq j k then v else get_field k fs
