-- ===== src/Common/Text.antt =====
-- JavaScript strings as lists of UTF-16 code units: `===` and `>` compare them unit by unit, and
-- `charCodeAt` reads a unit. The order is total, which the clocks and the shard names rely on.
use Prim.Native.Char.{code}
use Prim.Native.Nat.{ℕ}
use Prim.Native.String.{String}
use mathlib.Core.Path.{◌≡◌, refl}
use mathlib.Core.Logic.{◌↔◌, inl, inr}
use mathlib.Core.Bool.{Bool, true, false}
use mathlib.Core.List.{List, [], ◌∷◌}
use native.Mathlib.Omega.{arith}
use objy.Common.Tests.{ltb, ◌==◌, if◌then◌else◌, Bool-cases}

abbrev pub Text : Type 0
Text = List ℕ

-- A literal's code units; the literals of the program are ASCII.
abbrev pub text : String → Text
text String.[] = []
text (String.◌∷◌ c s) = code c ∷ text s

-- `a === b`
unfoldable pub text_eq : Text → Text → Bool
text_eq [] [] = true
text_eq (x ∷ xs) (y ∷ ys) = if x == y then text_eq xs ys else false
text_eq _ _ = false

-- `a > b`
unfoldable pub text_gt : Text → Text → Bool
text_gt [] _ = false
text_gt (x ∷ xs) [] = true
text_gt (x ∷ xs) (y ∷ ys) = if ltb y x then true else if ltb x y then false else text_gt xs ys

pub text_eq_refl : (a : Text) → text_eq a a ≡ true
unfolding text_eq
text_eq_refl [] = refl
text_eq_refl (x ∷ xs) = ground (arith, text_eq_refl xs)

text_eq_sound : (a b : Text) → text_eq a b ≡ true → a ≡ b
unfolding text_eq
text_eq_sound [] [] h = refl
text_eq_sound [] (y ∷ ys) h = ground arith
text_eq_sound (x ∷ xs) [] h = ground arith
text_eq_sound (x ∷ xs) (y ∷ ys) h = ground (arith, text_eq_sound xs ys)

pub text_eq_iff : (a b : Text) → (text_eq a b ≡ true) ↔ (a ≡ b)
text_eq_iff a b = (text_eq_sound a b, λ e. rw e (text_eq_refl b))

pub text_gt_irrefl : (a : Text) → text_gt a a ≡ false
unfolding text_gt
text_gt_irrefl [] = refl
text_gt_irrefl (x ∷ xs) = ground (arith, text_gt_irrefl xs)

pub text_gt_trans : (a b c : Text) → text_gt a b ≡ true → text_gt b c ≡ true → text_gt a c ≡ true
unfolding text_gt
text_gt_trans [] b c h k = ground arith
text_gt_trans (x ∷ xs) [] c h k = ground arith
text_gt_trans (x ∷ xs) (y ∷ ys) [] h k = refl
text_gt_trans (x ∷ xs) (y ∷ ys) (z ∷ zs) h k = ground (arith, text_gt_trans xs ys zs)

-- Texts of which neither is the greater are equal.
pub text_gt_total : (a b : Text) → text_gt a b ≡ false → text_gt b a ≡ false → a ≡ b
unfolding text_gt
text_gt_total [] [] h k = refl
text_gt_total [] (y ∷ ys) h k = ground arith
text_gt_total (x ∷ xs) [] h k = ground arith
text_gt_total (x ∷ xs) (y ∷ ys) h k = ground (arith, text_gt_total xs ys)

pub text_gt_asym : (a b : Text) → text_gt a b ≡ true → text_gt b a ≡ false
text_gt_asym a b h = elim (Bool-cases (text_gt b a)) [
  | inl k ↦ ground (arith, text_gt_trans a b a h k, text_gt_irrefl a)
  | inr k ↦ k
]
