-- ===== src/Query.antt =====
-- src/query.js on values that came as JSON: criteria hold no Date, regular expression or function.
-- What the language does with numbers (IEEE doubles, of which JSON has no NaN), the engine's
-- regular expressions, dates, lower case, trimming and `localeCompare` are the fields of `Js`.
pub mod Strings
pub mod Key
pub mod Compare
pub mod Operators
pub mod Match
pub mod Controls
pub mod Laws
use objy.Common.{ℕ, Bool}
use objy.Common.Text.{Text}

pub record Js (N : Type 0) : Type 0 where
  pub num_eq : N → N → Bool
  pub num_lt : N → N → Bool
  pub num_le : N → N → Bool
  pub num_mod : N → N → N
  pub num_truthy : N → Bool
  pub num_finite : N → Bool
  pub num_of_nat : ℕ → N
  pub num_floor : N → ℕ
  pub num_of_text : Text → N
  pub num_to_text : N → Text
  pub nan : N
  pub date_parse : Text → N
  pub regex_test : Text → Text → Text → Bool
  pub to_lower : Text → Text
  pub trim : Text → Text
  pub locale_gt : Text → Text → Bool
