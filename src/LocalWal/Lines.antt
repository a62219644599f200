-- ===== src/LocalWal/Lines.antt =====
-- The text of the log as lines, and what the log relies on: src/local-wal.js.
use objy.Common.{
  ℕ, ◌≡◌, ◌≢◌, refl, sym, ap, ◌∙◌, false, Option, none, some, List, [], ◌∷◌, ◌++◌, All,
  append_assoc, map, arith,
}
use objy.Common.Text.{Text}
use objy.LocalWal.{Platform, newline, ends_with_newline, append, opened}

-- no line break in a line
abbrev pub IsLine : Text → Type 0
IsLine = All (λ u. (u ≢ 10) × (u ≢ 13))

-- the lines of a file: those that are ended, and one that is not
abbrev pub file_of : List Text → Text → Text
file_of [] rest = rest
file_of (line ∷ lines) rest = line ++ (newline ++ file_of lines rest)

abbrev pub rest_line : Text → List Text
rest_line [] = []
rest_line (u ∷ us) = (u ∷ us) ∷ []

-- what the log relies on: readline gives the lines that newlines end, and the rest that none ends,
-- and JSON reads back what it wrote
pub record IsPlatform {V : Type 0} (platform : Platform V) : Type 0 where
  pub lines :
      (ls : List Text) (rest : Text)
      → All IsLine ls
      → IsLine rest
      → platform.lines_of (file_of ls rest) ≡ ls ++ rest_line rest
  pub parsed : (r : V) → platform.parse (platform.stringify r) ≡ some r
  pub one_line : (r : V) → IsLine (platform.stringify r)
  pub not_blank : (r : V) → platform.is_blank (platform.stringify r) ≡ false

ends_with_newline-append :
    (xs : Text) (u : ℕ) (ys : Text)
    → ends_with_newline (xs ++ (u ∷ ys)) ≡ ends_with_newline (u ∷ ys)
unfolding ends_with_newline
ends_with_newline-append [] u ys = refl
ends_with_newline-append (x ∷ []) u ys = refl
ends_with_newline-append (x ∷ y ∷ xs) u ys = ends_with_newline-append (y ∷ xs) u ys

ends_with_newline-newline : (ys : Text) → ends_with_newline (10 ∷ ys) ≡ ends_with_newline ys
unfolding ends_with_newline
ends_with_newline-newline [] = refl
ends_with_newline-newline (y ∷ ys) = refl

-- a file ends as its last line does
pub ends_with_newline-file_of :
    (ls : List Text) (rest : Text) → ends_with_newline (file_of ls rest) ≡ ends_with_newline rest
ends_with_newline-file_of [] rest = refl
ends_with_newline-file_of (l ∷ ls) rest =
    ends_with_newline-append l 10 (file_of ls rest)
    ∙ ends_with_newline-newline (file_of ls rest)
    ∙ ends_with_newline-file_of ls rest

pub ends_with_newline-IsLine :
    (u : ℕ) (us : Text) → IsLine (u ∷ us) → ends_with_newline (u ∷ us) ≡ false
unfolding ends_with_newline
ends_with_newline-IsLine u [] h = ground (arith, h.0.0)
ends_with_newline-IsLine u (v ∷ us) h = ends_with_newline-IsLine v us h.1

pub file_of-append :
    (ls : List Text) (rest line more : Text)
    → file_of ls rest ++ (line ++ (newline ++ more)) ≡ file_of (ls ++ ((rest ++ line) ∷ [])) more
file_of-append [] rest line more = sym (append_assoc rest line (newline ++ more))
file_of-append (l ∷ ls) rest line more =
    append_assoc l (newline ++ file_of ls rest) (line ++ (newline ++ more))
    ∙ ap (λ t. l ++ (newline ++ t)) (file_of-append ls rest line more)

pub file_of-rest : (ls : List Text) (rest : Text) → file_of ls [] ++ rest ≡ file_of ls rest
file_of-rest [] rest = refl
file_of-rest (l ∷ ls) rest =
    append_assoc l (newline ++ file_of ls []) rest
    ∙ ap (λ t. l ++ (newline ++ t)) (file_of-rest ls rest)

module _ {V : Type 0} (platform : Platform V) where
  abbrev pub texts : List V → List Text
  texts rs = map platform.stringify rs

  -- the file after batches of records, from no file on
  abbrev pub appended : List (List V) → Option Text → Option Text
  appended [] file = file
  appended (rs ∷ batches) file = appended batches (append platform rs file).1

  abbrev pub log : List (List V) → Text
  log batches = opened platform (appended batches none)

  abbrev pub joined : List (List V) → List V
  joined [] = []
  joined (rs ∷ batches) = rs ++ joined batches
