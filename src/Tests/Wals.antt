-- ===== src/Tests/Wals.antt =====
-- A write-ahead log of Booleans, each written as one letter: src/local-wal.js.
use objy.Common.{
  ℕ, ◌==◌, ◌≡◌, refl, ap, ◌∙◌, Bool, true, false, Option, none, some, List, [], ◌∷◌, ◌++◌,
  if◌then◌else◌, length, All, arith,
}
use objy.Common.Text.{Text, text, text_eq}
use objy.Common.Fallible.{ok, err}
use objy.LocalWal.{Platform, bad_line, append, read_records}
use objy.LocalWal.Lines.{IsLine, IsPlatform, file_of, rest_line, appended, log}
use objy.LocalWal.Replay.{read_records-appended, read_records-broken_off, read_records-after_break}

cons_first : ℕ → List Text → List Text
cons_first u [] = (u ∷ []) ∷ []
cons_first u (l ∷ ls) = (u ∷ l) ∷ ls

unfoldable split_lines : Text → List Text
unfolding cons_first
split_lines [] = []
split_lines (u ∷ us) = let rest = split_lines us in if u == 10 then [] ∷ rest else cons_first u rest

letter : Bool → Text
letter true = text "t"
letter false = text "f"

unfoldable letter_of : Text → Option Bool
letter_of t =
    if text_eq t (text "t") then some true else if text_eq t (text "f") then some false else none

abbrev letters : Platform Bool
letters = record {
  stringify = letter;
  parse = letter_of;
  truthy = λ b. true;
  is_blank = λ t. text_eq t [];
  lines_of = split_lines;
  byte_length = length;
}

split_lines-line :
    (l more : Text) → IsLine l → split_lines (l ++ (10 ∷ more)) ≡ l ∷ split_lines more
unfolding split_lines cons_first
split_lines-line [] more h = refl
split_lines-line (u ∷ us) more h = rw (split_lines-line us more h.1) (ground (arith, h.0.0))

split_lines-rest : (l : Text) → IsLine l → split_lines l ≡ rest_line l
unfolding split_lines cons_first
split_lines-rest [] h = refl
split_lines-rest (u ∷ []) h = ground (arith, h.0.0)
split_lines-rest (u ∷ v ∷ us) h = rw (split_lines-rest (v ∷ us) h.1) (ground (arith, h.0.0))

split_lines-file_of :
    (ls : List Text) (rest : Text)
    → All IsLine ls
    → IsLine rest
    → split_lines (file_of ls rest) ≡ ls ++ rest_line rest
split_lines-file_of [] rest a h = split_lines-rest rest h
split_lines-file_of (l ∷ ls) rest a h =
    split_lines-line l (file_of ls rest) a.0 ∙ ap (λ t. l ∷ t) (split_lines-file_of ls rest a.1 h)

letter-parsed : (b : Bool) → letter_of (letter b) ≡ some b
unfolding letter_of letter text_eq
letter-parsed true = refl
letter-parsed false = refl

letter-IsLine : (b : Bool) → IsLine (letter b)
unfolding letter
letter-IsLine true = (((λ e. omega (arith, e)), (λ e. omega (arith, e))), tt)
letter-IsLine false = (((λ e. omega (arith, e)), (λ e. omega (arith, e))), tt)

letter-not_blank : (b : Bool) → text_eq (letter b) [] ≡ false
unfolding letter text_eq
letter-not_blank true = refl
letter-not_blank false = refl

letters-IsPlatform : IsPlatform letters
letters-IsPlatform = record {
  lines = split_lines-file_of;
  parsed = letter-parsed;
  one_line = letter-IsLine;
  not_blank = letter-not_blank;
}

abbrev batches : List (List Bool)
batches = (true ∷ []) ∷ [] ∷ (false ∷ true ∷ []) ∷ []

read_records-appended_example :
    read_records letters (appended letters batches none)
    ≡ ok (record { records = true ∷ false ∷ true ∷ []; skipped_partial_records = 0 })
read_records-appended_example =
    read_records-appended letters letters-IsPlatform batches (refl, (refl, (refl, tt)))

-- a letter that is no record
abbrev torn : Text
torn = text "x"

torn-IsLine : IsLine torn
torn-IsLine = (((λ e. omega (arith, e)), (λ e. omega (arith, e))), tt)

read_records-broken_off_example :
    read_records letters (some (log letters batches ++ torn))
    ≡ ok (record { records = true ∷ false ∷ true ∷ []; skipped_partial_records = 1 })
unfolding text_eq letter_of
read_records-broken_off_example =
    read_records-broken_off letters letters-IsPlatform batches 120 [] (refl, (refl, (refl, tt)))
      torn-IsLine refl refl

read_records-after_break_example :
    read_records letters (append letters (true ∷ []) (some (log letters batches ++ torn))).1
    ≡ err (bad_line 4)
unfolding text_eq letter_of letter
read_records-after_break_example =
    read_records-after_break letters letters-IsPlatform batches torn true []
      (refl, (refl, (refl, tt))) torn-IsLine refl refl
