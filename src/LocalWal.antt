-- ===== src/LocalWal.antt =====
-- src/local-wal.js: the local write-ahead log, as the text of its file. The lines that
-- node:readline makes of a text, JSON, trim and the length of a text in bytes are the fields of
-- `Platform`.
pub mod Lines
pub mod Replay
use objy.Common.{
  ℕ, ◌+◌, ◌==◌, Bool, true, false, not, Option, none, some, List, [], ◌∷◌, ◌++◌, if◌then◌else◌,
  length,
}
use objy.Common.Text.{Text}
use objy.Common.Fallible.{Result, ok, err, ◌>>=◌}

pub record Platform (V : Type 0) : Type 0 where
  pub stringify : V → Text
  pub parse : Text → Option V
  pub truthy : V → Bool
  pub is_blank : Text → Bool
  pub lines_of : Text → List Text
  pub byte_length : Text → ℕ

-- what readRecords returns
pub record Replayed (V : Type 0) : Type 0 where
  pub records : List V
  pub skipped_partial_records : ℕ

-- what append returns
pub record Written : Type 0 where
  pub records : ℕ
  pub bytes : ℕ

-- a line that is no record: the last one of a file that breaks off, or the line of a number
pub data Failure : Type 0 where
  broken_off : Failure
  bad_line : ℕ → Failure

abbrev pub newline : Text
newline = 10 ∷ []

-- endsWithNewline(path); an empty file does
unfoldable pub ends_with_newline : Text → Bool
ends_with_newline [] = true
ends_with_newline (u ∷ []) = u == 10
ends_with_newline (u ∷ v ∷ us) = ends_with_newline (v ∷ us)

module _ {V : Type 0} (platform : Platform V) where
  -- `${JSON.stringify(record)}\n`
  unfoldable pub line_of : V → Text
  line_of record' = platform.stringify record' ++ newline

  unfoldable pub append_lines : List V → Text → Text
  unfolding line_of
  append_lines [] file = file
  append_lines (r ∷ records) file = append_lines records (file ++ line_of r)

  unfoldable pub bytes_of : List V → ℕ
  unfolding line_of
  bytes_of [] = 0
  bytes_of (r ∷ records) = platform.byte_length (line_of r) + bytes_of records

  abbrev pub opened : Option Text → Text
  opened none = []
  opened (some file) = file

  -- append(records): the file, which is made if it is missing, and the count
  unfoldable pub append : List V → Option Text → Written × Option Text
  unfolding append_lines bytes_of
  append [] file = (record { records = 0; bytes = 0 }, file)
  append (r ∷ records) file = (
    record { records = length (r ∷ records); bytes = bytes_of (r ∷ records) },
    some (append_lines (r ∷ records) (opened file)),
  )

  -- parseLine(line, lineNo, allowPartial)
  unfoldable pub parse_line : Text → ℕ → Bool → Result Failure (Option V)
  parse_line line line_no allow_partial =
      if platform.is_blank line then ok none else elim (platform.parse line) [
        | some r ↦ ok (some r)
        | none ↦ err (if allow_partial then broken_off else bad_line line_no)
      ]

  -- pushRecord(records, record)
  unfoldable pub push_record : List V → Option V → List V
  push_record records none = records
  push_record records (some r) = if platform.truthy r then records ++ (r ∷ []) else records

  -- the last line, which may be skipped if the file breaks off in it
  unfoldable pub read_last : Bool → List V → Result Failure (Option V) → Result Failure (Replayed V)
  unfolding push_record
  read_last complete records (ok r) =
      ok (record { records = push_record records r; skipped_partial_records = 0 })
  read_last true records (err e) = err e
  read_last false records (err e) = ok (record { records = records; skipped_partial_records = 1 })

  -- the loop over the lines, behind `previous`, which is line `line_no`
  unfoldable pub read_lines : Bool → Text → ℕ → List V → List Text → Result Failure (Replayed V)
  unfolding parse_line push_record read_last
  read_lines complete previous line_no records [] =
      read_last complete records (parse_line previous line_no (not complete))
  read_lines complete previous line_no records (line ∷ lines) =
      parse_line previous line_no false >>= λ r.
      read_lines complete line (line_no + 1) (push_record records r) lines

  abbrev pub read_all : Bool → List Text → Result Failure (Replayed V)
  read_all complete [] = ok (record { records = []; skipped_partial_records = 0 })
  read_all complete (line ∷ lines) = read_lines complete line 1 [] lines

  -- readRecords()
  unfoldable pub read_records : Option Text → Result Failure (Replayed V)
  unfolding read_lines ends_with_newline
  read_records none = ok (record { records = []; skipped_partial_records = 0 })
  read_records (some file) = read_all (ends_with_newline file) (platform.lines_of file)

  -- truncate()
  unfoldable pub truncate : Option Text → Option Text
  truncate file = some []
