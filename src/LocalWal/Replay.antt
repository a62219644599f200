-- ===== src/LocalWal/Replay.antt =====
-- What is read back of the local write-ahead log: src/local-wal.js.
use objy.Common.{
  ℕ, ◌+◌, ◌≡◌, refl, sym, ap, ap₂, suc, ◌∙◌, Bool, true, false, not, Option, none, some, List, [],
  ◌∷◌, ◌++◌, All, All-append, append-nil, append_assoc, arith, length,
}
use mathlib.Core.List.{map-append}
use objy.Common.Text.{Text}
use objy.Common.Fallible.{ok, err}
use objy.LocalWal.{
  Platform, bad_line, ends_with_newline, line_of, append_lines, append, opened, parse_line,
  push_record, read_last, read_lines, read_all, read_records,
}
use objy.LocalWal.Lines.{
  IsLine, file_of, rest_line, IsPlatform, texts, appended, log, joined, ends_with_newline-file_of,
  ends_with_newline-IsLine, file_of-append, file_of-rest,
}

one_more : (k : ℕ) → k + 1 ≡ k + 1 + 0
one_more k = omega arith

later_line : (k n : ℕ) → k + 1 + 1 + n ≡ k + 1 + suc n
later_line k n = omega arith

module _ {V : Type 0} (platform : Platform V) (h : IsPlatform platform) where
  -- what is appended to a file whose last line is not ended goes on with that line
  append_lines-file_of :
      (r : V) (rs : List V) (ls : List Text) (rest : Text)
      → append_lines platform (r ∷ rs) (file_of ls rest)
        ≡ file_of (ls ++ ((rest ++ platform.stringify r) ∷ texts platform rs)) []
  unfolding append_lines line_of
  append_lines-file_of r [] ls rest = file_of-append ls rest (platform.stringify r) []
  append_lines-file_of r (s ∷ rs) ls rest =
      ap (append_lines platform (s ∷ rs)) (file_of-append ls rest (platform.stringify r) [])
      ∙ append_lines-file_of s rs (ls ++ ((rest ++ platform.stringify r) ∷ [])) []
      ∙ ap (λ l. file_of l [])
          (append_assoc ls ((rest ++ platform.stringify r) ∷ []) (texts platform (s ∷ rs)))

  parse_line-stringify :
      (r : V) (line_no : ℕ) (partial : Bool)
      → parse_line platform (platform.stringify r) line_no partial ≡ ok (some r)
  unfolding parse_line
  parse_line-stringify r line_no partial = rw (h.not_blank r, h.parsed r) refl

  push_record-truthy :
      (seen : List V) (r : V)
      → platform.truthy r ≡ true
      → push_record platform seen (some r) ≡ seen ++ (r ∷ [])
  unfolding push_record
  push_record-truthy seen r t = rw t refl

  abbrev AllTruthy : List V → Type 0
  AllTruthy = All (λ v. platform.truthy v ≡ true)

  -- a line of a record, read on the way
  read_lines-record :
      (complete : Bool) (r : V) (line_no : ℕ) (seen : List V) (line : Text) (lines : List Text)
      → platform.truthy r ≡ true
      → read_lines platform complete (platform.stringify r) line_no seen (line ∷ lines)
        ≡ read_lines platform complete line (line_no + 1) (seen ++ (r ∷ [])) lines
  unfolding read_lines
  read_lines-record complete r line_no seen line lines t =
      rw (parse_line-stringify r line_no false, push_record-truthy seen r t) refl

  read_lines-record_last :
      (complete : Bool) (r : V) (line_no : ℕ) (seen : List V)
      → platform.truthy r ≡ true
      → read_lines platform complete (platform.stringify r) line_no seen []
        ≡ ok (record { records = seen ++ (r ∷ []); skipped_partial_records = 0 })
  unfolding read_lines read_last
  read_lines-record_last complete r line_no seen t =
      rw (parse_line-stringify r line_no (not complete), push_record-truthy seen r t) refl

  read_lines-last :
      (complete : Bool) (line : Text) (k : ℕ) (seen : List V)
      → read_lines platform complete line k seen []
        ≡ read_last platform complete seen (parse_line platform line k (not complete))
  unfolding read_lines
  read_lines-last complete line k seen = refl

  read_lines-bad_line :
      (line : Text) (k : ℕ) (seen : List V) (lines : List Text)
      → platform.is_blank line ≡ false
      → platform.parse line ≡ none
      → read_lines platform true line k seen lines ≡ err (bad_line k)
  unfolding read_lines parse_line read_last
  read_lines-bad_line line k seen [] b p = rw (b, p) refl
  read_lines-bad_line line k seen (l ∷ lines) b p = rw (b, p) refl

  -- reading the lines of records in front of a last line
  read_lines-texts :
      (complete : Bool) (r : V) (line_no : ℕ) (seen rs : List V) (line : Text)
      → AllTruthy (r ∷ rs)
      → read_lines platform complete
          (platform.stringify r)
          line_no
          seen
          (texts platform rs ++ (line ∷ []))
        ≡ read_last platform complete
            (seen ++ (r ∷ rs))
            (parse_line platform line (line_no + 1 + length rs) (not complete))
  read_lines-texts complete r line_no seen [] line t =
      read_lines-record complete r line_no seen line [] t.0
      ∙ read_lines-last complete line (line_no + 1) (seen ++ (r ∷ []))
      ∙ ap
          (λ k.
            read_last platform complete (seen ++ (r ∷ []))
              (parse_line platform line k (not complete)))
          (one_more line_no)
  read_lines-texts complete r line_no seen (s ∷ rs) line t =
      read_lines-record complete r line_no seen (platform.stringify s)
        (texts platform rs ++ (line ∷ [])) t.0
      ∙ read_lines-texts complete s (line_no + 1) (seen ++ (r ∷ [])) rs line t.1
      ∙ ap₂ (λ l k. read_last platform complete l (parse_line platform line k (not complete)))
          (append_assoc seen (r ∷ []) (s ∷ rs)) (later_line line_no (length rs))

  read_lines-texts_only :
      (complete : Bool) (r : V) (line_no : ℕ) (seen rs : List V)
      → AllTruthy (r ∷ rs)
      → read_lines platform complete (platform.stringify r) line_no seen (texts platform rs)
        ≡ ok (record { records = seen ++ (r ∷ rs); skipped_partial_records = 0 })
  read_lines-texts_only complete r line_no seen [] t =
      read_lines-record_last complete r line_no seen t.0
  read_lines-texts_only complete r line_no seen (s ∷ rs) t =
      read_lines-record complete r line_no seen (platform.stringify s) (texts platform rs) t.0
      ∙ read_lines-texts_only complete s (line_no + 1) (seen ++ (r ∷ [])) rs t.1
      ∙ ap (λ l. ok (record { records = l; skipped_partial_records = 0 }))
          (append_assoc seen (r ∷ []) (s ∷ rs))

  -- a line that is no record stops the reading, if it is not the end of a file that breaks off
  read_lines-bad :
      (r : V) (line_no : ℕ) (seen rs : List V) (line : Text) (lines : List Text)
      → AllTruthy (r ∷ rs)
      → platform.is_blank line ≡ false
      → platform.parse line ≡ none
      → read_lines platform true
          (platform.stringify r)
          line_no
          seen
          (texts platform rs ++ (line ∷ lines))
        ≡ err (bad_line (line_no + 1 + length rs))
  read_lines-bad r line_no seen [] line lines t b p =
      read_lines-record true r line_no seen line lines t.0
      ∙ read_lines-bad_line line (line_no + 1) (seen ++ (r ∷ [])) lines b p
      ∙ ap (λ k. err (bad_line k)) (one_more line_no)
  read_lines-bad r line_no seen (s ∷ rs) line lines t b p =
      read_lines-record true r line_no seen (platform.stringify s)
        (texts platform rs ++ (line ∷ lines)) t.0
      ∙ read_lines-bad s (line_no + 1) (seen ++ (r ∷ [])) rs line lines t.1 b p
      ∙ ap (λ k. err (bad_line k)) (later_line line_no (length rs))

  append-log :
      (rs : List V) (ls : List Text) (file : Option Text)
      → opened platform file ≡ file_of ls []
      → opened platform (append platform rs file).1 ≡ file_of (ls ++ texts platform rs) []
  unfolding append
  append-log [] ls file e = e ∙ ap (λ l. file_of l []) (sym (append-nil ls))
  append-log (r ∷ rs) ls file e =
      ap (append_lines platform (r ∷ rs)) e ∙ append_lines-file_of r rs ls []

  appended-log :
      (batches : List (List V)) (ls : List Text) (file : Option Text)
      → opened platform file ≡ file_of ls []
      → opened platform (appended platform batches file)
        ≡ file_of (ls ++ texts platform (joined platform batches)) []
  appended-log [] ls file e = e ∙ ap (λ l. file_of l []) (sym (append-nil ls))
  appended-log (rs ∷ batches) ls file e =
      appended-log batches (ls ++ texts platform rs) (append platform rs file).1
        (append-log rs ls file e)
      ∙ ap (λ l. file_of l [])
          (append_assoc ls (texts platform rs) (texts platform (joined platform batches))
            ∙ ap (λ l. ls ++ l) (sym (map-append platform.stringify rs (joined platform batches))))

  All-IsLine : (rs : List V) → All IsLine (texts platform rs)
  All-IsLine [] = tt
  All-IsLine (r ∷ rs) = (h.one_line r, All-IsLine rs)

  -- what is read of a file of records and a last line that is not ended
  read_file_of :
      (ls : List Text) (rest : Text)
      → All IsLine ls
      → IsLine rest
      → read_records platform (some (file_of ls rest))
        ≡ read_all platform (ends_with_newline rest) (ls ++ rest_line rest)
  unfolding read_records
  read_file_of ls rest a l = rw (ends_with_newline-file_of ls rest, h.lines ls rest a l) refl

  read_all-texts :
      (rs : List V)
      → AllTruthy rs
      → read_all platform true (texts platform rs ++ [])
        ≡ ok (record { records = rs; skipped_partial_records = 0 })
  read_all-texts [] t = refl
  read_all-texts (r ∷ rs) t = rw append-nil (read_lines-texts_only true r 1 [] rs t)

  read_none : read_records platform none ≡ ok (record { records = []; skipped_partial_records = 0 })
  unfolding read_records
  read_none = refl

  read_records-opened :
      (file : Option Text)
      → read_records platform file ≡ read_records platform (some (opened platform file))
  unfolding ends_with_newline
  read_records-opened none = read_none ∙ sym (read_file_of [] [] tt tt ∙ read_all-texts [] tt)
  read_records-opened (some file) = refl

  log-file_of :
      (batches : List (List V))
      → log platform batches ≡ file_of (texts platform (joined platform batches)) []
  log-file_of batches = appended-log batches [] none refl

  -- Whatever batches of records, all truthy, are appended to a log that does not exist yet, all
  -- their records are read back in order and none is skipped.
  pub read_records-appended :
      (batches : List (List V))
      → AllTruthy (joined platform batches)
      → read_records platform (appended platform batches none)
        ≡ ok (record { records = joined platform batches; skipped_partial_records = 0 })
  unfolding ends_with_newline
  read_records-appended batches t =
      read_records-opened (appended platform batches none)
      ∙ ap (λ f. read_records platform (some f)) (log-file_of batches)
      ∙ read_file_of (texts platform (joined platform batches)) []
          (All-IsLine (joined platform batches)) tt
      ∙ read_all-texts (joined platform batches) t

  read_all-broken_off :
      (rs : List V) (line : Text)
      → AllTruthy rs
      → platform.is_blank line ≡ false
      → platform.parse line ≡ none
      → read_all platform false (texts platform rs ++ (line ∷ []))
        ≡ ok (record { records = rs; skipped_partial_records = 1 })
  unfolding read_last parse_line
  read_all-broken_off [] line t b p = read_lines-last false line 1 [] ∙ rw (b, p) refl
  read_all-broken_off (r ∷ rs) line t b p = read_lines-texts false r 1 [] rs line t ∙ rw (b, p) refl

  -- If the file of a log breaks off in a line that is not blank and is no record, then all the
  -- records that batches appended before, all truthy, are read back in order, and the broken line
  -- is skipped.
  pub read_records-broken_off :
      (batches : List (List V)) (u : ℕ) (us : Text)
      → AllTruthy (joined platform batches)
      → IsLine (u ∷ us)
      → platform.is_blank (u ∷ us) ≡ false
      → platform.parse (u ∷ us) ≡ none
      → read_records platform (some (log platform batches ++ (u ∷ us)))
        ≡ ok (record { records = joined platform batches; skipped_partial_records = 1 })
  read_records-broken_off batches u us t l b p =
      ap (λ f. read_records platform (some f))
        (ap (λ f. f ++ (u ∷ us)) (log-file_of batches)
          ∙ file_of-rest (texts platform (joined platform batches)) (u ∷ us))
      ∙ read_file_of (texts platform (joined platform batches)) (u ∷ us)
          (All-IsLine (joined platform batches)) l
      ∙ ap (λ c. read_all platform c (texts platform (joined platform batches) ++ ((u ∷ us) ∷ [])))
          (ends_with_newline-IsLine u us l)
      ∙ read_all-broken_off (joined platform batches) (u ∷ us) t b p

  read_all-bad :
      (rs : List V) (line : Text) (lines : List Text)
      → AllTruthy rs
      → platform.is_blank line ≡ false
      → platform.parse line ≡ none
      → read_all platform true (texts platform rs ++ (line ∷ lines))
        ≡ err (bad_line (length rs + 1))
  read_all-bad [] line lines t b p = read_lines-bad_line line 1 [] lines b p
  read_all-bad (r ∷ rs) line lines t b p =
      read_lines-bad r 1 [] rs line lines t b p ∙ ap (λ k. err (bad_line k)) (omega arith)

  -- If records are appended to a log whose file breaks off in a line, and that line together with
  -- the first new record is not blank and no record, then reading the log fails at that line from
  -- then on: neither the new records nor those before it are read.
  pub read_records-after_break :
      (batches : List (List V)) (rest : Text) (r : V) (rs : List V)
      → AllTruthy (joined platform batches)
      → IsLine rest
      → platform.is_blank (rest ++ platform.stringify r) ≡ false
      → platform.parse (rest ++ platform.stringify r) ≡ none
      → read_records platform (append platform (r ∷ rs) (some (log platform batches ++ rest))).1
        ≡ err (bad_line (length (joined platform batches) + 1))
  unfolding append ends_with_newline
  read_records-after_break batches rest r rs t l b p =
      ap (λ f. read_records platform (some (append_lines platform (r ∷ rs) f)))
        (ap (λ f. f ++ rest) (log-file_of batches)
          ∙ file_of-rest (texts platform (joined platform batches)) rest)
      ∙ ap (λ f. read_records platform (some f))
          (append_lines-file_of r rs (texts platform (joined platform batches)) rest)
      ∙ read_file_of (texts platform (joined platform batches) ++ (glued ∷ texts platform rs)) []
          (All-append IsLine (texts platform (joined platform batches)) (glued ∷ texts platform rs)
            (All-IsLine (joined platform batches))
            (All-append _ rest (platform.stringify r) l (h.one_line r), All-IsLine rs))
          tt
      ∙ ap (read_all platform true)
          (append-nil (texts platform (joined platform batches) ++ (glued ∷ texts platform rs)))
      ∙ read_all-bad (joined platform batches) glued (texts platform rs) t b p
    where
      glued : Text
      glued = rest ++ platform.stringify r
