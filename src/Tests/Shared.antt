-- ===== src/Tests/Shared.antt =====
-- Two objects with a name in common: src/object-store.js.
use objy.Common.{ℕ, ◌≡◌, refl, true, false, [], if◌then◌else◌, arith}
use objy.Common.Text.{Text, text, text_eq}
use objy.Common.Dict.{get}
use objy.Rows.{Options, Directory, should_promote}
use objy.Rows.Counted.{IsCounted, should_promote-IsCounted}
use objy.Rows.Faithful.{IsFaithful}
use objy.Rows.Lookup.{row_of, read-rebuild}
use objy.Rows.Store.{RowStore, read, rebuild}
use objy.Tests.Queries.{js}
use objy.Value.{num, str, Fields, end, field}

abbrev options : Options
options = record {
  enabled = true;
  min_refs = 2;
  max_entries = 100;
  max_candidates = 2;
  max_candidates_per_path = 2;
  max_paths = 4;
  max_string_length = 256;
  max_key_bytes = 512;
  pool_structured_values = false;
  max_nested_container_entries = 64;
}

abbrev fresh : Directory ℕ
fresh = record { options = options; pool = []; path_candidates = []; candidate_count = 0 }

abbrev no_rows : RowStore ℕ
no_rows = record { rows = []; value_directory = fresh }

abbrev ann : Fields ℕ
ann = field (text "team") (str (text "red")) (field (text "age") (num 30) end)

fresh-IsFaithful : IsFaithful fresh
unfolding get
fresh-IsFaithful = record { plain = refl; at = λ s p e. cc }

read-rebuild_example :
    ((other : Text)
      → read other (rebuild js (text "u1") ann false no_rows)
        ≡ (if text_eq (text "u1") other then row_of ann else read other no_rows))
    × IsFaithful (rebuild js (text "u1") ann false no_rows).value_directory
read-rebuild_example = read-rebuild js (text "u1") ann false no_rows fresh-IsFaithful

fresh-IsCounted : IsCounted fresh
fresh-IsCounted = record { counted = refl; bounded = omega arith }

should_promote-IsCounted_example :
    IsCounted (should_promote (text "team") (text "string:red") fresh).1
should_promote-IsCounted_example =
    should_promote-IsCounted (text "team") (text "string:red") fresh fresh-IsCounted
