-- ===== src/Tests/Queries.antt =====
-- Queries and permissions on small values, with natural numbers for the numbers.
use objy.Common.{ℕ, ◌==◌, ◌%◌, ltb, leb, not, ◌≡◌, ◌&&◌, refl, true, false, inl}
use objy.Common.Text.{text, text_eq, text_gt}
use objy.Common.Dict.{get}
use objy.Common.Decimal.{decimal}
use objy.Common.Fallible.{err}
use objy.Value.{Value, num, str, arr, obj, nil, item, Fields, end, field, get_field, split_dots}
use objy.Query.{Js}
use objy.Query.Strings.{includes, truthy}
use objy.Query.Key.{member, get_path_value}
use objy.Query.Match.{matches_query, matches_entry}
use objy.Query.Operators.{is_control, logic_of, operator_of, matches_operator}
use objy.Query.Controls.{strip_query_controls}
use objy.Query.Laws.{matches_query-strip_query_controls}
use objy.Permissions.{
  can, can_read, update, has_collection_permission, is_free, merge_read_permission_query,
  normalize_rule,
}
use objy.Permissions.Read.{lets_through, merge_read_permission_query-can_read}
use objy.Permissions.Closed.{can-refused_rule}

abbrev pub js : Js ℕ
js = record {
  num_eq = λ a b. a == b;
  num_lt = ltb;
  num_le = leb;
  num_mod = λ a b. a % b;
  num_truthy = λ n. not (n == 0);
  num_finite = λ n. true;
  num_of_nat = λ n. n;
  num_floor = λ n. n;
  num_of_text = λ t. 0;
  num_to_text = decimal;
  nan = 0;
  date_parse = λ t. 0;
  regex_test = λ pattern flags t. includes pattern t;
  to_lower = λ t. t;
  trim = λ t. t;
  locale_gt = text_gt;
}

abbrev doc : Value ℕ
doc = obj (field (text "team") (str (text "red")) (field (text "age") (num 30) end))

abbrev adults : Fields ℕ
adults = field (text "age") (obj (field (text "$gte") (num 18) end)) end

abbrev reds : Fields ℕ
reds = field (text "team") (str (text "red")) end

abbrev paged : Value ℕ
paged = obj (field (text "$limit") (num 5) adults)

adult : matches_query js doc (obj adults) ≡ true
unfolding matches_query matches_entry is_control logic_of operator_of text_eq get_path_value
    matches_operator get split_dots
adult = refl

strip_query_controls_example :
    matches_query js doc (strip_query_controls paged) ≡ matches_query js doc paged
strip_query_controls_example = matches_query-strip_query_controls js doc paged

-- a user that may read its team, under a rule with the given extra criterion
abbrev user_with : Fields ℕ → Value ℕ
user_with query = obj (
    field (text "permissions")
      (arr (
        item (obj (field (text "perm") (str (text "ru")) (field (text "query") (obj query) end)))
          nil))
      end)

abbrev reader : Value ℕ
reader = user_with reds

doc-truthy : truthy js doc ≡ true
unfolding truthy
doc-truthy = refl

merge_read_permission_query_example :
    lets_through js (merge_read_permission_query js (obj adults) reader (text "people")) doc
    ≡ matches_query js doc (obj adults) && can_read js reader doc (text "people")
merge_read_permission_query_example =
    merge_read_permission_query-can_read js reader doc adults (text "people") doc-truthy

reader_reads : can_read js reader doc (text "people") ≡ true
unfolding can_read can is_free text_eq is_control logic_of get split_dots
reader_reads = refl

-- a rule that smuggles a page size in
abbrev sly : Value ℕ
sly = user_with (field (text "$limit") (num 1) end)

abbrev sly_rule : Value ℕ
sly_rule = obj (
    field (text "perm") (str (text "ru"))
      (field (text "query") (obj (field (text "$limit") (num 1) end)) end))

sly-free : is_free js sly ≡ false
unfolding is_free get_field text_eq
sly-free = refl

sly_permissions : member js (text "permissions") sly ≡ arr (item sly_rule nil)
unfolding member get_field text_eq
sly_permissions = refl

sly_rule-refused : normalize_rule js sly_rule ≡ err (text "query must not include a control")
unfolding normalize_rule text_eq is_control
sly_rule-refused = refl

can-refused_rule_example :
    can js sly update doc (text "people")
    ≡ has_collection_permission js sly (text "write") (text "people")
can-refused_rule_example =
    can-refused_rule js sly doc sly_rule update (text "people")
      (text "query must not include a control") (item sly_rule nil) sly-free sly_permissions
      (inl refl) sly_rule-refused
