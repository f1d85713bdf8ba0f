-- ===== src/Tests/Remote.antt =====
-- Cursor walks over a server of two pages.
use haiai.Prelude.{
  ◌≡◌, ◌≢◌, inl, inr, refl, Option, none, some, List, [], ◌∷◌, ◌++◌, arith, take, drop,
  if◌then◌else◌,
}
use haiai.Text.{Text, lit, contains, text_eq, split_once, starts_with, strip_prefix, decimal}
use haiai.Error.{Result, ok}
use haiai.Json.{Value, str, arr, obj, end, field, nil, cons, get, get_str, as_str, as_array}
use haiai.Remote.{
  DocSummary, extract_keys_from_list, extract_summaries_from_list, either_str, join_key, split_key,
}
use haiai.Remote.Pages.{
  keys_walk, summaries_walk, paginate_keys, list_doc_summaries, next_cursor, page_size,
}
use haiai.Remote.Pages.Window.{Serves, flatten, paginate_keys-window, list_doc_summaries-window}

abbrev item : Text → Value
item id = obj (field (lit "jacs_id") (str id) (field (lit "jacs_version") (str (lit "1")) end))

abbrev first_page : Value
first_page = obj (
    field (lit "items") (arr (cons (item (lit "a")) (cons (item (lit "b")) nil)))
      (field (lit "next_cursor") (str (lit "c")) end))

abbrev last_page : Value
last_page = obj (field (lit "items") (arr (cons (item (lit "d")) nil)) end)

-- The URL of the second page names the cursor.
abbrev server : Text → Result Value
server url = if contains (lit "cursor=c") url then ok last_page else ok first_page

abbrev key_pages : List (List Text)
key_pages = (lit "a:1" ∷ lit "b:1" ∷ []) ∷ (lit "d:1" ∷ []) ∷ []

versioned : split_key (lit "a:1") ≡ (lit "a", some (lit "1"))
unfolding split_key split_once lit
versioned = refl

abbrev as_is : Text → Text
as_is t = t

keys_served : Serves server (keys_walk as_is (lit "u?type=x") 2) 2 1 none key_pages
unfolding keys_walk extract_keys_from_list next_cursor page_size decimal contains starts_with
    strip_prefix get get_str as_str as_array text_eq either_str join_key lit
keys_served =
    (first_page, refl, refl, inr (lit "c", refl, (last_page, refl, refl, inl (refl, refl))))

nonempty {ℓ} : {A : Type ℓ} (x : A) (xs : List A) → (x ∷ xs) ≢ []
nonempty x xs h = cc

paginate_keys-window_example :
    paginate_keys as_is server 2 (lit "u?type=x") 2 1
    ≡ some (ok (take 2 (drop 1 (flatten key_pages))))
paginate_keys-window_example =
    paginate_keys-window as_is server (lit "u?type=x") 2 1 2 key_pages keys_served
      (nonempty _ _, tt) (omega arith) (omega arith)

abbrev unnamed : Value → Option Text
unnamed item = none

abbrev summary : Text → DocSummary
summary id = record {
  id = id;
  version = lit "1";
  key = id ++ lit ":1";
  jacs_type = lit "unknown";
  logical_name = none;
  content_type = lit "application/json";
  created_at = [];
}

abbrev summary_pages : List (List DocSummary)
summary_pages = (summary (lit "a") ∷ summary (lit "b") ∷ []) ∷ (summary (lit "d") ∷ []) ∷ []

summaries_served :
    Serves server (summaries_walk as_is unnamed (lit "u") none 2) 2 1 none summary_pages
unfolding summaries_walk extract_summaries_from_list next_cursor page_size decimal contains
    starts_with strip_prefix get get_str as_str as_array text_eq either_str join_key lit
summaries_served =
    (first_page, refl, refl, inr (lit "c", refl, (last_page, refl, refl, inl (refl, refl))))

list_doc_summaries-window_example :
    list_doc_summaries as_is server unnamed 2 (lit "u") none 2 1
    ≡ some (ok (take 2 (drop 1 (flatten summary_pages))))
list_doc_summaries-window_example =
    list_doc_summaries-window as_is server unnamed (lit "u") none 2 1 2 summary_pages
      summaries_served (nonempty _ _, tt) (omega arith)
