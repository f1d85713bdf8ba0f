-- ===== src/Remote/Pages.antt =====
-- The cursor walks of rust/haiai/src/jacs_remote.rs. The response to a URL is `fetch`; the fuel is the
-- number of pages that are fetched at most, and `none` says that it ran out.
pub mod Window
use haiai.Prelude.{
  ℕ, zero, suc, ◌+◌, ◌-◌, min, max, Bool, true, false, ◌&&◌, Option, none, some, List, [], ◌∷◌,
  ◌++◌, ltb, leb, ◌==◌, length, take, drop, is_empty, if◌then◌else◌,
}
use haiai.Text.{Text, lit, decimal}
use haiai.Error.{HaiError, Result, ok, err, Foreign}
use haiai.Json.{Value, get_str}
use haiai.Remote.{
  extract_keys_from_list, DocSummary, extract_summaries_from_list, DocSearchHit, extract_hits,
}

abbrev pub auto_page_cap : ℕ
auto_page_cap = 1000

abbrev records_path : Text
records_path = lit "/api/v1/records"

-- What one of the walks does of its own: the URL at a cursor, the items of a response, whether an
-- empty page ends it, and whether it goes on after so many skipped items.
pub record Walk (A : Type 0) : Type 0 where
  pub page_url : Option Text → Text
  pub extract : Value → List A
  pub stops_on_empty : Bool
  pub may_continue : ℕ → Bool

-- `limit.clamp(1, 100)`
unfoldable pub page_size : ℕ → ℕ
page_size limit = min (max limit 1) 100

unfoldable pub next_cursor : Value → Option Text
next_cursor = get_str (lit "next_cursor")

module _ (fetch : Text → Result Value) {A : Type 0} (w : Walk A) (limit offset : ℕ) where
  unfoldable pub skipped_after : ℕ → List A → ℕ
  skipped_after skipped page =
      if ltb skipped offset then skipped + min (offset - skipped) (length page) else skipped

  unfoldable pub collect : ℕ → List A → List A → List A
  collect skipped page found =
      if ltb skipped offset
      then found ++ drop (min (offset - skipped) (length page)) page
      else found ++ page

  -- Whether the loop goes on behind a page, and at which cursor.
  unfoldable pub continues : Value → ℕ → List A → Option Text
  continues resp skipped found = elim (next_cursor resp) [
    | none ↦ none
    | some cursor ↦
        if (if w.stops_on_empty then is_empty (w.extract resp) else false)
        then none
        else if ltb (length found) limit && w.may_continue skipped
        then some cursor
        else none
  ]

  unfoldable pub walk : ℕ → Option Text → ℕ → List A → Option (Result (List A))
  walk zero cursor skipped found = none
  walk (suc fuel) cursor skipped found = elim (fetch (w.page_url cursor)) [
    | err e ↦ some (err e)
    | ok resp ↦
        let page = w.extract resp in
        let skipped' = skipped_after skipped page in
        let found' = collect skipped page found in
        if leb limit (length found')
        then some (ok (take limit found'))
        else (elim (continues resp skipped' found') [
          | none ↦ some (ok found')
          | some cursor' ↦ walk fuel (some cursor') skipped' found'
        ])
  ]

module _ (url_encode : Text → Text) where
  abbrev with_cursor : Text → Option Text → Text
  with_cursor url none = url
  with_cursor url (some cursor) = url ++ (lit "&cursor=" ++ url_encode cursor)

  abbrev within_cap : ℕ → Bool
  within_cap skipped = leb skipped auto_page_cap

  unfoldable pub keys_walk : Text → ℕ → Walk Text
  keys_walk base_url limit = record {
    page_url = with_cursor (base_url ++ (lit "&limit=" ++ decimal (page_size limit)));
    extract = extract_keys_from_list;
    stops_on_empty = true;
    may_continue = within_cap;
  }

  unfoldable pub paginate_keys :
      (Text → Result Value) → ℕ → Text → ℕ → ℕ → Option (Result (List Text))
  paginate_keys fetch fuel base_url limit offset =
      walk fetch (keys_walk base_url limit) limit offset fuel none 0 []

  unfoldable pub query_by_type :
      (Text → Result Value) → ℕ → Text → Text → ℕ → ℕ → Option (Result (List Text))
  query_by_type fetch fuel base_url doc_type limit offset =
      paginate_keys fetch fuel (base_url ++ (records_path ++ (lit "?type=" ++ url_encode doc_type)))
        limit offset

  unfoldable pub query_by_agent :
      (Text → Result Value) → ℕ → Text → Text → ℕ → ℕ → Option (Result (List Text))
  query_by_agent fetch fuel base_url agent_id limit offset =
      paginate_keys fetch fuel
        (base_url ++ (records_path ++ (lit "?agent=" ++ url_encode agent_id))) limit offset

  abbrev type_filter : Option Text → Text
  type_filter none = []
  type_filter (some t) = lit "&type=" ++ url_encode t

  unfoldable pub summaries_walk : (Value → Option Text) → Text → Option Text → ℕ → Walk DocSummary
  summaries_walk logical_name_from_metadata base_url jacs_type limit = record {
    page_url = with_cursor (
        base_url
        ++ (records_path
            ++ (lit "?latest_only=true&limit="
                ++ (decimal (page_size limit) ++ type_filter jacs_type))));
    extract = extract_summaries_from_list logical_name_from_metadata;
    stops_on_empty = true;
    may_continue = λ skipped. true;
  }

  unfoldable pub list_doc_summaries :
      (Text → Result Value)
      → (Value → Option Text)
      → ℕ
      → Text
      → Option Text
      → ℕ
      → ℕ
      → Option (Result (List DocSummary))
  list_doc_summaries fetch logical_name_from_metadata fuel base_url jacs_type limit offset =
      let found =
        walk fetch (summaries_walk logical_name_from_metadata base_url jacs_type limit) limit offset
          fuel none 0 [] in
      if limit == 0 then some (ok []) else found

  module _ (F64 : Type 0) (zero_f64 : F64) (as_f64 : Value → Option F64)
      (to_string : Value → Foreign Text) where
    abbrev Hit : Type 0
    Hit = DocSearchHit F64 zero_f64 as_f64 to_string

    pub record DocSearchResults : Type 0 where
      pub results : List Hit
      pub total_count : ℕ
      pub method : Text

    abbrev results_of : Result (List Hit) → Result DocSearchResults
    results_of (err e) = err e
    results_of (ok hits) =
        ok (record { results = hits; total_count = length hits; method = lit "FullText" })

    unfoldable pub search_walk : Text → Text → ℕ → Walk Hit
    search_walk base_url query limit = record {
      page_url = with_cursor (
          base_url
          ++ (records_path
              ++ (lit "?q=" ++ (url_encode query ++ (lit "&limit=" ++ decimal (min limit 100))))));
      extract = extract_hits F64 zero_f64 as_f64 to_string;
      stops_on_empty = false;
      may_continue = within_cap;
    }

    unfoldable pub search_documents :
        (Text → Result Value) → ℕ → Text → Text → ℕ → ℕ → Option (Result DocSearchResults)
    search_documents fetch fuel base_url query limit offset =
        elim (walk fetch (search_walk base_url query limit) limit offset fuel none 0 []) [
          | none ↦ none
          | some found ↦ some (results_of found)
        ]
