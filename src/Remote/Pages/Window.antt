-- ===== src/Remote/Pages/Window.antt =====
-- A cursor walk finds the window of all the items that the limit and the offset ask for.
use haiai.Prelude.{
  ℕ, zero, suc, ◌+◌, ◌-◌, ◌≤◌, min, ◌≡◌, ◌≢◌, refl, sym, ap, ◌∙◌, ◌⊎◌, inl, inr, true, false,
  Option, none, some, List, [], ◌∷◌, ◌++◌, append-nil, append_assoc, arith, ltb, leb, ◌==◌, if_elim,
  length, take, drop, is_empty, drop-append, take_all, Bool-cases,
}
use haiai.Text.{Text}
use haiai.Error.{Result, ok}
use haiai.Json.{Value}
use haiai.Remote.{DocSummary}
use haiai.Remote.Pages.{
  auto_page_cap, Walk, next_cursor, skipped_after, collect, continues, walk, keys_walk,
  paginate_keys, summaries_walk, list_doc_summaries,
}

abbrev pub flatten {ℓ} : {A : Type ℓ} → List (List A) → List A
flatten [] = []
flatten (page ∷ pages) = page ++ flatten pages

-- No page but the last is empty.
abbrev pub IsFull {ℓ} : {A : Type ℓ} → List (List A) → Type ℓ
IsFull [] = Unit
IsFull (page ∷ []) = Unit
IsFull (page ∷ (next ∷ pages)) = (page ≢ []) × IsFull (next ∷ pages)

take-append_short {ℓ} :
    {A : Type ℓ} (n : ℕ) (xs ys : List A) → n ≤ length xs → take n (xs ++ ys) ≡ take n xs
take-append_short zero xs ys h = refl
take-append_short (suc n) [] ys h = absurd (omega (arith, h))
take-append_short (suc n) (x ∷ xs) ys h = ap (◌∷◌ x) (take-append_short n xs ys (omega (arith, h)))

drop_beyond {ℓ} : {A : Type ℓ} (n : ℕ) (xs : List A) → drop (min n (length xs)) xs ≡ drop n xs
drop_beyond zero xs = let e : min 0 (length xs) ≡ 0 = omega arith in ap (λ k. drop k xs) e
drop_beyond (suc n) [] = let e : min (suc n) 0 ≡ 0 = omega arith in ap (λ k. drop k []) e
drop_beyond (suc n) (x ∷ xs) =
    let e : min (suc n) (suc (length xs)) ≡ suc (min n (length xs)) = omega arith in
    ap (λ k. drop k (x ∷ xs)) e ∙ drop_beyond n xs

drop-nil {ℓ} : {A : Type ℓ} (n : ℕ) → drop {A = A} n [] ≡ []
drop-nil zero = refl
drop-nil (suc n) = refl

is_empty-false {ℓ} : {A : Type ℓ} (xs : List A) → xs ≢ [] → is_empty xs ≡ false
is_empty-false [] h = absurd (h refl)
is_empty-false (x ∷ xs) h = refl

module _ (fetch : Text → Result Value) {A : Type 0} (w : Walk A) (limit offset : ℕ) where
  -- At the cursor the server holds these pages, the last of them without a cursor.
  abbrev pub Serves : Option Text → List (List A) → Type 0
  Serves cursor [] = ⊥
  Serves cursor (page ∷ pages) =
      (resp : Value) × (fetch (w.page_url cursor) ≡ ok resp)
      × (w.extract resp ≡ page)
      × (((next_cursor resp ≡ none) × (pages ≡ []))
          ⊎ ((cursor' : Text) × (next_cursor resp ≡ some cursor') × Serves (some cursor') pages))

  collected :
      (skipped : ℕ) (page found rest : List A)
      → skipped ≤ offset
      → collect fetch w limit offset skipped page found
          ++ drop (offset - skipped_after fetch w limit offset skipped page) rest
        ≡ found ++ drop (offset - skipped) (page ++ rest)
  unfolding collect skipped_after
  collected skipped page found rest h =
      let k = offset - skipped in
      elim (Bool-cases (ltb skipped offset)) [
        | inl more ↦
            let e : offset - (skipped + min k (length page)) ≡ k - length page = omega arith in
            rw (more, e, drop_beyond k page, drop-append k page rest) (append_assoc found _ _)
        | inr done ↦
            let e : offset - skipped ≡ 0 = ground (arith, done, h) in
            rw (done, e) (append_assoc found page rest)
      ]

  skipped_fits :
      (skipped : ℕ) (page : List A)
      → skipped ≤ offset
      → skipped_after fetch w limit offset skipped page ≤ offset
  unfolding skipped_after
  skipped_fits skipped page h = ground (arith, h)

  continues-last :
      (resp : Value) (skipped : ℕ) (found : List A)
      → next_cursor resp ≡ none
      → continues fetch w limit offset resp skipped found ≡ none
  unfolding continues
  continues-last resp skipped found e = rw (e, continues)

  continues-more :
      (resp : Value) (skipped : ℕ) (found : List A) (cursor : Text)
      → next_cursor resp ≡ some cursor
      → w.extract resp ≢ []
      → ltb (length found) limit ≡ true
      → w.may_continue skipped ≡ true
      → continues fetch w limit offset resp skipped found ≡ some cursor
  unfolding continues
  continues-more resp skipped found cursor e given few on =
      let full = is_empty-false (w.extract resp) given in
      elim (Bool-cases w.stops_on_empty) [
        | inl stops ↦ ground (arith, e, full, few, on, stops)
        | inr walks ↦ ground (arith, e, few, on, walks)
      ]

  IsFull-tail :
      (page : List A) (pages : List (List A)) (cursor : Option Text)
      → Serves cursor pages
      → IsFull (page ∷ pages)
      → (page ≢ []) × IsFull pages
  IsFull-tail page [] cursor served full = absurd served
  IsFull-tail page (next ∷ pages) cursor served full = full

  -- From any state of the loop.
  walk-window :
      (pages : List (List A)) (fuel : ℕ) (cursor : Option Text) (skipped : ℕ) (found : List A)
      → Serves cursor pages
      → IsFull pages
      → ((s : ℕ) → s ≤ offset → w.may_continue s ≡ true)
      → length pages ≤ fuel
      → skipped ≤ offset
      → walk fetch w limit offset fuel cursor skipped found
        ≡ some (ok (take limit (found ++ drop (offset - skipped) (flatten pages))))
  unfolding walk
  walk-window [] fuel cursor skipped found served full on enough h = absurd served
  walk-window (page ∷ pages) zero cursor skipped found served full on enough h =
      absurd (omega (arith, enough))
  walk-window (page ∷ pages) (suc fuel) cursor skipped found (resp, fetched, same, next) full on
        enough h =
      let got = w.extract resp in
      let s' = skipped_after fetch w limit offset skipped got in
      let found' = collect fetch w limit offset skipped got found in
      let window =
        collected skipped got found (flatten pages) h
        ∙ ap (λ p. found ++ drop (offset - skipped) (p ++ flatten pages)) same in
      let wrap : List A → Option (Result (List A)) = λ l. some (ok (take limit l)) in
      elim (Bool-cases (leb limit (length found'))) [
        | inl many ↦
            let cut =
              take-append_short limit found' (drop (offset - s') (flatten pages))
                (ground (arith, many)) in
            rw (fetched, walk, many) (ap (λ l. some (ok l)) (sym cut) ∙ ap wrap window)
        | inr few ↦ elim next [
          | inl (last, none_left) ↦
              let whole : found' ++ drop (offset - s') (flatten pages) ≡ found' =
                ap (λ l. found' ++ drop (offset - s') (flatten l)) none_left
                ∙ ap (λ l. found' ++ l) (drop-nil (offset - s'))
                ∙ append-nil found' in
              rw (fetched, walk, few, continues-last resp s' found' last)
                (ap (λ l. some (ok l)) (sym (take_all limit found' (ground (arith, few))))
                  ∙ ap wrap (sym whole ∙ window))
          | inr (cursor', given, later) ↦
              let (filled, full') = IsFull-tail page pages (some cursor') later full in
              let on' = on s' (skipped_fits skipped got h) in
              let more =
                continues-more resp s' found' cursor' given (λ e. filled (sym same ∙ e))
                  (ground (arith, few)) on' in
              rw (fetched, walk, few, more)
                (walk-window pages fuel (some cursor') s' found' later full' on
                    (omega (arith, enough)) (skipped_fits skipped got h)
                  ∙ ap wrap window)
        ]
      ]

  -- From its start.
  walk-all :
      (pages : List (List A)) (fuel : ℕ)
      → Serves none pages
      → IsFull pages
      → ((s : ℕ) → s ≤ offset → w.may_continue s ≡ true)
      → length pages ≤ fuel
      → walk fetch w limit offset fuel none 0 []
        ≡ some (ok (take limit (drop offset (flatten pages))))
  walk-all pages fuel served full on enough =
      let e : offset - 0 ≡ offset = omega arith in
      walk-window pages fuel none 0 [] served full on enough (omega arith)
      ∙ ap (λ n. some (ok (take limit (drop n (flatten pages))))) e

module _ (url_encode : Text → Text) (fetch : Text → Result Value) where
  -- If the server holds the pages, none but the last empty, and the offset is at most 1000, then fuel
  -- for the pages is enough, and the keys found are the window of all their keys: those behind the
  -- first `offset`, at most `limit` of them.
  pub paginate_keys-window :
      (base_url : Text) (limit offset fuel : ℕ) (pages : List (List Text))
      → Serves fetch (keys_walk url_encode base_url limit) limit offset none pages
      → IsFull pages
      → length pages ≤ fuel
      → offset ≤ auto_page_cap
      → paginate_keys url_encode fetch fuel base_url limit offset
        ≡ some (ok (take limit (drop offset (flatten pages))))
  unfolding paginate_keys keys_walk
  paginate_keys-window base_url limit offset fuel pages served full enough h =
      walk-all fetch (keys_walk url_encode base_url limit) limit offset pages fuel served full
        (λ s fits. ground (arith, fits, h)) enough

  -- If the server holds the pages, none but the last empty, then fuel for the pages is enough, and
  -- `list_doc_summaries` finds the window of all their summaries: those behind the first `offset`, at
  -- most `limit` of them, whatever the offset is; a limit of 0 finds none.
  pub list_doc_summaries-window :
      (logical_name_from_metadata : Value → Option Text) (base_url : Text) (jacs_type : Option Text)
      (limit offset fuel : ℕ) (pages : List (List DocSummary))
      → Serves fetch
          (summaries_walk url_encode logical_name_from_metadata base_url jacs_type limit)
          limit
          offset
          none
          pages
      → IsFull pages
      → length pages ≤ fuel
      → list_doc_summaries url_encode fetch logical_name_from_metadata fuel base_url jacs_type limit
          offset
        ≡ some (ok (take limit (drop offset (flatten pages))))
  unfolding list_doc_summaries summaries_walk
  list_doc_summaries-window logical_name_from_metadata base_url jacs_type limit offset fuel pages
        served full enough =
      let w = summaries_walk url_encode logical_name_from_metadata base_url jacs_type limit in
      if_elim (λ r. r ≡ some (ok (take limit (drop offset (flatten pages))))) (limit == 0) _ _
        (λ e.
          let z : limit ≡ 0 = ground (arith, e) in
          ap (λ n. some (ok (take n (drop offset (flatten pages))))) (sym z))
        (λ e. walk-all fetch w limit offset pages fuel served full (λ s fits. refl) enough)
