-- ===== src/Client/Sse/Chunks.antt =====
-- How the stream is cut into chunks does not matter.
use haiai.Prelude.{
  ℕ, zero, suc, ◌+◌, ◌≤◌, ◌≡◌, sym, ◌∙◌, none, List, [], ◌∷◌, ◌++◌, append_assoc, append-nil, arith,
  Option-cases, inl, inr, length, length-append, checked_add,
}
use haiai.Text.{Text, split_once}
use haiai.Text.Utf8.{Bytes}
use haiai.Error.{Result, ok, ◌>>=◌, Result-cases}
use haiai.Client.Sse.{SseParser, take_line, take_lines, push_chunk, max_stream_event_bytes}
use haiai.Client.Sse.Lines.{
  split_once-append, split_once-length, after, round, no_round, round-eq-ok,
}

abbrev with_more : SseParser → Bytes → SseParser
with_more p more = record p { buffer = p.buffer ++ more }

-- Reading on from where the first bytes left the parser.
abbrev resume : ℕ → Bytes → SseParser × List Text → Result (SseParser × List Text)
resume n more first =
    take_lines n (with_more first.0 more) >>= λ later. ok (later.0, first.1 ++ later.1)

resume-ok :
    (n : ℕ) (more : Bytes) (e es : List Text) (q : SseParser)
    → (resume n more (q, es) >>= λ later. ok (later.0, e ++ later.1)) ≡ resume n more (q, e ++ es)
resume-ok n more e es q = elim (Result-cases (take_lines n (with_more q more))) [
  | inl (later, h) ↦ rw h (rw append_assoc)
  | inr (fault, h) ↦ rw h
]

-- Any fuel that is not below the length of the buffer gives the same result.
pub take_lines-fuel :
    (n m : ℕ) (p : SseParser)
    → length p.buffer ≤ n
    → length p.buffer ≤ m
    → take_lines n p ≡ take_lines m p
take_lines-fuel zero m p hn hm = elim (Option-cases (split_once b'\n' p.buffer)) [
  | inl e ↦ no_round zero p e ∙ sym (no_round m p e)
  | inr ((line, rest), e) ↦ absurd (omega (arith, split_once-length b'\n' p.buffer e))
]
take_lines-fuel (suc n) zero p hn hm = elim (Option-cases (split_once b'\n' p.buffer)) [
  | inl e ↦ no_round (suc n) p e ∙ sym (no_round zero p e)
  | inr ((line, rest), e) ↦ absurd (omega (arith, split_once-length b'\n' p.buffer e))
]
take_lines-fuel (suc n) (suc m) p hn hm = elim (Option-cases (split_once b'\n' p.buffer)) [
  | inl e ↦ no_round (suc n) p e ∙ sym (no_round (suc m) p e)
  | inr ((line, rest), e) ↦
      let shorter = split_once-length b'\n' p.buffer e in
      rw (round n p line rest e, round m p line rest e)
        (elim (Result-cases (take_line p.data_lines p.data_bytes line)) [
          | inl (now, h) ↦ rw h (
              rw (
                take_lines-fuel n m (after now rest) (omega (arith, shorter))
                  (omega (arith, shorter))))
          | inr (fault, h) ↦ rw h
        ])
]

resume-nil :
    (m k : ℕ) (p : SseParser) (more : Bytes)
    → length p.buffer + length more ≤ m
    → length p.buffer + length more ≤ k
    → take_lines m (with_more p more) ≡ resume k more (p, [])
resume-nil m k p more hm hk =
    let whole = length-append p.buffer more in
    rw (take_lines-fuel m k (with_more p more) (omega (arith, whole)) (omega (arith, whole)))
      (elim (Result-cases (take_lines k (with_more p more))) [
        | inl (later, h) ↦ rw h
        | inr (fault, h) ↦ rw h
      ])

-- Bytes behind the buffer are read after all the lines that the buffer holds.
take_lines-append :
    (n m k : ℕ) (p : SseParser) (more : Bytes)
    → length p.buffer ≤ n
    → length p.buffer + length more ≤ m
    → length p.buffer + length more ≤ k
    → take_lines m (with_more p more) ≡ (take_lines n p >>= resume k more)
take_lines-append zero m k p more hn hm hk = elim (Option-cases (split_once b'\n' p.buffer)) [
  | inl e ↦ rw (no_round zero p e) (resume-nil m k p more hm hk)
  | inr ((line, rest), e) ↦ absurd (omega (arith, split_once-length b'\n' p.buffer e))
]
take_lines-append (suc n) zero k p more hn hm hk = elim (Option-cases (split_once b'\n' p.buffer)) [
  | inl e ↦ rw (no_round (suc n) p e) (resume-nil zero k p more hm hk)
  | inr ((line, rest), e) ↦ absurd (omega (arith, split_once-length b'\n' p.buffer e))
]
take_lines-append (suc n) (suc m) k p more hn hm hk =
    elim (Option-cases (split_once b'\n' p.buffer)) [
      | inl e ↦ rw (no_round (suc n) p e) (resume-nil (suc m) k p more hm hk)
      | inr ((line, rest), e) ↦
          let shorter = split_once-length b'\n' p.buffer e in
          let longer = split_once-append b'\n' p.buffer more e in
          rw (round n p line rest e, round m (with_more p more) line (rest ++ more) longer)
            (elim (Result-cases (take_line p.data_lines p.data_bytes line)) [
              | inl (now, h) ↦ rw h (
                  rw
                    (take_lines-append n m k (after now rest) more (omega (arith, shorter))
                      (omega (arith, shorter)) (omega (arith, shorter)))
                    (elim (Result-cases (take_lines n (after now rest))) [
                      | inl ((q, es), g) ↦ rw g (resume-ok k more now.events es q)
                      | inr (fault, g) ↦ rw g
                    ]))
              | inr (fault, h) ↦ rw h
            ])
    ]

-- What the loop leaves in the buffer is no longer than what it found there.
pub take_lines-length :
    (n : ℕ) (p : SseParser) {q : SseParser} {es : List Text}
    → take_lines n p ≡ ok (q, es)
    → length q.buffer ≤ length p.buffer
unfolding take_lines
take_lines-length zero p h = ground arith
take_lines-length (suc n) p {q} {es} h = elim (Option-cases (split_once b'\n' p.buffer)) [
  | inl e ↦ ground (arith, no_round (suc n) p e)
  | inr ((line, rest), e) ↦
      let (now, fs, taken, looped, same) = round-eq-ok n p line rest e h in
      omega (arith, split_once-length b'\n' p.buffer e, take_lines-length n (after now rest) looped)
]

-- The line loop runs when the buffer and the chunk fit.
pub push_chunk_fits :
    (p : SseParser) (chunk : Bytes)
    → length p.buffer + length chunk ≤ max_stream_event_bytes
    → push_chunk p chunk ≡ take_lines (length p.buffer + length chunk) (with_more p chunk)
unfolding push_chunk checked_add
push_chunk_fits p chunk fits = ground arith

-- A chunk that is taken fits.
pub fits_of_push_chunk :
    (p : SseParser) (chunk : Bytes) {r : SseParser × List Text}
    → push_chunk p chunk ≡ ok r
    → length p.buffer + length chunk ≤ max_stream_event_bytes
unfolding push_chunk checked_add
fits_of_push_chunk p chunk h = ground arith

-- A chunk that fits is the same as its two parts, one after the other.
pub push_chunk-append :
    (p : SseParser) (a b : Bytes)
    → length p.buffer + length a + length b ≤ max_stream_event_bytes
    → push_chunk p (a ++ b) ≡ (
        push_chunk p a >>= λ first.
        push_chunk first.0 b >>= λ later. ok (later.0, first.1 ++ later.1))
push_chunk-append p a b fits =
    let whole = length-append a b in
    let joined = length-append p.buffer a in
    let n = length p.buffer + length a in
    rw
      (push_chunk_fits p (a ++ b) (omega (arith, whole)), push_chunk_fits p a (omega (arith, fits)))
      (rw (← append_assoc p.buffer a b) (
        rw
          (take_lines-append n (length p.buffer + length (a ++ b)) (n + length b) (with_more p a) b
            (omega (arith, joined)) (omega (arith, joined, whole)) (omega (arith, joined)))
          (elim (Result-cases (take_lines n (with_more p a))) [
            | inl ((q, es), h) ↦
                let short = take_lines-length n (with_more p a) h in
                let rest = length-append q.buffer b in
                rw (h, push_chunk_fits q b (omega (arith, short, joined)))
                  (rw (
                    take_lines-fuel (n + length b) (length q.buffer + length b) (with_more q b)
                      (omega (arith, short, joined, rest)) (omega (arith, rest))))
            | inr (fault, h) ↦ rw h
          ])))

-- The loop leaves no whole line behind.
take_lines-no_line :
    (n : ℕ) (p : SseParser) {q : SseParser} {es : List Text}
    → length p.buffer ≤ n
    → take_lines n p ≡ ok (q, es)
    → split_once b'\n' q.buffer ≡ none
unfolding take_lines
take_lines-no_line zero p fuel h = elim (Option-cases (split_once b'\n' p.buffer)) [
  | inl e ↦ ground (arith, e)
  | inr ((line, rest), e) ↦ absurd (omega (arith, split_once-length b'\n' p.buffer e))
]
take_lines-no_line (suc n) p {q} {es} fuel h = elim (Option-cases (split_once b'\n' p.buffer)) [
  | inl e ↦ ground (arith, e, no_round (suc n) p e)
  | inr ((line, rest), e) ↦
      let shorter = split_once-length b'\n' p.buffer e in
      let (now, fs, taken, looped, same) = round-eq-ok n p line rest e h in
      take_lines-no_line n (after now rest) (omega (arith, shorter)) looped
]

-- The chunks of a connection, one after the other.
pub push_chunks : SseParser → List Bytes → Result (SseParser × List Text)
push_chunks p [] = ok (p, [])
push_chunks p (chunk ∷ chunks) = push_chunk p chunk >>= λ first.
    push_chunks first.0 chunks >>= λ later. ok (later.0, first.1 ++ later.1)

abbrev pub flatten : List Bytes → Bytes
flatten [] = []
flatten (chunk ∷ chunks) = chunk ++ flatten chunks

push_chunk-nil :
    (p : SseParser)
    → split_once b'\n' p.buffer ≡ none
    → length p.buffer ≤ max_stream_event_bytes
    → push_chunk p [] ≡ ok (p, [])
push_chunk-nil p e fits = rw (push_chunk_fits p [] (omega arith)) (rw append-nil (no_round _ p e))

-- A parser with no whole line in its buffer, fed a stream whose bytes fit with what it holds,
-- reaches the same state, with the same events or the same error, however the stream is cut.
pub push_chunks-flatten :
    (chunks : List Bytes) (p : SseParser)
    → split_once b'\n' p.buffer ≡ none
    → length p.buffer + length (flatten chunks) ≤ max_stream_event_bytes
    → push_chunks p chunks ≡ push_chunk p (flatten chunks)
unfolding push_chunks
push_chunks-flatten [] p e fits = sym (push_chunk-nil p e (omega arith))
push_chunks-flatten (chunk ∷ chunks) p e fits =
    let whole = length-append chunk (flatten chunks) in
    let joined = length-append p.buffer chunk in
    let n = length p.buffer + length chunk in
    rw (push_chunk-append p chunk (flatten chunks) (omega (arith, whole))) (
      rw (push_chunk_fits p chunk (omega (arith, whole)))
        (elim (Result-cases (take_lines n (with_more p chunk))) [
          | inl ((q, es), h) ↦
              let short = take_lines-length n (with_more p chunk) h in
              let clean = take_lines-no_line n (with_more p chunk) (omega (arith, joined)) h in
              rw h (rw (push_chunks-flatten chunks q clean (omega (arith, short, joined, whole))))
          | inr (fault, h) ↦ rw h
        ]))
