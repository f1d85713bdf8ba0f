-- ===== src/Client/Sse/Bounds.antt =====
-- The sizes that the parser holds and emits.
use haiai.Prelude.{
  ℕ, zero, suc, ◌+◌, ◌≤◌, ◌≡◌, sym, ◌∙◌, List, [], ◌∷◌, ◌++◌, arith, Option-cases, inl, inr, length,
  length-append, All, All-append, checked_add, saturating_add,
}
use haiai.Text.{Text, lit, len, split_once, strip_prefix}
use haiai.Text.Utf8.{Bytes, from_utf8}
use haiai.Error.{ok, ok_or, >>=-eq-ok}
use haiai.Json.{unwrap_or}
use haiai.Client.Sse.{
  SseParser, Progress, pop_cr, end_event, push_data, take_text, take_line, take_lines, push_chunk,
  max_stream_event_bytes,
}
use haiai.Client.Sse.Lines.{split_once-length, after, no_round, round-eq-ok}
use haiai.Client.Sse.Chunks.{push_chunk_fits, fits_of_push_chunk}

-- The bytes of the data lines, each with its newline.
abbrev pub total : List Text → ℕ
total [] = 0
total (l ∷ ls) = len l + 1 + total ls

pub record IsBounded (p : SseParser) : Type 0 where
  pub buffered : length p.buffer ≤ max_stream_event_bytes
  pub counted : p.data_bytes ≡ total p.data_lines
  pub limited : p.data_bytes ≤ max_stream_event_bytes

abbrev pub Small : List Text → Type 0
Small = All (λ raw. len raw ≤ max_stream_event_bytes)

pub total-append : (ls ms : List Text) → total (ls ++ ms) ≡ total ls + total ms
total-append [] ms = omega arith
total-append (l ∷ ls) ms = omega (arith, total-append ls ms)

abbrev Holds : Progress → Type 0
Holds now =
    (now.data_bytes ≡ total now.data_lines)
    × (now.data_bytes ≤ max_stream_event_bytes)
    × Small now.events

end_event-Holds : (ls : List Text) {now : Progress} → end_event ls ≡ ok now → Holds now
unfolding end_event
end_event-Holds [] h = ground arith
end_event-Holds (l ∷ ls) h = ground arith

push_data-Holds :
    (ls : List Text) (n : ℕ) (d : Text) {now : Progress}
    → n ≡ total ls
    → n ≤ max_stream_event_bytes
    → push_data ls n d ≡ ok now
    → Holds now
unfolding push_data checked_add saturating_add
push_data-Holds ls n d e b h = ground (arith, total-append ls (d ∷ []))

take_text-Holds :
    (ls : List Text) (n : ℕ) (s : Text) {now : Progress}
    → n ≡ total ls
    → n ≤ max_stream_event_bytes
    → take_text ls n s ≡ ok now
    → Holds now
unfolding take_text
take_text-Holds ls n [] e b h = end_event-Holds ls h
take_text-Holds ls n (c ∷ cs) e b h = elim (Option-cases (strip_prefix (lit "data:") (c ∷ cs))) [
  | inl p ↦ ground (arith, p)
  | inr (rest, p) ↦
      push_data-Holds ls n (unwrap_or rest (strip_prefix (b' ' ∷ []) rest)) e b
        (rw (p, take_text) at h)
]

take_line-Holds :
    (ls : List Text) (n : ℕ) (line : Bytes) {now : Progress}
    → n ≡ total ls
    → n ≤ max_stream_event_bytes
    → take_line ls n line ≡ ok now
    → Holds now
unfolding take_line
take_line-Holds ls n line e b h =
    let (s, decoded, taken) = >>=-eq-ok (ok_or _ (from_utf8 (pop_cr line))) _ h in
    take_text-Holds ls n s e b taken

take_lines-IsBounded :
    (n : ℕ) (p : SseParser) {q : SseParser} {es : List Text}
    → IsBounded p
    → take_lines n p ≡ ok (q, es)
    → IsBounded q × Small es
unfolding take_lines
take_lines-IsBounded zero p v h = ground arith
take_lines-IsBounded (suc n) p {q} {es} v h = elim (Option-cases (split_once b'\n' p.buffer)) [
  | inl e ↦ ground (arith, e, no_round (suc n) p e)
  | inr ((line, rest), e) ↦
      let (now, fs, taken, looped, same) = round-eq-ok n p line rest e h in
      let kept = take_line-Holds p.data_lines p.data_bytes line v.counted v.limited taken in
      let bounded : IsBounded (after now rest) = record {
        buffered = omega (arith, v.buffered, split_once-length b'\n' p.buffer e);
        counted = kept.0;
        limited = kept.1;
      } in
      let (v', small) = take_lines-IsBounded n (after now rest) bounded looped in
      (v', rw same (All-append _ now.events fs kept.2 small))
]

-- A parser within its bounds stays within them over a chunk that it accepts: its buffer has at most
-- the bytes of the limit, and its data lines together have at most that many, too, which it counts
-- exactly. The two are bounded apart, so that it holds at most twice the limit. Every event that it
-- emits is within the limit.
pub push_chunk-IsBounded :
    (p : SseParser) (chunk : Bytes) {q : SseParser} {es : List Text}
    → IsBounded p
    → push_chunk p chunk ≡ ok (q, es)
    → IsBounded q × Small es
push_chunk-IsBounded p chunk v h =
    let fits = fits_of_push_chunk p chunk h in
    let more : SseParser = record p { buffer = p.buffer ++ chunk } in
    let bounded : IsBounded more = record {
      buffered = omega (arith, fits, length-append p.buffer chunk);
      counted = v.counted;
      limited = v.limited;
    } in
    take_lines-IsBounded _ more bounded (sym (push_chunk_fits p chunk fits) ∙ h)
