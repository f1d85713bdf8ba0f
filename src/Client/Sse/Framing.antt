-- ===== src/Client/Sse/Framing.antt =====
-- Writing an event to the stream, and reading it back.
use haiai.Prelude.{
  ℕ, suc, ◌+◌, ◌≤◌, ◌≡◌, refl, ap, ◌∙◌, Bool, true, false, some, List, [], ◌∷◌, ◌++◌, append_assoc,
  append-nil, arith, length, length-append, All, All-append, checked_add, saturating_add,
}
use haiai.Text.{Text, split_once, lit, len, len-append, join, strip_prefix, Lacks}
use haiai.Text.Utf8.{Bytes, as_bytes}
use haiai.Text.Utf8.RoundTrip.{IsText, from_utf8-as_bytes, length-as_bytes, Lacks-as_bytes}
use haiai.Error.{Result, ok, err, ◌>>=◌}
use haiai.Client.Sse.{
  SseParser, default, Progress, pop_cr, end_event, push_data, take_text, take_line, take_lines,
  push_chunk, max_stream_event_bytes,
}
use haiai.Client.Sse.Lines.{split_once-Lacks, after, round, no_round}
use haiai.Client.Sse.Chunks.{take_lines-fuel, push_chunk_fits}
use haiai.Client.Sse.Bounds.{total}

-- Either line ending of the event-stream format.
abbrev pub eol : Bool → Bytes
eol true = b'\r' ∷ b'\n' ∷ []
eol false = b'\n' ∷ []

abbrev pub frame_line : Bool → Text → Bytes
frame_line crlf l = as_bytes (lit "data: " ++ l) ++ eol crlf

abbrev pub frame_lines : Bool → List Text → Bytes
frame_lines crlf [] = []
frame_lines crlf (l ∷ ls) = frame_line crlf l ++ frame_lines crlf ls

-- An event whose data has these lines, on the wire.
abbrev pub frame : Bool → List Text → Bytes
frame crlf ls = frame_lines crlf ls ++ eol crlf

-- A line of data: well-formed text with no line ending in it.
abbrev pub IsLine : Text → Type 0
IsLine l = IsText l × Lacks b'\n' l × Lacks b'\r' l

pop_cr-Lacks : (s : Bytes) → Lacks b'\r' s → pop_cr s ≡ s
unfolding pop_cr
pop_cr-Lacks [] h = refl
pop_cr-Lacks (b ∷ []) h = ground arith
pop_cr-Lacks (b ∷ (c ∷ s)) h = ap (◌∷◌ b) (pop_cr-Lacks (c ∷ s) h.1)

pop_cr-cr : (s : Bytes) → pop_cr (s ++ (b'\r' ∷ [])) ≡ s
unfolding pop_cr
pop_cr-cr [] = refl
pop_cr-cr (b ∷ []) = refl
pop_cr-cr (b ∷ (c ∷ s)) = ap (◌∷◌ b) (pop_cr-cr (c ∷ s))

-- What is before the newline of a line ending.
abbrev cr : Bool → Bytes
cr true = b'\r' ∷ []
cr false = []

split_eol :
    (crlf : Bool) (s rest : Bytes)
    → Lacks b'\n' s
    → split_once b'\n' (s ++ (eol crlf ++ rest)) ≡ some (s ++ cr crlf, rest)
split_eol true s rest h =
    rw (← append_assoc s (b'\r' ∷ []) (b'\n' ∷ rest))
      (split_once-Lacks b'\n' (s ++ b'\r' ∷ []) rest (All-append _ s (b'\r' ∷ []) h (refl, tt)))
split_eol false s rest h = rw append-nil (split_once-Lacks b'\n' s rest h)

pop_cr-eol : (crlf : Bool) (s : Bytes) → Lacks b'\r' s → pop_cr (s ++ cr crlf) ≡ s
pop_cr-eol true s h = pop_cr-cr s
pop_cr-eol false s h = rw append-nil (pop_cr-Lacks s h)

take_line-eol :
    (crlf : Bool) (line : Text) (ls : List Text) (k : ℕ)
    → IsLine line
    → take_line ls k (as_bytes line ++ cr crlf) ≡ take_text ls k line
unfolding take_line
take_line-eol crlf line ls k (valid, no_lf, no_cr) =
    rw (pop_cr-eol crlf (as_bytes line) (Lacks-as_bytes b'\r' line (omega arith) no_cr))
      (rw (from_utf8-as_bytes line valid))

-- One whole line of text at the front of the buffer.
read_line :
    (n : ℕ) (crlf : Bool) (line : Text) (rest : Bytes) (ls : List Text) (k : ℕ)
    → IsLine line
    → take_lines
        (suc n)
        (record { buffer = as_bytes line ++ (eol crlf ++ rest); data_lines = ls; data_bytes = k })
      ≡ (take_text ls k line >>= λ now.
          take_lines n (after now rest) >>= λ later. ok (later.0, now.events ++ later.1))
read_line n crlf line rest ls k h =
    let whole = split_eol crlf (as_bytes line) rest (Lacks-as_bytes b'\n' line (omega arith) h.1) in
    round n _ (as_bytes line ++ cr crlf) rest whole ∙ rw (take_line-eol crlf line ls k h)

push_line :
    (ls : List Text) (k : ℕ) (l : Text)
    → k + len l + 1 ≤ max_stream_event_bytes
    → take_text ls k (lit "data: " ++ l)
      ≡ ok (record { data_lines = ls ++ l ∷ []; data_bytes = k + len l + 1; events = [] })
unfolding take_text push_data checked_add saturating_add lit strip_prefix
push_line ls k l h = ground arith

header-IsLine : (l : Text) → IsLine l → IsLine (lit "data: " ++ l)
unfolding lit
header-IsLine l h = ground arith

-- Reading on after a line that ended no event.
resume_silent :
    (r : Result (SseParser × List Text)) → (r >>= λ later. ok (later.0, [] ++ later.1)) ≡ r
resume_silent (ok later) = refl
resume_silent (err e) = refl

-- The data lines of a frame pile up in the parser.
read_lines :
    (ms : List Text) (n : ℕ) (crlf : Bool) (rest : Bytes) (ls : List Text) (k : ℕ)
    → All IsLine ms
    → k + total ms ≤ max_stream_event_bytes
    → take_lines
        (length ms + n)
        (record { buffer = frame_lines crlf ms ++ rest; data_lines = ls; data_bytes = k })
      ≡ take_lines n (record { buffer = rest; data_lines = ls ++ ms; data_bytes = k + total ms })
read_lines [] n crlf rest ls k h fits =
    let e : length {A = Text} [] + n ≡ n = omega arith in
    let k' : k ≡ k + 0 = omega arith in rw (e, append-nil, ← k')
read_lines (m ∷ ms) n crlf rest ls k (h, hs) fits =
    let e : suc (length ms) + n ≡ suc (length ms + n) = omega arith in
    let more = frame_lines crlf ms ++ rest in
    let shape : frame_line crlf m ++ frame_lines crlf ms ++ rest
        ≡ as_bytes (lit "data: " ++ m) ++ (eol crlf ++ more) =
      simp append_assoc in
    let pushed = push_line ls k m (omega (arith, fits)) in
    let so_far : Progress = record {
      data_lines = ls ++ m ∷ [];
      data_bytes = k + len m + 1;
      events = [];
    } in
    let joined : k + (len m + 1 + total ms) ≡ k + len m + 1 + total ms = omega arith in
    rw (e, shape)
      (read_line (length ms + n) crlf (lit "data: " ++ m) more ls k (header-IsLine m h)
        ∙ rw pushed (resume_silent (take_lines (length ms + n) (after so_far more)))
        ∙ read_lines ms n crlf rest (ls ++ m ∷ []) (k + len m + 1) hs (omega (arith, fits))
        ∙ rw (append_assoc, joined))

-- A blank line ends the event.
read_blank :
    (n : ℕ) (crlf : Bool) (l : Text) (ls : List Text) (k : ℕ)
    → len (join (b'\n' ∷ []) (l ∷ ls)) ≤ max_stream_event_bytes
    → take_lines (suc n) (record { buffer = eol crlf; data_lines = l ∷ ls; data_bytes = k })
      ≡ ok (default, join (b'\n' ∷ []) (l ∷ ls) ∷ [])
unfolding as_bytes take_text end_event split_once
read_blank n crlf l ls k fits = rw (← append-nil (eol crlf)) (
    read_line n crlf [] [] (l ∷ ls) k (tt, tt, tt)
    ∙ ground (arith, no_round n (record { buffer = []; data_lines = []; data_bytes = 0 }) refl))

len_newline : (s : Text) → len (b'\n' ∷ s) ≡ len s + 1
unfolding len
len_newline s = omega arith

len-join : (l : Text) (ls : List Text) → len (join (b'\n' ∷ []) (l ∷ ls)) + 1 ≡ total (l ∷ ls)
unfolding join
len-join l [] = omega arith
len-join l (m ∷ ms) = omega (
  arith,
  len-append l (b'\n' ∷ join (b'\n' ∷ []) (m ∷ ms)),
  len_newline (join (b'\n' ∷ []) (m ∷ ms)),
  len-join m ms,
)

eol-length : (crlf : Bool) → 1 ≤ length (eol crlf)
eol-length true = omega arith
eol-length false = omega arith

frame_line-length : (crlf : Bool) (m : Text) → len m + 1 ≤ length (frame_line crlf m)
frame_line-length crlf m = omega (
  arith,
  length-append (as_bytes (lit "data: " ++ m)) (eol crlf),
  length-as_bytes (lit "data: " ++ m),
  len-append (lit "data: ") m,
  eol-length crlf,
)

total-le-frame_lines : (crlf : Bool) (ms : List Text) → total ms ≤ length (frame_lines crlf ms)
total-le-frame_lines crlf [] = omega arith
total-le-frame_lines crlf (m ∷ ms) = omega (
  arith,
  total-le-frame_lines crlf ms,
  length-append (frame_line crlf m) (frame_lines crlf ms),
  frame_line-length crlf m,
)

-- An event whose frame fits comes back whole, its lines joined by newlines, and the parser is
-- ready for the next one, whichever line ending the server uses.
pub push_chunk-frame :
    (crlf : Bool) (l : Text) (ls : List Text)
    → All IsLine (l ∷ ls)
    → length (frame crlf (l ∷ ls)) ≤ max_stream_event_bytes
    → push_chunk default (frame crlf (l ∷ ls)) ≡ ok (default, join (b'\n' ∷ []) (l ∷ ls) ∷ [])
push_chunk-frame crlf l ls h fits =
    let ms = l ∷ ls in
    let n = length (frame crlf ms) in
    let below = total-le-frame_lines crlf ms in
    let whole = length-append (frame_lines crlf ms) (eol crlf) in
    let start : SseParser = record { buffer = frame crlf ms; data_lines = []; data_bytes = 0 } in
    push_chunk_fits default (frame crlf ms) (omega (arith, fits))
    ∙ take_lines-fuel (0 + n) (length ms + suc n) start (omega arith) (omega arith)
    ∙ read_lines ms (suc n) crlf (eol crlf) [] 0 h (omega (arith, below, whole, fits))
    ∙ read_blank n crlf l ls (0 + total ms) (omega (arith, len-join l ls, below, whole, fits))
