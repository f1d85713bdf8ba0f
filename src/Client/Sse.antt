-- ===== src/Client/Sse.antt =====
-- `SseParser` of rust/haiai/src/client.rs: the incremental parser of the event stream.
-- `connect_sse` drops the parser at the first error, so no state is kept beside an error.
pub mod Lines
pub mod Chunks
pub mod Bounds
pub mod Framing
use haiai.Prelude.{
  ℕ, zero, suc, ◌+◌, ◌*◌, ◌-◌, Bool, true, false, Option, none, some, List, [], ◌∷◌, ◌++◌, ltb,
  ◌==◌, if◌then◌else◌, is_empty, length, checked_add, saturating_add,
}
use haiai.Text.{Text, lit, len, strip_prefix, split_once, join}
use haiai.Text.Utf8.{Bytes, from_utf8}
use haiai.Error.{HaiError, signed_event_verification, Result, ok, err, ◌>>=◌, ok_or}
use haiai.Json.{unwrap_or}

abbrev pub max_stream_event_bytes : ℕ
max_stream_event_bytes = 10 * 1024 * 1024

pub size_overflow : HaiError
size_overflow = signed_event_verification (lit "SSE event size overflow")

pub too_large : HaiError
too_large = signed_event_verification (lit "SSE event exceeds the maximum signed-event size")

pub invalid_utf8 : HaiError
invalid_utf8 = signed_event_verification (lit "SSE event contains invalid UTF-8")

pub record SseParser : Type 0 where
  pub buffer : Bytes
  pub data_lines : List Text
  pub data_bytes : ℕ

abbrev pub default : SseParser
default = record { buffer = []; data_lines = []; data_bytes = 0 }

-- `if line_bytes.ends_with(b"\r") { line_bytes.pop(); }`
unfoldable pub pop_cr : Bytes → Bytes
pop_cr [] = []
pop_cr (b ∷ []) = if b == b'\r' then [] else b ∷ []
pop_cr (b ∷ (c ∷ bs)) = b ∷ pop_cr (c ∷ bs)

-- What one line changes: the fields `data_lines` and `data_bytes`, and the events that it ends.
pub record Progress : Type 0 where
  pub data_lines : List Text
  pub data_bytes : ℕ
  pub events : List Text

-- A blank line: `RawTransportEvent`s are their `raw` texts.
unfoldable pub end_event : List Text → Result Progress
end_event [] = ok (record { data_lines = []; data_bytes = 0; events = [] })
end_event (l ∷ ls) =
    let raw = join (b'\n' ∷ []) (l ∷ ls) in
    if ltb max_stream_event_bytes (len raw)
    then err too_large
    else ok (record { data_lines = []; data_bytes = 0; events = raw ∷ [] })

-- `data: value`, where one space behind the colon is dropped.
unfoldable pub push_data : List Text → ℕ → Text → Result Progress
push_data lines bytes data_text = do
  total ← ok_or size_overflow (checked_add bytes (saturating_add (len data_text) 1))
  if ltb max_stream_event_bytes total
      then err too_large
      else ok (record { data_lines = lines ++ data_text ∷ []; data_bytes = total; events = [] })

unfoldable pub take_text : List Text → ℕ → Text → Result Progress
unfolding end_event push_data
take_text lines bytes [] = end_event lines
take_text lines bytes (c ∷ cs) = elim (strip_prefix (lit "data:") (c ∷ cs)) [
  | none ↦ ok (record { data_lines = lines; data_bytes = bytes; events = [] })
  | some rest ↦ push_data lines bytes (unwrap_or rest (strip_prefix (b' ' ∷ []) rest))
]

-- The body of the loop, on the line before the newline.
unfoldable pub take_line : List Text → ℕ → Bytes → Result Progress
take_line lines bytes line_bytes = do
  line ← ok_or invalid_utf8 (from_utf8 (pop_cr line_bytes))
  take_text lines bytes line

-- `while let Some(idx) = self.buffer.iter().position(|b| *b == b'\n')`, with fuel for the rounds.
unfoldable pub take_lines : ℕ → SseParser → Result (SseParser × List Text)
take_lines zero p = ok (p, [])
take_lines (suc n) p = elim (split_once b'\n' p.buffer) [
  | none ↦ ok (p, [])
  | some (line, rest) ↦ do
    now ← take_line p.data_lines p.data_bytes line
    later ←
        take_lines n
          (record { buffer = rest; data_lines = now.data_lines; data_bytes = now.data_bytes })
    ok (later.0, now.events ++ later.1)
]

unfoldable pub push_chunk : SseParser → Bytes → Result (SseParser × List Text)
unfolding take_lines
push_chunk p chunk = do
  buffered_length ← ok_or size_overflow (checked_add (length p.buffer) (length chunk))
  if ltb max_stream_event_bytes buffered_length
      then err too_large
      else take_lines buffered_length (record p { buffer = p.buffer ++ chunk })
