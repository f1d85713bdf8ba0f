-- ===== src/Client/Sse/Lines.antt =====
-- The line loop of `push_chunk`: splitting the buffer, and fuel that is enough.
use haiai.Prelude.{
  ℕ, zero, suc, ◌+◌, ◌≤◌, ◌≡◌, refl, ap, sym, ◌∙◌, none, some, List, [], ◌∷◌, ◌++◌, arith,
  Option-cases, inl, inr, length, length-append,
}
use haiai.Text.{Text, Lacks, split_once, split_once-eq-some}
use haiai.Text.Utf8.{Bytes}
use haiai.Error.{ok, ◌>>=◌, >>=-eq-ok}
use haiai.Client.Sse.{SseParser, Progress, take_line, take_lines}

-- What stands behind the first newline does not move it.
pub split_once-append :
    (c : ℕ) (s t : Bytes) {a b : Bytes}
    → split_once c s ≡ some (a, b)
    → split_once c (s ++ t) ≡ some (a, b ++ t)
unfolding split_once
split_once-append c [] t h = cc
split_once-append c (d ∷ s) t {a} {b} h = elim (Option-cases (split_once c s)) [
  | inl e ↦ ground (arith, e)
  | inr ((a', b'), e) ↦ ground (arith, e, split_once-append c s t e)
]

pub split_once-Lacks : (c : ℕ) (s t : Bytes) → Lacks c s → split_once c (s ++ (c ∷ t)) ≡ some (s, t)
unfolding split_once
split_once-Lacks c [] t h = ground arith
split_once-Lacks c (d ∷ s) t h = ground (arith, split_once-Lacks c s t)

pub split_once-length :
    (c : ℕ) (s : Bytes) {a b : Bytes} → split_once c s ≡ some (a, b) → length b + 1 ≤ length s
split_once-length c s {a} {b} h =
    omega (arith, ap length (split_once-eq-some c s h).0, length-append a (c ∷ b))

-- One round of the loop, when there is a whole line in the buffer.
pub round :
    (n : ℕ) (p : SseParser) (line rest : Bytes)
    → split_once b'\n' p.buffer ≡ some (line, rest)
    → take_lines (suc n) p ≡ (
        take_line p.data_lines p.data_bytes line >>= λ now.
        take_lines n
          (record { buffer = rest; data_lines = now.data_lines; data_bytes = now.data_bytes })
        >>= λ later. ok (later.0, now.events ++ later.1))
unfolding take_lines
round n p line rest e = rw (e, take_lines)

pub no_round :
    (n : ℕ) (p : SseParser) → split_once b'\n' p.buffer ≡ none → take_lines n p ≡ ok (p, [])
unfolding take_lines
no_round zero p e = refl
no_round (suc n) p e = rw (e, take_lines)

abbrev pub after : Progress → Bytes → SseParser
after now rest = record { buffer = rest; data_lines = now.data_lines; data_bytes = now.data_bytes }

-- A round that succeeds, taken apart.
pub round-eq-ok :
    (n : ℕ) (p : SseParser) (line rest : Bytes) {q : SseParser} {es : List Text}
    → split_once b'\n' p.buffer ≡ some (line, rest)
    → take_lines (suc n) p ≡ ok (q, es)
    → (now : Progress) × (fs : List Text) × (take_line p.data_lines p.data_bytes line ≡ ok now)
      × (take_lines n (after now rest) ≡ ok (q, fs))
      × (es ≡ now.events ++ fs)
round-eq-ok n p line rest e h =
    let (now, taken, more) =
      >>=-eq-ok (take_line p.data_lines p.data_bytes line) _ (sym (round n p line rest e) ∙ h) in
    let ((r, fs), looped, same) = >>=-eq-ok (take_lines n (after now rest)) _ more in
    (now, fs, taken, ground (arith, looped, same), ground (arith, same))
