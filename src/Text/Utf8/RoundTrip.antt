-- ===== src/Text/Utf8/RoundTrip.antt =====
-- Decoding what was encoded.
use haiai.Prelude.{
  ℕ, ◌≤◌, ◌<◌, ◌≡◌, refl, ap, ◌∙◌, ◌⊎◌, Option, none, some, [], ◌∷◌, ◌++◌, append_assoc, arith, All,
  All-append, length, length-append,
}
use haiai.Text.Chars.{Text, len}
use haiai.Text.Search.{Lacks}
use haiai.Text.Utf8.{
  Bytes, idle, encode_char, as_bytes, first_byte, next_byte, decode_from, from_utf8,
}

-- A Unicode scalar value, as each `char` of Rust is.
abbrev pub IsScalar : ℕ → Type 0
IsScalar c = (c < 0xd800) ⊎ ((0xe000 ≤ c) × (c < 0x110000))

abbrev pub IsText : Text → Type 0
IsText = All IsScalar

abbrev cons_to : ℕ → Option Text → Option Text
cons_to c o = elim o [ none ↦ none | some s ↦ some (c ∷ s) ]

decode-encode_char :
    (c : ℕ) (rest : Bytes)
    → IsScalar c
    → decode_from idle (encode_char c ++ rest) ≡ cons_to c (decode_from idle rest)
unfolding decode_from next_byte first_byte encode_char
decode-encode_char c rest h = ground arith

pub from_utf8-as_bytes : (s : Text) → IsText s → from_utf8 (as_bytes s) ≡ some s
unfolding from_utf8 as_bytes
from_utf8-as_bytes [] h = refl
from_utf8-as_bytes (c ∷ s) (h, hs) =
    decode-encode_char c (as_bytes s) h ∙ ap (cons_to c) (from_utf8-as_bytes s hs)

pub length-as_bytes : (s : Text) → length (as_bytes s) ≡ len s
unfolding as_bytes len encode_char
length-as_bytes [] = refl
length-as_bytes (c ∷ s) =
    ground (arith, length-append (encode_char c) (as_bytes s), length-as_bytes s)

pub as_bytes-append : (s t : Text) → as_bytes (s ++ t) ≡ as_bytes s ++ as_bytes t
unfolding as_bytes
as_bytes-append [] t = refl
as_bytes-append (c ∷ s) t = rw (as_bytes-append s t, append_assoc)

-- An ASCII byte stands only where its character stands.
pub Lacks-as_bytes : (b : ℕ) (s : Text) → b < 0x80 → Lacks b s → Lacks b (as_bytes s)
unfolding as_bytes encode_char
Lacks-as_bytes b [] small h = tt
Lacks-as_bytes b (c ∷ s) small (h, hs) =
    All-append _ (encode_char c) (as_bytes s) (ground arith) (Lacks-as_bytes b s small hs)
