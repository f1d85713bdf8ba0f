-- ===== src/Text/Utf8.antt =====
-- UTF-8: `as_bytes`, and `String::from_utf8` as the automaton of the Unicode table of well-formed
-- byte sequences.
pub mod RoundTrip
use haiai.Prelude.{
  ℕ, zero, suc, ◌+◌, ◌-◌, ◌*◌, ◌/◌, ◌%◌, Bool, true, false, ◌&&◌, Option, none, some, List, [], ◌∷◌,
  ◌++◌, ltb, leb, ◌==◌, if◌then◌else◌,
}
use haiai.Text.Chars.{Text}

abbrev pub Bytes : Type 0
Bytes = List ℕ

unfoldable pub encode_char : ℕ → Bytes
encode_char c =
    if ltb c 0x80
    then c ∷ []
    else if ltb c 0x800
    then (0xc0 + c / 64) ∷ (0x80 + c % 64) ∷ []
    else if ltb c 0x10000
    then (0xe0 + c / 4096) ∷ (0x80 + c / 64 % 64) ∷ (0x80 + c % 64) ∷ []
    else (0xf0 + c / 262144) ∷ (0x80 + c / 4096 % 64) ∷ (0x80 + c / 64 % 64) ∷ (0x80 + c % 64) ∷ []

-- `as_bytes`
unfoldable pub as_bytes : Text → Bytes
unfolding encode_char
as_bytes [] = []
as_bytes (c ∷ s) = encode_char c ++ as_bytes s

-- What the automaton waits for: the continuation bytes that are missing, the bits read, and the
-- range of the next byte.
pub record Pending : Type 0 where
  pub missing : ℕ
  pub bits : ℕ
  pub low : ℕ
  pub high : ℕ

abbrev idle : Pending
idle = record { missing = 0; bits = 0; low = 0x80; high = 0xbf }

pub data Action : Type 0 where
  emit : ℕ → Action
  wait : Pending → Action
  reject : Action

abbrev lead : ℕ → ℕ → ℕ → ℕ → Action
lead n bits low high = wait (record { missing = n; bits = bits; low = low; high = high })

first_byte : ℕ → Action
first_byte b =
    if ltb b 0x80
    then emit b
    else if leb 0xc2 b && leb b 0xdf
    then lead 1 (b - 0xc0) 0x80 0xbf
    else if b == 0xe0
    then lead 2 0 0xa0 0xbf
    else if b == 0xed
    then lead 2 13 0x80 0x9f
    else if leb 0xe1 b && leb b 0xef
    then lead 2 (b - 0xe0) 0x80 0xbf
    else if b == 0xf0
    then lead 3 0 0x90 0xbf
    else if leb 0xf1 b && leb b 0xf3
    then lead 3 (b - 0xf0) 0x80 0xbf
    else if b == 0xf4
    then lead 3 4 0x80 0x8f
    else reject

next_byte : ℕ → Pending → ℕ → Action
next_byte zero p b = first_byte b
next_byte (suc n) p b =
    if leb p.low b && leb b p.high
    then (if n == 0
        then emit (p.bits * 64 + (b - 0x80))
        else lead n (p.bits * 64 + (b - 0x80)) 0x80 0xbf)
    else reject

decode_from : Pending → Bytes → Option Text
decode_from p [] = if p.missing == 0 then some [] else none
decode_from p (b ∷ bs) = elim (next_byte p.missing p b) [
  | emit c ↦ elim (decode_from idle bs) [ none ↦ none | some s ↦ some (c ∷ s) ]
  | wait q ↦ decode_from q bs
  | reject ↦ none
]

-- `String::from_utf8(bytes).ok()`
unfoldable pub from_utf8 : Bytes → Option Text
unfolding first_byte next_byte decode_from
from_utf8 = decode_from idle
