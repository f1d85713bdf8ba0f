-- ===== src/Links/Pem.antt =====
-- A key that `normalize_public_key_pem` of rust/haiai/src/key_format.rs armors, read again by
-- `extract_public_key_bytes` of rust/haiai/src/email.rs.
use haiai.Prelude.{
  Option-cases, All-take, All-drop, take-append-drop, length-drop, ℕ, zero, suc, ◌≤◌, ◌≡◌, refl, ap,
  sym, ◌∙◌, inl, inr, true, false, Option, some, List, [], ◌∷◌, ◌++◌, append-nil, append_assoc,
  take, drop, length, arith, Bool-cases, ◌==◌,
}
use haiai.Text.{
  contains_char, contains_char-Lacks, Text, lit, split, without_suffix, lines, join, starts_with,
  strip_prefix, contains, trim, Lacks,
}
use haiai.Text.Utf8.{Bytes}
use haiai.Error.{ok, done}
use haiai.Email.Verify.Keys.{Outside, pem_lines, extract_public_key_bytes, ed25519_oid}
use haiai.Links.{chunk_lines, armor_key_data, normalize_public_key_pem}

-- A line and its break in front of a text.
split-line :
    (l rest : Text) → Lacks b'\n' l → split b'\n' (l ++ (b'\n' ∷ rest)) ≡ l ∷ split b'\n' rest
unfolding split
split-line [] rest h = refl
split-line (c ∷ l) rest h = rw (h.0, split-line l rest h.1) refl

without_suffix-Lacks : (c : ℕ) (l : Text) → Lacks c l → without_suffix c l ≡ l
unfolding without_suffix
without_suffix-Lacks c [] h = refl
without_suffix-Lacks c (d ∷ []) h = rw h.0 refl
without_suffix-Lacks c (d ∷ (e ∷ s)) h = ap (λ q. d ∷ q) (without_suffix-Lacks c (e ∷ s) h.1)

split-is-cons : (c : ℕ) (s : Text) → (t : Text) × (ts : List Text) × (split c s ≡ t ∷ ts)
unfolding split
split-is-cons c [] = ([], [], refl)
split-is-cons c (d ∷ s) =
    let (t, ts, e) = split-is-cons c s in
    elim (Bool-cases (d == c)) [ inl f ↦ rw (f, e) (_, _, refl) | inr f ↦ rw (f, e) (_, _, refl) ]

lines-line :
    (l rest : Text) → Lacks b'\n' l → Lacks b'\r' l → lines (l ++ (b'\n' ∷ rest)) ≡ l ∷ lines rest
unfolding lines
lines-line l rest h k =
    let (t, ts, e) = split-is-cons b'\n' rest in
    rw (lines, split-line l rest h, e, without_suffix-Lacks b'\r' l k) refl

join-cons : (l : Text) (ls : List Text) → join [] (l ∷ ls) ≡ l ++ join [] ls
unfolding join
join-cons l [] = sym (append-nil l)
join-cons l (m ∷ ms) = refl

-- Text that no break and no marker stands in.
abbrev pub IsPayload : Text → Type 0
IsPayload s = Lacks b'\n' s × Lacks b'\r' s × Lacks b'-' s

not_marker : (l : Text) → Lacks b'-' l → starts_with (lit "-----") l ≡ false
unfolding starts_with strip_prefix lit
not_marker [] h = refl
not_marker (c ∷ l) h = ground (arith, h.0)

pem_lines-line :
    (l : Text) (ls : List Text)
    → Lacks b'-' l
    → join [] (pem_lines (l ∷ ls)) ≡ l ++ join [] (pem_lines ls)
unfolding pem_lines
pem_lines-line l ls h = rw (pem_lines, not_marker l h) (join-cons l (pem_lines ls))

abbrev read_pem : Text → Text
read_pem s = join [] (pem_lines (lines s))

read_pem-line : (l rest : Text) → IsPayload l → read_pem (l ++ (b'\n' ∷ rest)) ≡ l ++ read_pem rest
read_pem-line l rest h =
    ap (λ ls. join [] (pem_lines ls)) (lines-line l rest h.0 h.1)
    ∙ pem_lines-line l (lines rest) h.2

-- A marker line is not read.
read_pem-marker :
    (l rest : Text)
    → Lacks b'\n' l
    → Lacks b'\r' l
    → starts_with (lit "-----") l ≡ true
    → read_pem (l ++ (b'\n' ∷ rest)) ≡ read_pem rest
unfolding pem_lines
read_pem-marker l rest h k m =
    ap (λ ls. join [] (pem_lines ls)) (lines-line l rest h k) ∙ rw (pem_lines, m) refl

IsPayload-take : (n : ℕ) (s : Text) → IsPayload s → IsPayload (take n s)
IsPayload-take n s h = (All-take _ n s h.0, All-take _ n s h.1, All-take _ n s h.2)

IsPayload-drop : (n : ℕ) (s : Text) → IsPayload s → IsPayload (drop n s)
IsPayload-drop n s h = (All-drop _ n s h.0, All-drop _ n s h.1, All-drop _ n s h.2)

-- The lines of a payload are read as the payload.
read_pem-chunk_lines :
    (fuel : ℕ) (s rest : Text)
    → length s ≤ fuel
    → IsPayload s
    → read_pem (chunk_lines fuel s ++ rest) ≡ s ++ read_pem rest
unfolding chunk_lines
read_pem-chunk_lines fuel [] rest enough h = refl
read_pem-chunk_lines zero (c ∷ s) rest enough h = ground (arith, enough)
read_pem-chunk_lines (suc fuel) (c ∷ s) rest enough h =
    let l = take 64 (c ∷ s) in
    let more = drop 64 (c ∷ s) in
    ap read_pem (append_assoc l (b'\n' ∷ chunk_lines fuel more) rest)
    ∙ read_pem-line l (chunk_lines fuel more ++ rest) (IsPayload-take 64 (c ∷ s) h)
    ∙ ap (λ q. l ++ q)
        (read_pem-chunk_lines fuel more rest (omega (arith, enough, length-drop 64 (c ∷ s)))
          (IsPayload-drop 64 (c ∷ s) h))
    ∙ sym (append_assoc l more (read_pem rest))
    ∙ ap (λ q. q ++ read_pem rest) (take-append-drop 64 (c ∷ s))

read_pem-nil : read_pem [] ≡ []
unfolding lines split pem_lines join
read_pem-nil = refl

read_pem-armor_key_data :
    (encode : Bytes → Text) (raw : Bytes)
    → IsPayload (encode raw)
    → read_pem (armor_key_data encode raw (lit "PUBLIC KEY")) ≡ encode raw
unfolding armor_key_data contains_char starts_with strip_prefix lit
read_pem-armor_key_data encode raw payload =
    let begins = lit "-----BEGIN PUBLIC KEY-----" in
    let ends = lit "-----END PUBLIC KEY-----" in
    let encoded = encode raw in
    let footer = ends ++ (b'\n' ∷ []) in
    read_pem-marker begins (chunk_lines (length encoded) encoded ++ footer)
      (contains_char-Lacks b'\n' begins refl) (contains_char-Lacks b'\r' begins refl) refl
    ∙ read_pem-chunk_lines (length encoded) encoded footer (omega arith) payload
    ∙ ap (λ q. encoded ++ q)
        (read_pem-marker ends [] (contains_char-Lacks b'\n' ends refl)
            (contains_char-Lacks b'\r' ends refl) refl
          ∙ read_pem-nil)
    ∙ append-nil encoded

-- The bytes are not PEM text already.
abbrev pub IsRaw : (Bytes → Option Text) → Bytes → Type 0
IsRaw from_utf8 raw =
    (text : Text)
    → from_utf8 raw ≡ some text
    → contains (lit "BEGIN PUBLIC KEY") (trim text) ≡ false

normalize_public_key_pem-raw :
    (from_utf8 : Bytes → Option Text) (encode : Bytes → Text) (raw : Bytes)
    → IsRaw from_utf8 raw
    → normalize_public_key_pem from_utf8 encode raw ≡ armor_key_data encode raw (lit "PUBLIC KEY")
unfolding normalize_public_key_pem
normalize_public_key_pem-raw from_utf8 encode raw is_raw = elim (Option-cases (from_utf8 raw)) [
  | inl e ↦ rw (normalize_public_key_pem, e) refl
  | inr (text, e) ↦ rw (normalize_public_key_pem, e, is_raw text e) refl
]

-- A raw key of at least 12 bytes that holds no Ed25519 object identifier, published as PEM text, is
-- read again as the same bytes by the verifier of an email, when base64 decodes what it encodes and
-- its alphabet has neither line breaks nor the dash.
pub extract_public_key_bytes-normalize_public_key_pem :
    (outside : Outside) (from_utf8 : Bytes → Option Text) (encode : Bytes → Text) (raw : Bytes)
    → IsRaw from_utf8 raw
    → IsPayload (encode raw)
    → outside.decode (encode raw) ≡ done raw
    → 12 ≤ length raw
    → contains ed25519_oid raw ≡ false
    → extract_public_key_bytes outside (normalize_public_key_pem from_utf8 encode raw) ≡ ok raw
unfolding extract_public_key_bytes
extract_public_key_bytes-normalize_public_key_pem outside from_utf8 encode raw is_raw payload
      decodes long no_oid =
    let body : read_pem (normalize_public_key_pem from_utf8 encode raw) ≡ encode raw =
      ap read_pem (normalize_public_key_pem-raw from_utf8 encode raw is_raw)
      ∙ read_pem-armor_key_data encode raw payload in
    rw (extract_public_key_bytes, body, decodes, no_oid) (ground (arith, long))
