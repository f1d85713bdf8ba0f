-- ===== src/Email/Mime/Reader.antt =====
-- A reader of the header block of a message.
use mathlib.Core.List.{map-append}
use haiai.Prelude.{
  ℕ, ◌≡◌, refl, ap, ◌∙◌, Bool, true, false, none, some, List, [], ◌∷◌, ◌++◌, append-nil,
  append_assoc, map, arith, ◌==◌, All-append, if◌then◌else◌,
}
use haiai.Text.{Text, split_once, Lacks, contains_char, contains_char-Lacks}
use haiai.Text.Utf8.{Bytes, as_bytes, encode_char}
use haiai.Text.Utf8.RoundTrip.{as_bytes-append, Lacks-as_bytes}
use haiai.Email.Mime.{line}

-- A line of nothing, with or without a carriage return, ends the headers.
unfoldable is_blank : Bytes → Bool
is_blank [] = true
is_blank (b ∷ []) = b == b'\r'
is_blank (a ∷ (b ∷ s)) = false

-- The header lines of a message, by a reader that ends a line at every LF; `current` is the line so
-- far.
unfoldable read_headers : Bytes → Bytes → List Bytes
unfolding is_blank
read_headers current [] = []
read_headers current (b ∷ s) = elim (b == b'\n') [
  | false ↦ read_headers (current ++ b ∷ []) s
  | true ↦ elim (is_blank current) [ true ↦ [] | false ↦ current ∷ read_headers [] s ]
]

-- The text of a value: without the carriage return at its end and the space in front.
unfoldable drop_cr : Bytes → Bytes
drop_cr [] = []
drop_cr (b ∷ []) = if b == b'\r' then [] else b ∷ []
drop_cr (a ∷ (b ∷ s)) = a ∷ drop_cr (b ∷ s)

unfoldable drop_space : Bytes → Bytes
drop_space [] = []
drop_space (b ∷ s) = if b == b' ' then s else b ∷ s

-- A header's name, in front of the first colon, and its value behind it.
unfoldable header_of : Bytes → Bytes × Bytes
unfolding drop_cr drop_space
header_of s = elim (split_once b':' s) [
  | none ↦ (s, [])
  | some (name, value) ↦ (name, drop_space (drop_cr value))
]

-- The names and the values of the headers of a message.
unfoldable pub headers_read : Bytes → List (Bytes × Bytes)
unfolding header_of read_headers
headers_read message = map header_of (read_headers [] message)

abbrev pub header_bytes : Text × Text → Bytes × Bytes
header_bytes (name, value) = (as_bytes name, as_bytes value)

split_once-append : (c : ℕ) (a b : Bytes) → Lacks c a → split_once c (a ++ (c ∷ b)) ≡ some (a, b)
unfolding split_once
split_once-append c [] b h = ground arith
split_once-append c (x ∷ a) b (h, hs) = ground (arith, split_once-append c a b hs)

is_blank-colon : (a b : Bytes) → is_blank (a ++ (b':' ∷ b)) ≡ false
unfolding is_blank
is_blank-colon [] [] = refl
is_blank-colon [] (c ∷ b) = refl
is_blank-colon (c ∷ []) b = refl
is_blank-colon (c ∷ (d ∷ a)) b = refl

-- The reader goes through what holds no LF.
read-through :
    (l current s : Bytes)
    → Lacks b'\n' l
    → read_headers current (l ++ s) ≡ read_headers (current ++ l) s
unfolding read_headers
read-through [] current s h = rw (append-nil current)
read-through (b ∷ l) current s (h, hs) =
    rw (h, read_headers)
      (read-through l (current ++ b ∷ []) s hs ∙ rw (append_assoc current (b ∷ []) l))

read-line_end :
    (l rest : Bytes) → is_blank l ≡ false → read_headers l (b'\n' ∷ rest) ≡ l ∷ read_headers [] rest
unfolding read_headers
read-line_end l rest h = rw (h, read_headers)

drop_cr-append : (s : Bytes) → drop_cr (s ++ b'\r' ∷ []) ≡ s
unfolding drop_cr
drop_cr-append [] = refl
drop_cr-append (a ∷ []) = refl
drop_cr-append (a ∷ (b ∷ s)) = ap (λ l. a ∷ l) (drop_cr-append (b ∷ s))

header_of-colon :
    (name value : Bytes)
    → Lacks b':' name
    → header_of (name ++ (b':' ∷ (b' ' ∷ (value ++ b'\r' ∷ [])))) ≡ (name, value)
unfolding header_of drop_space
header_of-colon name value h =
    let trimmed = drop_cr-append (b' ' ∷ value) in
    rw (split_once-append b':' name _ h, header_of, trimmed) refl

-- `t` is read as the given headers, whatever follows.
abbrev pub Reads : Text → List (Text × Text) → Type 0
Reads t headers =
    (rest : Bytes)
    → headers_read (as_bytes t ++ rest) ≡ map header_bytes headers ++ headers_read rest

pub Reads-nil : Reads [] []
unfolding as_bytes
Reads-nil rest = refl

pub Reads-append :
    (s t : Text) (xs ys : List (Text × Text)) → Reads s xs → Reads t ys → Reads (s ++ t) (xs ++ ys)
Reads-append s t xs ys h k rest =
    ap headers_read (rw (as_bytes-append s t, append_assoc))
    ∙ h (as_bytes t ++ rest)
    ∙ ap (λ l. map header_bytes xs ++ l) (k rest)
    ∙ rw (map-append header_bytes xs ys, append_assoc)

-- A line with a name, a colon, a space and a value.
pub Reads-line :
    (name value : Text)
    → contains_char b'\n' name ≡ false
    → contains_char b':' name ≡ false
    → Lacks b'\n' value
    → Reads (line (name ++ (b':' ∷ (b' ' ∷ value)))) ((name, value) ∷ [])
unfolding line headers_read read_headers as_bytes encode_char
Reads-line name value h k lacks rest =
    let n = as_bytes name in
    let after = b' ' ∷ (as_bytes value ++ b'\r' ∷ []) in
    let l = n ++ (b':' ∷ after) in
    let shape : as_bytes ((name ++ (b':' ∷ (b' ' ∷ value))) ++ (b'\r' ∷ b'\n' ∷ [])) ++ rest
        ≡ l ++ (b'\n' ∷ rest) =
      simp (as_bytes-append, append_assoc) in
    let lacks_l : Lacks b'\n' l =
      All-append _ n _ (Lacks-as_bytes b'\n' name (omega arith) (contains_char-Lacks b'\n' name h))
        (
          refl,
          (
            refl,
            All-append _ (as_bytes value) _ (Lacks-as_bytes b'\n' value (omega arith) lacks)
                (refl, tt),
          ),
        ) in
    let lacks_n = Lacks-as_bytes b':' name (omega arith) (contains_char-Lacks b':' name k) in
    ap headers_read shape
    ∙ ap (map header_of) (read-through l [] (b'\n' ∷ rest) lacks_l)
    ∙ ap (map header_of) (read-line_end l rest (is_blank-colon n after))
    ∙ ap (λ x. x ∷ headers_read rest) (header_of-colon n (as_bytes value) lacks_n)

-- An empty line ends the headers.
headers_read-end : (rest : Bytes) → headers_read (as_bytes (line []) ++ rest) ≡ []
unfolding headers_read read_headers line as_bytes is_blank
headers_read-end rest = refl

-- Headers, an empty line, and any content.
pub headers_read-block :
    (head content : Text) (headers : List (Text × Text))
    → Reads head headers
    → headers_read (as_bytes (head ++ (line [] ++ content))) ≡ map header_bytes headers
headers_read-block head content headers h =
    ap headers_read
      (as_bytes-append head _ ∙ ap (λ l. as_bytes head ++ l) (as_bytes-append (line []) content))
    ∙ h (as_bytes (line []) ++ as_bytes content)
    ∙ ap (λ l. map header_bytes headers ++ l) (headers_read-end (as_bytes content))
    ∙ append-nil _
