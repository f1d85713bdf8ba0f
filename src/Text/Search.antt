-- ===== src/Text/Search.antt =====
-- Searching, splitting, joining and replacing.
use haiai.Prelude.{
  ℕ, ◌≡◌, refl, Bool, true, false, ◌||◌, Option, none, some, List, [], ◌∷◌, ◌++◌, arith, ◌==◌, any,
  if◌then◌else◌, All, Option-cases, inl, inr,
}
use haiai.Text.Chars.{Text}

-- `contains(char)`
unfoldable pub contains_char : ℕ → Text → Bool
contains_char c = any (λ d. d == c)

-- `strip_prefix(&str)`
unfoldable pub strip_prefix : Text → Text → Option Text
strip_prefix [] s = some s
strip_prefix (p ∷ ps) [] = none
strip_prefix (p ∷ ps) (c ∷ s) = if p == c then strip_prefix ps s else none

unfoldable pub starts_with : Text → Text → Bool
unfolding strip_prefix
starts_with p s = elim (strip_prefix p s) [ none ↦ false | some rest ↦ true ]

-- `contains(&str)`
unfoldable pub contains : Text → Text → Bool
unfolding starts_with
contains p [] = starts_with p []
contains p (c ∷ s) = starts_with p (c ∷ s) || contains p s

-- `split_once(char)`: at the first occurrence
unfoldable pub split_once : ℕ → Text → Option (Text × Text)
split_once c [] = none
split_once c (d ∷ s) =
    if d == c
    then some ([], s)
    else elim (split_once c s) [ none ↦ none | some (a, b) ↦ some (d ∷ a, b) ]

-- `rsplit_once(char)`: at the last occurrence
unfoldable pub rsplit_once : ℕ → Text → Option (Text × Text)
rsplit_once c [] = none
rsplit_once c (d ∷ s) = elim (rsplit_once c s) [
  | none ↦ if d == c then some ([], s) else none
  | some (a, b) ↦ some (d ∷ a, b)
]

abbrev onto_head : ℕ → List Text → List Text
onto_head d [] = (d ∷ []) ∷ []
onto_head d (t ∷ ts) = (d ∷ t) ∷ ts

-- `split(char)`
unfoldable pub split : ℕ → Text → List Text
split c [] = [] ∷ []
split c (d ∷ s) = let rest = split c s in if d == c then [] ∷ rest else onto_head d rest

-- `strip_suffix(char)`, or the text itself
unfoldable pub without_suffix : ℕ → Text → Text
without_suffix c [] = []
without_suffix c (d ∷ []) = if d == c then [] else d ∷ []
without_suffix c (d ∷ (e ∷ s)) = d ∷ without_suffix c (e ∷ s)

abbrev ended_lines : List Text → List Text
ended_lines [] = []
ended_lines ([] ∷ []) = []
ended_lines ((d ∷ s) ∷ []) = (d ∷ s) ∷ []
ended_lines (t ∷ (u ∷ us)) = without_suffix b'\r' t ∷ ended_lines (u ∷ us)

-- `lines`
unfoldable pub lines : Text → List Text
unfolding split without_suffix
lines s = ended_lines (split b'\n' s)

-- `join`
unfoldable pub join : Text → List Text → Text
join sep [] = []
join sep (t ∷ []) = t
join sep (t ∷ (u ∷ us)) = t ++ (sep ++ join sep (u ∷ us))

-- `replace(char, &str)`
unfoldable pub replace_char : ℕ → Text → Text → Text
replace_char c to [] = []
replace_char c to (d ∷ s) = (if d == c then to else d ∷ []) ++ replace_char c to s

pub strip_prefix-append : (p s : Text) → strip_prefix p (p ++ s) ≡ some s
unfolding strip_prefix
strip_prefix-append [] s = refl
strip_prefix-append (c ∷ p) s = ground (arith, strip_prefix-append p s)

pub strip_prefix-eq-some : (p s : Text) {r : Text} → strip_prefix p s ≡ some r → s ≡ p ++ r
unfolding strip_prefix
strip_prefix-eq-some [] s h = cc
strip_prefix-eq-some (p ∷ ps) [] h = cc
strip_prefix-eq-some (p ∷ ps) (c ∷ s) {r} h = ground (arith, strip_prefix-eq-some ps s {r = r})

-- No occurrence of the character.
abbrev pub Lacks : ℕ → Text → Type 0
Lacks c = All (λ d. (d == c) ≡ false)

pub contains_char-Lacks : (c : ℕ) (s : Text) → contains_char c s ≡ false → Lacks c s
unfolding contains_char
contains_char-Lacks c [] h = tt
contains_char-Lacks c (d ∷ s) h = ground (arith, contains_char-Lacks c s)

rsplit_once-none : (c : ℕ) (s : Text) → rsplit_once c s ≡ none → Lacks c s
unfolding rsplit_once
rsplit_once-none c [] h = tt
rsplit_once-none c (d ∷ s) h = ground (arith, rsplit_once-none c s)

-- A successful split is the text around the separator, with none of it behind (before) the split.
pub rsplit_once-eq-some :
    (c : ℕ) (s : Text) {a b : Text} → rsplit_once c s ≡ some (a, b) → (s ≡ a ++ (c ∷ b)) × Lacks c b
unfolding rsplit_once
rsplit_once-eq-some c [] h = cc
rsplit_once-eq-some c (d ∷ s) {a} {b} h = elim (Option-cases (rsplit_once c s)) [
  | inl e ↦ ground (arith, e, rsplit_once-none c s e)
  | inr ((a', b'), e) ↦ ground (arith, e, rsplit_once-eq-some c s e)
]

pub split_once-eq-some :
    (c : ℕ) (s : Text) {a b : Text} → split_once c s ≡ some (a, b) → (s ≡ a ++ (c ∷ b)) × Lacks c a
unfolding split_once
split_once-eq-some c [] h = cc
split_once-eq-some c (d ∷ s) {a} {b} h = elim (Option-cases (split_once c s)) [
  | inl e ↦ ground (arith, e)
  | inr ((a', b'), e) ↦ ground (arith, e, split_once-eq-some c s e)
]
