-- ===== src/Client/Keys/Trust.antt =====
-- What a key map that was accepted holds.
use haiai.Prelude.{
  ◌≡◌, ◌≢◌, sym, ap, ◌∙◌, ◌⊎◌, inl, inr, true, false, some, List, [], ◌∷◌, arith, Bool-cases,
  Option-cases,
}
use haiai.Text.{Text, lit, text_eq_iff, text_eq_refl}
use haiai.Text.Utf8.{Bytes, as_bytes}
use haiai.Error.{ok, ◌>>=◌, >>=-eq-ok}
use haiai.Json.{Value, get, as_array, and_then}
use haiai.Client.Keys.{
  KeyMap, lookup, is_active, signer_id_of, public_key_of, add_key, add_entry, add_entries,
  require_some_key, parse_server_public_keys,
}

-- An active entry of the document that names this signer and this key.
pub record Vouches (id : Text) (key : Bytes) (entry : Value) : Type 0 where
  pub active : is_active entry ≡ true
  pub signer : signer_id_of entry ≡ some id
  pub text : Text
  pub key_text : public_key_of entry ≡ some text
  pub key_bytes : key ≡ as_bytes text

-- Some entry of the list vouches for the key.
abbrev pub Vouched : Text → Bytes → List Value → Type 0
Vouched id key [] = ⊥
Vouched id key (entry ∷ entries) = Vouches id key entry ⊎ Vouched id key entries

-- Each active entry has its key in the map.
abbrev pub Complete : KeyMap → List Value → Type 0
Complete trusted [] = Unit
Complete trusted (entry ∷ entries) =
    (is_active entry ≡ true
      → (id : Text) × (text : Text) × (signer_id_of entry ≡ some id)
        × (public_key_of entry ≡ some text)
        × (lookup id trusted ≡ some (as_bytes text)))
    × Complete trusted entries

-- `more` has all that `trusted` has.
abbrev Extends : KeyMap → KeyMap → Type 0
Extends trusted more =
    (id : Text) (key : Bytes) → lookup id trusted ≡ some key → lookup id more ≡ some key

add_key-Extends :
    (trusted : KeyMap) (id : Text) (key : Bytes) {more : KeyMap}
    → add_key trusted id key ≡ ok more
    → Extends trusted more × (lookup id more ≡ some key)
unfolding add_key lookup
add_key-Extends trusted id key {more} h = elim (Option-cases (lookup id trusted)) [
  | inl fresh ↦
      (λ j k e. ground (arith, text_eq_iff id j, fresh), ground (arith, text_eq_refl id, fresh))
  | inr (previous, e) ↦ (λ j k f. ground (arith, e), ground (arith, e, text_eq_iff previous key))
]

-- What one entry promises of a map.
abbrev Recorded : KeyMap → Value → Type 0
Recorded trusted entry =
    is_active entry ≡ true
    → (id : Text) × (text : Text) × (signer_id_of entry ≡ some id)
      × (public_key_of entry ≡ some text)
      × (lookup id trusted ≡ some (as_bytes text))

-- Where the keys of `more` come from.
abbrev From : KeyMap → KeyMap → List Value → Type 0
From trusted more entries =
    (id : Text) (key : Bytes)
    → lookup id more ≡ some key
    → (lookup id trusted ≡ some key) ⊎ Vouched id key entries

add_key-lookup :
    (trusted : KeyMap) (id : Text) (key : Bytes) {more : KeyMap} (j : Text) (k : Bytes)
    → add_key trusted id key ≡ ok more
    → lookup j more ≡ some k
    → (lookup j trusted ≡ some k) ⊎ ((j ≡ id) × (k ≡ key))
unfolding add_key lookup
add_key-lookup trusted id key j k h e = ground (arith, text_eq_iff id j)

inactive-add_entry :
    (trusted : KeyMap) (entry : Value)
    → is_active entry ≡ false
    → add_entry trusted entry ≡ ok trusted
unfolding add_entry
inactive-add_entry trusted entry h = rw (h, add_entry)

active-add_entry :
    (trusted : KeyMap) (entry : Value) {more : KeyMap}
    → is_active entry ≡ true
    → add_entry trusted entry ≡ ok more
    → (id : Text) × (text : Text) × (signer_id_of entry ≡ some id)
      × (public_key_of entry ≡ some text)
      × (add_key trusted id (as_bytes text) ≡ ok more)
unfolding add_entry
active-add_entry trusted entry a h = elim (Option-cases (signer_id_of entry)) [
  | inl none_id ↦ ground (arith, a, none_id)
  | inr (id, e) ↦ elim (Option-cases (public_key_of entry)) [
    | inl none_key ↦ ground (arith, a, e, none_key)
    | inr (text, f) ↦ (id, text, e, f, ground (arith, a, e, f))
  ]
]

add_entry-Extends :
    (trusted : KeyMap) (entry : Value) {more : KeyMap}
    → add_entry trusted entry ≡ ok more
    → Extends trusted more × Recorded more entry × From trusted more (entry ∷ [])
add_entry-Extends trusted entry {more} h = elim (Bool-cases (is_active entry)) [
  | inr idle ↦
      let same : trusted ≡ more = cc (inactive-add_entry trusted entry idle, h) in
      (λ id key e. rw (← same) e, λ a. cc (a, idle), λ id key e. inl (rw same e))
  | inl a ↦
      let (id, text, e, f, added) = active-add_entry trusted entry a h in
      let (keeps, there) = add_key-Extends trusted id (as_bytes text) added in
      (
        keeps,
        λ a'. (id, text, e, f, there),
        λ j k l. elim (add_key-lookup trusted id (as_bytes text) j k added l) [
          | inl old ↦ inl old
          | inr (same_id, same_key) ↦ inr (
              inl (record {
                active = a;
                signer = e ∙ ap some (sym same_id);
                text = text;
                key_text = f;
                key_bytes = same_key;
              }))
        ],
      )
]

Recorded-Extends :
    (trusted more : KeyMap) (entry : Value)
    → Extends trusted more
    → Recorded trusted entry
    → Recorded more entry
Recorded-Extends trusted more entry keeps r a =
    let (id, text, e, f, l) = r a in (id, text, e, f, keeps id (as_bytes text) l)

add_entries-Complete :
    (entries : List Value) (trusted : KeyMap) {more : KeyMap}
    → add_entries trusted entries ≡ ok more
    → Extends trusted more × Complete more entries × From trusted more entries
unfolding add_entries
add_entries-Complete [] trusted {more} h =
    let same : trusted ≡ more = cc in (λ id key e. rw (← same) e, tt, λ id key e. inl (rw same e))
add_entries-Complete (entry ∷ entries) trusted {more} h =
    let (next, added, rest) = >>=-eq-ok (add_entry trusted entry) _ h in
    let (keeps, recorded, source) = add_entry-Extends trusted entry added in
    let (keeps', complete, source') = add_entries-Complete entries next rest in
    (
      λ id key e. keeps' id key (keeps id key e),
      (Recorded-Extends next more entry keeps' recorded, complete),
      λ id key e. elim (source' id key e) [
        | inr later ↦ inr (inr later)
        | inl early ↦ elim (source id key early) [
          | inl old ↦ inl old
          | inr (inl here) ↦ inr (inl here)
          | inr (inr never) ↦ absurd never
        ]
      ],
    )

-- A key document is accepted only if it has a `keys` array, some active entry, and for each active
-- entry a signer and a key. Then the trusted map is not empty, gives each active entry's key for its
-- signer (so two active entries of one signer agree), and holds no key that an active entry does
-- not name.
pub parse_server_public_keys_sound :
    (document : Value) {trusted : KeyMap}
    → parse_server_public_keys document ≡ ok trusted
    → (entries : List Value) × (and_then (get (lit "keys") document) as_array ≡ some entries)
      × (trusted ≢ [])
      × Complete trusted entries
      × ((id : Text) (key : Bytes) → lookup id trusted ≡ some key → Vouched id key entries)
unfolding parse_server_public_keys require_some_key
parse_server_public_keys_sound document {trusted} h =
    elim (Option-cases (and_then (get (lit "keys") document) as_array)) [
      | inl missing ↦ ground (arith, missing)
      | inr (entries, e) ↦
          let accepted : (add_entries [] entries >>= require_some_key) ≡ ok trusted =
            ground (arith, e, h) in
          let (all_keys, added, nonempty) =
            >>=-eq-ok (add_entries [] entries) require_some_key accepted in
          let same : all_keys ≡ trusted = ground (arith, nonempty) in
          let (keeps, complete, source) = add_entries-Complete entries [] (added ∙ ap ok same) in
          (
            entries,
            e,
            ground (arith, nonempty, same),
            complete,
            λ id key l. elim (source id key l) [
              | inl never ↦ unfold lookup in cc (never)
              | inr here ↦ here
            ],
          )
    ]
