-- ===== src/A2a/Trust.antt =====
-- Which agents the strict policy of rust/haiai/src/a2a.rs accepts, after cards were trusted.
use haiai.Prelude.{
  ◌≡◌, refl, ap, ◌∙◌, inl, inr, Bool, false, ◌||◌, none, some, List, [], ◌∷◌, any, arith,
  Bool-cases, Option-cases,
}
use haiai.Text.{Text, text_eq, text_eq_iff}
use haiai.Error.{ok}
use haiai.Json.{Value}
use haiai.A2a.{
  strict, Trusted, extract_card_agent_id, is_trusted_a2a_agent, agent_id_of, assess_card,
  insert_card, trust_card,
}

-- The store after cards were trusted, the last one first.
pub data Trusts : List Value → Trusted → Type 0 where
  no_card : Trusts [] []
  one_more :
      (card : Value) {cards : List Value} {trusted : Trusted} {id : Text} {trusted' : Trusted}
      → Trusts cards trusted
      → trust_card card trusted ≡ ok (id, trusted')
      → Trusts (card ∷ cards) trusted'

-- The card claims to be this agent's.
unfoldable pub claims : Text → Value → Bool
claims id card = elim (extract_card_agent_id card) [ none ↦ false | some other ↦ text_eq other id ]

is_trusted_a2a_agent-insert_card :
    (id : Text) (card : Value) (trusted : Trusted) (x : Text)
    → is_trusted_a2a_agent (insert_card id card trusted) x
      ≡ (text_eq id x || is_trusted_a2a_agent trusted x)
unfolding is_trusted_a2a_agent insert_card
is_trusted_a2a_agent-insert_card id card [] x = refl
is_trusted_a2a_agent-insert_card id card ((other, old) ∷ trusted) x =
    elim (Bool-cases (text_eq other id)) [
      | inl e ↦
          let same : text_eq other x ≡ text_eq id x =
            ap (λ t. text_eq t x) ((text_eq_iff other id).0 e) in
          ground (arith, e, same)
      | inr e ↦ ground (arith, e, is_trusted_a2a_agent-insert_card id card trusted x)
    ]

trust_card-is_trusted :
    (card : Value) (trusted : Trusted) (x : Text) {id : Text} {trusted' : Trusted}
    → trust_card card trusted ≡ ok (id, trusted')
    → is_trusted_a2a_agent trusted' x ≡ (claims x card || is_trusted_a2a_agent trusted x)
unfolding trust_card claims
trust_card-is_trusted card trusted x {id} {trusted'} h =
    elim (Option-cases (extract_card_agent_id card)) [
      | inl e ↦ ground (arith, e, h)
      | inr (found, e) ↦
          let same : trusted' ≡ insert_card found card trusted = ground (arith, e, h) in
          ap (λ t. is_trusted_a2a_agent t x) same
          ∙ is_trusted_a2a_agent-insert_card found card trusted x
          ∙ rw (claims, e) refl
    ]

Trusts-is_trusted :
    (x : Text) {cards : List Value} {trusted : Trusted}
    → Trusts cards trusted
    → is_trusted_a2a_agent trusted x ≡ any (claims x) cards
unfolding is_trusted_a2a_agent
Trusts-is_trusted x no_card = refl
Trusts-is_trusted x (one_more card {cards} {trusted} before h) =
    trust_card-is_trusted card trusted x h
    ∙ ap (λ b. claims x card || b) (Trusts-is_trusted x before)

-- After any cards were trusted, the strict policy allows a card exactly if one of those cards claims
-- the identifier that the card claims, where a card without an identifier counts as claiming the
-- empty one.
pub assess_card-strict :
    {cards : List Value} {trusted : Trusted} (card : Value)
    → Trusts cards trusted
    → (assess_card trusted strict card).allowed ≡ any (claims (agent_id_of card)) cards
unfolding assess_card
assess_card-strict card trusts = Trusts-is_trusted (agent_id_of card) trusts
