-- ===== src/Prelude/Tests.antt =====
-- Boolean tests on the native numbers, and the conditional.
use Prim.Native.Nat.{ℕ, zero, suc, ◌+◌, ◌^◌, ◌<◌, ◌-◌, min, compare, Ordering}
use mathlib.Core.Path.{◌≡◌, refl}
use mathlib.Core.Logic.{◌↔◌, ◌⊎◌, inl, inr}
use mathlib.Core.Bool.{Bool, true, false, ◌&&◌}
use mathlib.Core.Option.{Option, none, some}
use native.Mathlib.Omega.{arith}

abbrev pub ltb : ℕ → ℕ → Bool
ltb a b = elim (compare a b) [ Ordering.lt ↦ true | _ ↦ false ]

abbrev pub leb : ℕ → ℕ → Bool
leb a b = elim (compare a b) [ Ordering.gt ↦ false | _ ↦ true ]

infix 50 ◌==◌
abbrev pub ◌==◌ : ℕ → ℕ → Bool
a == b = elim (compare a b) [ Ordering.eq ↦ true | _ ↦ false ]

infix 1 if◌then◌else◌
abbrev pub if◌then◌else◌ {ℓ} : {A : Type ℓ} → Bool → A → A → A
if true then x else y = x
if false then x else y = y

pub ==_iff : (a b : ℕ) → ((a == b) ≡ true) ↔ (a ≡ b)
==_iff a b = ground arith

-- What holds of both branches, each under its test.
pub if_elim {ℓ κ} :
    {A : Type ℓ} (P : A → Type κ) (b : Bool) (x y : A)
    → (b ≡ true → P x)
    → (b ≡ false → P y)
    → P (if b then x else y)
if_elim P true x y p q = p refl
if_elim P false x y p q = q refl

-- To split on a computed value and keep the equation.
pub Bool-cases : (b : Bool) → (b ≡ true) ⊎ (b ≡ false)
Bool-cases true = inl refl
Bool-cases false = inr refl

pub Option-cases {ℓ} : {A : Type ℓ} (o : Option A) → (o ≡ none) ⊎ ((a : A) × (o ≡ some a))
Option-cases none = inl refl
Option-cases (some a) = inr (a, refl)

-- A test on each number of a small range, by evaluation.
unfoldable pub every_number : (ℕ → Bool) → ℕ → Bool
every_number test zero = true
every_number test (suc last) = every_number test last && test last

pub every_number_sound :
    (test : ℕ → Bool) (bound : ℕ) {number : ℕ}
    → number < bound
    → every_number test bound ≡ true
    → test number ≡ true
unfolding every_number
every_number_sound test zero {number} below holds = absurd (omega arith)
every_number_sound test (suc last) {number} below holds =
    let earlier = every_number_sound test last {number = number} in ground (arith, earlier)

-- `usize` on the 64-bit targets the crate is built for.
abbrev pub usize_limit : ℕ
usize_limit = 2 ^ 64

-- `usize::checked_add`
unfoldable pub checked_add : ℕ → ℕ → Option ℕ
checked_add a b = if ltb (a + b) usize_limit then some (a + b) else none

-- `usize::saturating_add`
unfoldable pub saturating_add : ℕ → ℕ → ℕ
saturating_add a b = min (a + b) (usize_limit - 1)

pub saturating_add_fits : (a b : ℕ) → a + b < usize_limit → saturating_add a b ≡ a + b
unfolding saturating_add
saturating_add_fits a b h = omega arith

pub checked_add_fits : (a b : ℕ) → a + b < usize_limit → checked_add a b ≡ some (a + b)
unfolding checked_add
checked_add_fits a b h = ground arith

pub checked_add-eq-some : (a b : ℕ) {c : ℕ} → checked_add a b ≡ some c → c ≡ a + b
unfolding checked_add
checked_add-eq-some a b h = ground arith
