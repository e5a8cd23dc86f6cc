-- ===== src/Common/Equality.antt =====
-- Boolean equality as an interface, with its instances.
use Prim.Native.Nat.{ℕ}
use Prim.Native.String.{String}
use mathlib.Core.Path.{◌≡◌, refl}
use mathlib.Core.Logic.{◌↔◌, ◌≢◌, inl, inr}
use mathlib.Core.Bool.{Bool, true, false, false≢true}
use text.Mathlib.Text.{◌==◌ as str_eq}
use text.Mathlib.TextEquality.{eq_iff}
use ipfs_embed.Common.Tests.{eqb, eqb_iff, Bool-cases}

pub record HasEq {ℓ} (A : Type ℓ) : Type ℓ where
  pub beq : A → A → Bool
  pub beq_iff : (x y : A) → (beq x y ≡ true) ↔ (x ≡ y)

infix 50 ◌==◌
abbrev pub ◌==◌ {ℓ} : {A : Type ℓ} ⦃e : HasEq A⦄ → A → A → Bool
◌==◌ ⦃e⦄ = e.beq

module _ {ℓ} {A : Type ℓ} ⦃e : HasEq A⦄ where
  pub beq_refl : (k : A) → (k == k) ≡ true
  beq_refl k = (e.beq_iff k k).1 refl

  pub beq_ne : (k j : A) → k ≢ j → (k == j) ≡ false
  beq_ne k j h = elim (Bool-cases (k == j)) [ inl t ↦ absurd (h ((e.beq_iff k j).0 t)) | inr f ↦ f ]

abbrev dec_true {ℓ} : {P : Type ℓ} → Dec P → Bool
dec_true (yes p) = true
dec_true (no n) = false

pub dec_true_iff {ℓ} : {P : Type ℓ} (d : Dec P) → (dec_true d ≡ true) ↔ P
dec_true_iff (yes p) = (λ _. p, λ _. refl)
dec_true_iff (no n) = (λ h. absurd (false≢true h), λ p. absurd (n p))

-- The test of a type with decidable equality.
abbrev pub of_discrete {ℓ} : {A : Type ℓ} → Discrete A → HasEq A
of_discrete d = record { beq = λ a b. dec_true (d a b); beq_iff = λ a b. dec_true_iff (d a b) }

-- The keys of the program's maps that are numbers and texts.
instance abbrev pub nat_eq : HasEq ℕ
nat_eq = record { beq = eqb; beq_iff = eqb_iff }

instance abbrev pub string_eq : HasEq String
string_eq = record { beq = str_eq; beq_iff = eq_iff }
