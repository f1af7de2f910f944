-- ===== src/Number.antt =====
-- JavaScript numbers as an interface: what the pricing code uses of IEEE 754 doubles. The code's
-- arithmetic is the record `Arith`; the facts about it that the theorems rest on are the record
-- `Laws`, which doubles satisfy on finite values as long as no result overflows.
pub mod Cents
use stellar_kraal_backend.Prelude.{ℕ, ◌*◌, ◌≤◌, ◌≡◌, ◌⊎◌, Bool, true, false, not}

pub record Arith (A : Type 0) : Type 0 where
  -- The double nearest to n / 100, which is how a decimal literal of two places is read.
  pub hundredths : ℕ → A
  pub add : A → A → A
  pub sub : A → A → A
  pub mul : A → A → A
  pub div : A → A → A
  pub abs : A → A
  pub lt : A → A → Bool
  pub le : A → A → Bool
  pub eq : A → A → Bool
  -- `parseFloat(x.toFixed(2))`
  pub to_fixed2 : A → A

-- The literal of a whole number.
abbrev pub whole : {A : Type 0} ⦃n : Arith A⦄ → ℕ → A
whole ⦃n⦄ k = n.hundredths (k * 100)

pub record Laws {A : Type 0} (n : Arith A) : Type 0 where
  pub le_refl : (a : A) → n.le a a ≡ true
  pub le_trans : (a b c : A) → n.le a b ≡ true → n.le b c ≡ true → n.le a c ≡ true
  pub le_total : (a b : A) → (n.le a b ≡ true) ⊎ (n.le b a ≡ true)
  pub lt_not_le : (a b : A) → n.lt a b ≡ not (n.le b a)
  pub eq_same : (a : A) → n.eq a a ≡ true
  pub half_sum :
      (a b : A)
      → n.le a b ≡ true
      → (n.le a (n.div (n.add a b) (whole ⦃n = n⦄ 2)) ≡ true)
        × (n.le (n.div (n.add a b) (whole ⦃n = n⦄ 2)) b ≡ true)
  pub sub_self : (a : A) → n.sub a a ≡ n.hundredths 0
  pub abs_zero : n.abs (n.hundredths 0) ≡ n.hundredths 0
  pub zero_div :
      (a : A) → n.eq a (n.hundredths 0) ≡ false → n.div (n.hundredths 0) (n.abs a) ≡ n.hundredths 0
  pub zero_mul : (a : A) → n.mul (n.hundredths 0) a ≡ n.hundredths 0
  pub hundredths_mono : (i j : ℕ) → i ≤ j → n.le (n.hundredths i) (n.hundredths j) ≡ true
  pub mul_shrinks :
      (a r : A)
      → n.le (n.hundredths 0) a ≡ true
      → n.le (n.hundredths 0) r ≡ true
      → n.le r (n.hundredths 100) ≡ true
      → (n.le (n.hundredths 0) (n.mul a r) ≡ true) × (n.le (n.mul a r) a ≡ true)
  pub mul_nonneg :
      (a b : A)
      → n.le (n.hundredths 0) a ≡ true
      → n.le (n.hundredths 0) b ≡ true
      → n.le (n.hundredths 0) (n.mul a b) ≡ true
  pub to_fixed2_mono : (a b : A) → n.le a b ≡ true → n.le (n.to_fixed2 a) (n.to_fixed2 b) ≡ true
  pub to_fixed2_idem : (a : A) → n.to_fixed2 (n.to_fixed2 a) ≡ n.to_fixed2 a
  pub to_fixed2_hundredths : (k : ℕ) → n.to_fixed2 (n.hundredths k) ≡ n.hundredths k
