-- ===== src/Number/Cents.antt =====
-- An arithmetic that meets the laws: non-negative amounts counted in hundredths, every product and
-- quotient rounded down. A difference is taken as the distance, since no amount is negative.
use stellar_kraal_backend.Prelude.{
  ltb, leb, ◌==◌, ℕ, ◌+◌, ◌-◌, ◌*◌, ◌/◌, ◌≤◌, ◌≡◌, refl, true, arith,
}
use stellar_kraal_backend.Number.{Arith, Laws}

instance abbrev pub cents : Arith ℕ
cents = record {
  hundredths = λ k. k;
  add = λ a b. a + b;
  sub = λ a b. (a - b) + (b - a);
  mul = λ a b. (a * b) / 100;
  div = λ a b. (a * 100) / b;
  abs = λ a. a;
  lt = ltb;
  le = leb;
  eq = ◌==◌;
  to_fixed2 = λ a. a;
}

leb→le : (a b : ℕ) → leb a b ≡ true → a ≤ b
leb→le a b h = ground arith

le→leb : (a b : ℕ) → a ≤ b → leb a b ≡ true
le→leb a b h = ground arith

leb_trans : (a b c : ℕ) → leb a b ≡ true → leb b c ≡ true → leb a c ≡ true
leb_trans a b c h k = ground arith

half_sum_lem :
    (a b : ℕ)
    → leb a b ≡ true
    → (leb a (((a + b) * 100) / 200) ≡ true) × (leb (((a + b) * 100) / 200) b ≡ true)
half_sum_lem a b h =
    (le→leb _ _ (omega (arith, leb→le a b h)), le→leb _ _ (omega (arith, leb→le a b h)))

mul_le : (a r : ℕ) → r ≤ 100 → a * r ≤ a * 100
mul_le a r h = grind arith

mul_shrinks_lem :
    (a r : ℕ)
    → leb 0 a ≡ true
    → leb 0 r ≡ true
    → leb r 100 ≡ true
    → (leb 0 ((a * r) / 100) ≡ true) × (leb ((a * r) / 100) a ≡ true)
mul_shrinks_lem a r _ _ h =
    (le→leb _ _ (omega arith), le→leb _ _ (omega (arith, mul_le a r (leb→le r 100 h))))

pub cents-Laws : Laws cents
cents-Laws = record {
  le_refl = λ a. ground arith;
  le_trans = leb_trans;
  le_total = λ a b. ground arith;
  lt_not_le = λ a b. ground arith;
  eq_same = λ a. ground arith;
  half_sum = half_sum_lem;
  sub_self = λ a. omega arith;
  abs_zero = refl;
  zero_div = λ a _. grind arith;
  zero_mul = λ a. omega arith;
  hundredths_mono = λ i j h. le→leb i j h;
  mul_shrinks = mul_shrinks_lem;
  mul_nonneg = λ a b _ _. le→leb _ _ (omega arith);
  to_fixed2_mono = λ a b h. h;
  to_fixed2_idem = λ a. refl;
  to_fixed2_hundredths = λ k. refl;
}
