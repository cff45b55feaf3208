-- ===== src/App/Float64.antt =====
-- What the Swift code does with a Double or a CGFloat, which is a Double on a 64-bit target.
use Prim.Native.Nat.{ℕ, ◌+◌, ◌-◌, ◌*◌, ◌/◌, ◌≤◌, ◌^◌}
use solta.Base.{◌≡◌, Bool, true, false, arith, ltb, leb}

pub record Float64 (W : Type 0) : Type 0 where
  pub of_int : ℕ → W
  pub plus : W → W → W
  pub minus : W → W → W
  pub times : W → W → W
  pub divide : W → W → W
  pub gt : W → W → Bool
  pub le : W → W → Bool
  pub least_normal_magnitude : W
  pub single : W → W  -- Float32(x), as a Double again

module _ {W : Type 0} ⦃f : Float64 W⦄ where
  abbrev pub three_quarters : W
  three_quarters = f.divide (f.of_int 75) (f.of_int 100)

  infix 4 ◌≼◌
  abbrev pub ◌≼◌ : W → W → Type 0
  x ≼ y = f.le x y ≡ true

-- What IEEE 754 says of the operations that the theorems are about. NaN is the value that is not
-- `<=` itself; integers up to 2 ^ 53 and their products with 0.75 are exact.
pub record IsIeee (W : Type 0) ⦃f : Float64 W⦄ : Type 0 where
  pub gt_trans : (x y z : W) → f.gt x y ≡ true → f.gt y z ≡ true → f.gt x z ≡ true
  pub gt_le_trans : (x y z : W) → f.gt x y ≡ true → z ≼ y → f.gt x z ≡ true
  pub not_gt-le : (x y : W) → x ≼ x → y ≼ y → f.gt x y ≡ false → x ≼ y
  pub le-not_gt : (x y : W) → x ≼ y → f.gt x y ≡ false
  pub le_trans : (x y z : W) → x ≼ y → y ≼ z → x ≼ z
  pub le_refl_right : (x y : W) → x ≼ y → y ≼ y
  pub of_int-le : (a b : ℕ) → a ≤ b → f.of_int a ≼ f.of_int b
  pub tiny-lt-one : f.gt (f.of_int 1) f.least_normal_magnitude ≡ true
  pub of_int-plus : (a b : ℕ) → a + b ≤ 2 ^ 53 → f.plus (f.of_int a) (f.of_int b) ≡ f.of_int (a + b)
  pub times-three_quarters :
      (a : ℕ) → 4 * a ≤ 2 ^ 53 → f.times (f.of_int (4 * a)) three_quarters ≡ f.of_int (3 * a)
  pub three_quarters-le : (x y : W) → x ≼ y → f.times x three_quarters ≼ f.times y three_quarters
  pub plus-le-plus : (x y : W) (n : ℕ) → x ≼ y → f.plus x (f.of_int n) ≼ f.plus y (f.of_int n)
  pub plus-le : (x : W) (n : ℕ) → x ≼ x → x ≼ f.plus x (f.of_int n)

-- The laws can be met: whole thousandths.
instance abbrev pub thousandths : Float64 ℕ
thousandths = record {
  of_int = λ n. 1000 * n;
  plus = λ a b. a + b;
  minus = λ a b. a - b;
  times = λ a b. a * b / 1000;
  divide = λ a b. a * 1000 / b;
  gt = λ a b. ltb b a;
  le = λ a b. leb a b;
  least_normal_magnitude = 1;
  single = λ a. a;
}

pub thousandths-IsIeee : IsIeee ℕ
thousandths-IsIeee = ground arith
