-- ===== src/App/Trap.antt =====
-- Swift code that may stop the program: `none` is a trap (an index out of range, an unwrapped nil,
-- a failed cast) or a read outside a buffer.
use Prim.Native.Nat.{ℕ, zero, suc}
use solta.Base.{◌≡◌, refl, subst, Option, none, some, List, [], ◌∷◌}

infixl 5 ◌>>=◌
abbrev pub ◌>>=◌ {ℓ κ} : {A : Type ℓ} {B : Type κ} → Option A → (A → Option B) → Option B
none >>= f = none
some a >>= f = f a

-- The code does not stop the program, and what it computes has `P`.
abbrev pub Returns {ℓ} : {A : Type ℓ} → (A → Type 0) → Option A → Type 0
Returns P none = ⊥
Returns P (some a) = P a

-- If the code does not stop the program, what it computes has `P`.
abbrev pub Yields {ℓ} : {A : Type ℓ} → (A → Type 0) → Option A → Type 0
Yields P none = Unit
Yields P (some a) = P a

module _ {ℓ} {A : Type ℓ} where
  abbrev pub get_elem? : List A → ℕ → Option A
  get_elem? [] n = none
  get_elem? (x ∷ xs) zero = some x
  get_elem? (x ∷ xs) (suc n) = get_elem? xs n

  pub Returns-weaken :
      (P Q : A → Type 0) (o : Option A) → ((a : A) → P a → Q a) → Returns P o → Returns Q o
  Returns-weaken P Q none g h = h
  Returns-weaken P Q (some a) g h = g a h

  pub Returns-bind {κ} :
      {B : Type κ} (P : A → Type 0) (Q : B → Type 0) (o : Option A) (k : A → Option B)
      → Returns P o
      → ((a : A) → P a → Returns Q (k a))
      → Returns Q (o >>= k)
  Returns-bind P Q none k h g = h
  Returns-bind P Q (some a) k h g = g a h

  pub Returns-some : (P : A → Type 0) (o : Option A) → Returns P o → (a : A) × (o ≡ some a) × P a
  Returns-some P none h = absurd h
  Returns-some P (some a) h = (a, refl, h)

  pub Returns-at : (P : A → Type 0) (o : Option A) (a : A) → o ≡ some a → P a → Returns P o
  Returns-at P none a e h = cc
  Returns-at P (some b) a e h = subst P (cc) h

  pub Returns-both :
      (P Q : A → Type 0) (o : Option A) → Returns P o → Returns Q o → Returns (λ a. P a × Q a) o
  Returns-both P Q none h k = h
  Returns-both P Q (some a) h k = (h, k)

  pub Yields-bind {κ} :
      {B : Type κ} (Q : B → Type 0) (o : Option A) (k : A → Option B)
      → ((a : A) → o ≡ some a → Yields Q (k a))
      → Yields Q (o >>= k)
  Yields-bind Q none k g = tt
  Yields-bind Q (some a) k g = g a refl

  pub Yields-some : (P : A → Type 0) (o : Option A) (a : A) → o ≡ some a → Yields P o → P a
  Yields-some P none a e h = cc
  Yields-some P (some b) a e h = subst P (cc) h

  pub Returns-Yields :
      (P Q : A → Type 0) (o : Option A) → ((a : A) → P a → Q a) → Returns P o → Yields Q o
  Returns-Yields P Q none g h = tt
  Returns-Yields P Q (some a) g h = g a h
