-- ===== src/App/Detection/Scan/Grid.antt =====
-- The points that `stride` visits are the multiples of the step below the bound, each once.
use Prim.Native.Nat.{ℕ, zero, suc, ◌+◌, ◌*◌, ◌≤◌, ◌<◌}
use native.Mathlib.Nat.{mul-le-mul}
use solta.Base.{
  ◌≡◌, refl, ap, subst, ◌∙◌, inl, inr, true, false, some, List, [], ◌∷◌, ◌++◌, All, All-append,
  if◌then◌else◌, Bool-cases, arith, ltb, length,
}
use solta.App.Trap.{get_elem?}
use solta.App.Detection.Scan.{strides}
use solta.App.Detection.Scan.Points.{column, points}

-- `g i + g (i + 1) + ...`, `n` of them
abbrev pub total : (ℕ → ℕ) → ℕ → ℕ → ℕ
total g i zero = 0
total g i (suc n) = g i + total g (suc i) n

-- The sum of `g` at the multiples of `k` below `m`.
abbrev pub at_multiple : (ℕ → ℕ) → ℕ → ℕ → ℕ → ℕ
at_multiple g m k i = if ltb (i * k) m then g (i * k) else 0

abbrev pub sum_multiples : (ℕ → ℕ) → ℕ → ℕ → ℕ
sum_multiples g m k = total (at_multiple g m k) 0 m

abbrev pub sum_over : (ℕ → ℕ) → List ℕ → ℕ
sum_over g [] = 0
sum_over g (x ∷ xs) = g x + sum_over g xs

past : (g : ℕ → ℕ) (m k n i : ℕ) → m ≤ i * k → total (at_multiple g m k) i n ≡ 0
past g m k zero i h = refl
past g m k (suc n) i h =
    let next : m ≤ suc i * k = omega arith in ground (arith, past g m k n (suc i) next)

sum_over-strides :
    (g : ℕ → ℕ) (m k n i x : ℕ)
    → x ≡ i * k
    → sum_over g (strides n x m k) ≡ total (at_multiple g m k) i n
unfolding strides
sum_over-strides g m k zero i x at = refl
sum_over-strides g m k (suc n) i x at =
    let next : x + k ≡ suc i * k = omega arith in
    let ih = sum_over-strides g m k n (suc i) (x + k) next in
    elim (Bool-cases (ltb x m)) [
      | inl e ↦
          let f : ltb (i * k) m ≡ true = cc in
          rw (e, f)
            (ap (λ t. t + sum_over g (strides n (x + k) m k)) (ap g at)
              ∙ ap (λ t. g (i * k) + t) ih)
      | inr e ↦
          let f : ltb (i * k) m ≡ false = cc in
          let beyond : m ≤ suc i * k = ground arith in rw (e, f, past g m k n (suc i) beyond) refl
    ]

pub sum_over-grid : (g : ℕ → ℕ) (m k : ℕ) → sum_over g (strides m 0 m k) ≡ sum_multiples g m k
sum_over-grid g m k = sum_over-strides g m k m 0 0 (omega arith)

pub strides-below : (n i m k : ℕ) → All (λ x. x < m) (strides n i m k)
unfolding strides
strides-below zero i m k = tt
strides-below (suc n) i m k = elim (Bool-cases (ltb i m)) [
  | inl e ↦ rw e (ground arith, strides-below n (i + k) m k)
  | inr e ↦ rw e tt
]

module _ (Q : ℕ → Type 0) where
  All-strides : (m k n j x y : ℕ) → All Q (strides n x m k) → j < n → y ≡ x + j * k → y < m → Q y
  unfolding strides
  All-strides m k zero j x y h lt at below = absurd (omega arith)
  All-strides m k (suc n) zero x y h lt at below =
      let inside : ltb x m ≡ true = ground arith in
      let here : All Q (x ∷ strides n (x + k) m k) = rw inside at h in
      subst Q (omega arith) (here.0)
  All-strides m k (suc n) (suc j) x y h lt at below =
      let inside : ltb x m ≡ true = ground arith in
      let here : All Q (x ∷ strides n (x + k) m k) = rw inside at h in
      All-strides m k n j (x + k) y (here.1) (omega arith) (omega arith) below

  pub All-grid : (m k j : ℕ) → 1 ≤ k → All Q (strides m 0 m k) → j * k < m → Q (j * k)
  All-grid m k j pos h below =
      let small : j * 1 ≤ j * k = mul-le-mul (omega arith) pos in
      All-strides m k m j 0 (j * k) h (omega arith) (omega arith) below

module _ (P : ℕ × ℕ → Type 0) where
  All-column : (x : ℕ) (ys : List ℕ) → All (λ y. P (x, y)) ys → All P (column x ys)
  All-column x [] h = tt
  All-column x (y ∷ ys) h = (h.0, All-column x ys h.1)

  column-All :
      (x : ℕ) (ys : List ℕ) (ps : List (ℕ × ℕ))
      → All P (column x ys ++ ps)
      → All (λ y. P (x, y)) ys × All P ps
  column-All x [] ps h = (tt, h)
  column-All x (y ∷ ys) ps h = let r = column-All x ys ps h.1 in ((h.0, r.0), r.1)

  pub All-points : (xs ys : List ℕ) → All (λ x. All (λ y. P (x, y)) ys) xs → All P (points xs ys)
  All-points [] ys h = tt
  All-points (x ∷ xs) ys h =
      All-append P (column x ys) (points xs ys) (All-column x ys h.0) (All-points xs ys h.1)

  pub points-All : (xs ys : List ℕ) → All P (points xs ys) → All (λ x. All (λ y. P (x, y)) ys) xs
  points-All [] ys h = tt
  points-All (x ∷ xs) ys h = let r = column-All x ys (points xs ys) h in (r.0, points-All xs ys r.1)

pub get_elem?-some : (l : List ℕ) (n : ℕ) → n < length l → (v : ℕ) × (get_elem? l n ≡ some v)
get_elem?-some [] n h = absurd (omega arith)
get_elem?-some (x ∷ l) zero h = (x, refl)
get_elem?-some (x ∷ l) (suc n) h = get_elem?-some l n (omega arith)
