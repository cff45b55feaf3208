-- ===== src/App/Detection/Scan/Brightest.antt =====
-- What the scan of a frame computes, on buffers that hold the frame.
use Prim.Native.Nat.{ℕ, ◌+◌, ◌*◌, ◌≤◌, ◌<◌}
use native.Mathlib.Nat.{mul-le-mul}
use solta.Base.{◌≡◌, refl, ap, ◌∙◌, ◌⊎◌, none, List, [], ◌∷◌, ◌++◌, All, arith, ◌==◌, length, false}
use solta.App.Float64.{Float64, IsIeee}
use solta.App.Trap.{Returns, Returns-weaken}
use solta.App.Detection.Detector.{Detector}
use solta.App.Detection.Scan.{Scan, strides, stride, scan, nothing_seen}
use solta.App.Detection.Scan.Points.{
  column, points, bright_one, bright_count, Stored, NotAbove, Attained, Gathers,
  scan_columns-points,
}
use solta.App.Detection.Scan.Gather.{scan_points-Gathers}
use solta.App.Detection.Scan.Grid.{
  sum_over, sum_multiples, sum_over-grid, strides-below, All-grid, All-points, points-All,
  get_elem?-some,
}

module _ {W I : Type 0} ⦃f : Float64 W⦄ (d : Detector W I) (buffer : List ℕ) where
  -- The buffer has a row of bytes for each row of the frame, and a row has room for its columns.
  pub record Covers : Type 0 where
    pub row_fits : d.width ≤ d.bytes_per_row_of_plane
    pub rows_fit : d.height * d.bytes_per_row_of_plane ≤ length buffer

  -- The bright points of the frame whose column and row are multiples of `pixels_to_skip`.
  unfoldable pub bright_total : ℕ
  bright_total =
      sum_multiples (λ x. sum_multiples (λ y. bright_one d buffer (x, y)) d.height d.pixels_to_skip)
        d.width d.pixels_to_skip

  pub record IsBrightest (t : Scan W) : Type 0 where
    pub counted : t.num_bright_pixels ≡ bright_total
    pub upper :
        (i j : ℕ)
        → i * d.pixels_to_skip < d.width
        → j * d.pixels_to_skip < d.height
        → NotAbove d buffer t.highest_intensity (i * d.pixels_to_skip, j * d.pixels_to_skip)
    pub attained :
        ((t.highest_intensity_point ≡ none) × (t.highest_intensity ≡ f.least_normal_magnitude))
        ⊎ Attained d buffer t

  covered : Covers → (x y : ℕ) → x < d.width → y < d.height → Stored d buffer (x, y)
  covered c x y hx hy =
      let rows : (y + 1) * d.bytes_per_row_of_plane ≤ d.height * d.bytes_per_row_of_plane =
        mul-le-mul (omega arith) (omega arith) in
      get_elem?-some buffer (x + y * d.bytes_per_row_of_plane)
        (omega (arith, c.row_fits, c.rows_fit))

  all_covered :
      Covers
      → (xs ys : List ℕ) → All (λ x. x < d.width) xs
      → All (λ y. y < d.height) ys
      → All (λ x. All (λ y. Stored d buffer (x, y)) ys) xs
  all_covered c [] ys hx hy = tt
  all_covered c (x ∷ xs) ys hx hy = (rows ys hy, all_covered c xs ys hx.1 hy)
    where
      rows : (l : List ℕ) → All (λ y. y < d.height) l → All (λ y. Stored d buffer (x, y)) l
      rows [] h = tt
      rows (y ∷ l) h = (covered c x y hx.0 h.0, rows l h.1)

  count-append :
      (ps qs : List (ℕ × ℕ))
      → bright_count d buffer (ps ++ qs) ≡ bright_count d buffer ps + bright_count d buffer qs
  count-append [] qs = omega arith
  count-append (p ∷ ps) qs = omega (arith, count-append ps qs)

  count-column :
      (x : ℕ) (ys : List ℕ)
      → bright_count d buffer (column x ys) ≡ sum_over (λ y. bright_one d buffer (x, y)) ys
  count-column x [] = refl
  count-column x (y ∷ ys) = ap (λ n. bright_one d buffer (x, y) + n) (count-column x ys)

  count-points :
      (xs ys : List ℕ)
      → bright_count d buffer (points xs ys)
        ≡ sum_over (λ x. sum_over (λ y. bright_one d buffer (x, y)) ys) xs
  count-points [] ys = refl
  count-points (x ∷ xs) ys =
      rw (count-append (column x ys) (points xs ys), count-column x ys, count-points xs ys) refl

  gathered :
      (t : Scan W)
      → 1 ≤ d.pixels_to_skip
      → let xs = strides d.width 0 d.width d.pixels_to_skip in
        let ys = strides d.height 0 d.height d.pixels_to_skip in
        Gathers d buffer (points xs ys) nothing_seen t → IsBrightest t
  unfolding bright_total
  gathered t pos g =
      let k = d.pixels_to_skip in
      let xs = strides d.width 0 d.width k in
      let ys = strides d.height 0 d.height k in
      let one = λ (x : ℕ) (y : ℕ). bright_one d buffer (x, y) in
      let counts : bright_count d buffer (points xs ys) ≡ bright_total =
        count-points xs ys
        ∙ ap (λ (r : ℕ → ℕ). sum_over r xs) (λ i x. sum_over-grid (one x) d.height k i)
        ∙ sum_over-grid (λ x. sum_multiples (one x) d.height k) d.width k in
      record {
        counted = omega (arith, g.counted, counts);
        upper = λ i j hi hj.
            let P = NotAbove d buffer t.highest_intensity in
            let rows =
              All-grid (λ x. All (λ y. P (x, y)) ys) d.width k i pos (points-All P xs ys g.upper)
                hi in
            All-grid (λ y. P (i * k, y)) d.height k j pos rows hj;
        attained = g.attained;
      }

  -- Where the arithmetic keeps `IsIeee`, on a buffer that covers the frame (`Covers`) and with a
  -- step that is not 0, the scan does not trap or read outside the buffer. It counts the points
  -- whose column and row are multiples of the step and whose value is above three quarters of the
  -- threshold, no such value is above the highest intensity it returns, and that intensity is the
  -- value at the point it returns, which is bright, unless it still is the number it started with
  -- and there is no point.
  pub scan-IsBrightest :
      IsIeee W → 1 ≤ d.pixels_to_skip → Covers → Returns IsBrightest (scan d buffer)
  unfolding scan stride
  scan-IsBrightest laws pos c =
      let k = d.pixels_to_skip in
      let xs = strides d.width 0 d.width k in
      let ys = strides d.height 0 d.height k in
      let step : (k == 0) ≡ false = ground arith in
      let stored = All-points (Stored d buffer) xs ys (
        all_covered c xs ys (strides-below d.width 0 d.width k)
          (strides-below d.height 0 d.height k)) in
      rw (step, scan_columns-points d buffer xs ys nothing_seen)
        (Returns-weaken (Gathers d buffer (points xs ys) nothing_seen) IsBrightest _
          (λ t. gathered t pos)
          (scan_points-Gathers laws d buffer (points xs ys) nothing_seen stored))
