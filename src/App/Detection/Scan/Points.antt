-- ===== src/App/Detection/Scan/Points.antt =====
-- The loops of a frame's scan as one walk over a list of points, and what the walk gathers.
use Prim.Native.Nat.{ℕ, ◌+◌, ◌*◌}
use solta.Base.{
  ◌≡◌, refl, ap, ◌∙◌, ◌⊎◌, Bool, true, false, Option, none, some, List, [], ◌∷◌, ◌++◌, All,
  if◌then◌else◌,
}
use solta.App.Float64.{Float64}
use solta.App.Trap.{◌>>=◌, get_elem?}
use solta.App.Detection.Detector.{Detector}
use solta.App.Detection.Scan.{Scan, cut, scan_pixel, scan_column, scan_columns}

abbrev pub column : ℕ → List ℕ → List (ℕ × ℕ)
column x [] = []
column x (y ∷ ys) = (x, y) ∷ column x ys

abbrev pub points : List ℕ → List ℕ → List (ℕ × ℕ)
points [] ys = []
points (x ∷ xs) ys = column x ys ++ points xs ys

module _ {W I : Type 0} ⦃f : Float64 W⦄ (d : Detector W I) (buffer : List ℕ) where
  open f use {of_int, gt}

  -- The value at a point of the plane, where the buffer has one.
  abbrev pub sample : ℕ × ℕ → Option ℕ
  sample p = get_elem? buffer (p.0 + p.1 * d.bytes_per_row_of_plane)

  unfoldable pub is_bright : Option ℕ → Bool
  is_bright none = false
  is_bright (some v) = gt (of_int v) (cut d buffer)

  abbrev pub bright_one : ℕ × ℕ → ℕ
  bright_one p = if is_bright (sample p) then 1 else 0

  abbrev pub bright_count : List (ℕ × ℕ) → ℕ
  bright_count [] = 0
  bright_count (p ∷ ps) = bright_one p + bright_count ps

  abbrev pub Stored : ℕ × ℕ → Type 0
  Stored p = (v : ℕ) × (sample p ≡ some v)

  abbrev pub NotAbove : W → ℕ × ℕ → Type 0
  NotAbove top p =
      (v : ℕ) → sample p ≡ some v → gt (of_int v) (cut d buffer) ≡ true → gt (of_int v) top ≡ false

  pub record Attained (t : Scan W) : Type 0 where
    pub point : ℕ × ℕ
    pub value : ℕ
    pub found : t.highest_intensity_point ≡ some point
    pub stored : sample point ≡ some value
    pub highest : t.highest_intensity ≡ of_int value
    pub bright : gt (of_int value) (cut d buffer) ≡ true

  -- What a walk over the points `ps` makes of `s`.
  pub record Gathers (ps : List (ℕ × ℕ)) (s t : Scan W) : Type 0 where
    pub counted : t.num_bright_pixels ≡ s.num_bright_pixels + bright_count ps
    pub upper : All (NotAbove t.highest_intensity) ps
    pub grown : (v : W) → gt v s.highest_intensity ≡ false → gt v t.highest_intensity ≡ false
    pub attained :
        ((t.highest_intensity_point ≡ s.highest_intensity_point)
          × (t.highest_intensity ≡ s.highest_intensity))
        ⊎ Attained t

  abbrev pub scan_points : List (ℕ × ℕ) → Scan W → Option (Scan W)
  scan_points [] s = some s
  scan_points (p ∷ ps) s = scan_pixel d buffer p.0 p.1 s >>= scan_points ps

  bind_assoc :
      (o : Option (Scan W)) (g h : Scan W → Option (Scan W))
      → (o >>= g >>= h) ≡ (o >>= λ s. g s >>= h)
  bind_assoc none g h = refl
  bind_assoc (some s) g h = refl

  column-points :
      (x : ℕ) (ys : List ℕ) (ps : List (ℕ × ℕ)) (s : Scan W)
      → (scan_column d buffer x ys s >>= scan_points ps) ≡ scan_points (column x ys ++ ps) s
  unfolding scan_column
  column-points x [] ps s = refl
  column-points x (y ∷ ys) ps s =
      bind_assoc (scan_pixel d buffer x y s) (scan_column d buffer x ys) (scan_points ps)
      ∙ ap (λ (g : Scan W → Option (Scan W)). scan_pixel d buffer x y s >>= g)
          (λ i t. column-points x ys ps t i)

  pub scan_columns-points :
      (xs ys : List ℕ) (s : Scan W) → scan_columns d buffer xs ys s ≡ scan_points (points xs ys) s
  unfolding scan_columns
  scan_columns-points [] ys s = refl
  scan_columns-points (x ∷ xs) ys s =
      ap (λ (g : Scan W → Option (Scan W)). scan_column d buffer x ys s >>= g)
        (λ i t. scan_columns-points xs ys t i)
      ∙ column-points x ys (points xs ys) s
