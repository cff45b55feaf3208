-- ===== src/App/Detection/Scan.antt =====
-- The loops over the pixels of a frame in `captureOutput` of DetectionVC.swift and
-- `capturedOutput` of DetectionHelper.swift, which are the same.
use Prim.Native.Nat.{ℕ, zero, suc, ◌+◌, ◌*◌}
use solta.Base.{Bool, true, false, Option, none, some, List, [], ◌∷◌, if◌then◌else◌, ltb, ◌==◌}
use solta.App.Float64.{Float64, three_quarters}
use solta.App.Trap.{◌>>=◌, get_elem?}
use solta.App.Detection.Detector.{Detector, get_intensity_threshold, detection_mode}
pub mod Points
pub mod Gather
pub mod Brightest
pub mod Grid

-- What the CVPixelBuffer functions report of a pixel buffer and its plane 0.
pub record PixelBuffer : Type 0 where
  pub width_of_plane : ℕ
  pub height_of_plane : ℕ
  pub bytes_per_row : ℕ
  pub bytes_per_row_of_plane : ℕ
  pub width : ℕ
  pub height : ℕ
  pub base_address : Option (List ℕ)  -- the UInt8 values from there on

-- `stride(from:to:by:)`; `n` rounds are enough from any start.
unfoldable pub strides : ℕ → ℕ → ℕ → ℕ → List ℕ
strides zero i n k = []
strides (suc rounds) i n k =
    let later = strides rounds (i + k) n k in if ltb i n then i ∷ later else []

unfoldable pub stride : ℕ → ℕ → ℕ → Option (List ℕ)
stride from to by = if by == 0 then none else some (strides to from to by)

pub record Scan (W : Type 0) : Type 0 where
  pub num_bright_pixels : ℕ
  pub highest_intensity : W
  pub highest_intensity_point : Option (ℕ × ℕ)  -- `none` for (-1, -1)

module _ {W : Type 0} ⦃f : Float64 W⦄ where
  open f use {least_normal_magnitude}

  abbrev pub nothing_seen : Scan W
  nothing_seen = record {
    num_bright_pixels = 0;
    highest_intensity = least_normal_magnitude;
    highest_intensity_point = none;
  }

module _ {W I : Type 0} ⦃f : Float64 W⦄ (d : Detector W I) (buffer : List ℕ) where
  open f use {of_int, times, gt}

  abbrev pub cut : W
  cut = times (get_intensity_threshold detection_mode d) three_quarters

  unfoldable pub see : ℕ × ℕ → W → Scan W → Scan W
  see p intensity s =
      if gt intensity cut
      then (if gt intensity s.highest_intensity
          then record {
            num_bright_pixels = s.num_bright_pixels + 1;
            highest_intensity = intensity;
            highest_intensity_point = some p;
          }
          else record s { num_bright_pixels = s.num_bright_pixels + 1 })
      else s

  unfoldable pub scan_pixel : ℕ → ℕ → Scan W → Option (Scan W)
  scan_pixel x y s =
      get_elem? buffer (x + y * d.bytes_per_row_of_plane) >>= λ b. some (see (x, y) (of_int b) s)

  unfoldable pub scan_column : ℕ → List ℕ → Scan W → Option (Scan W)
  scan_column x [] s = some s
  scan_column x (y ∷ ys) s = scan_pixel x y s >>= scan_column x ys

  unfoldable pub scan_columns : List ℕ → List ℕ → Scan W → Option (Scan W)
  scan_columns [] ys s = some s
  scan_columns (x ∷ xs) ys s = scan_column x ys s >>= scan_columns xs ys

  unfoldable pub scan : Option (Scan W)
  scan = do
    xs ← stride 0 d.width d.pixels_to_skip
    ys ← stride 0 d.height d.pixels_to_skip
    scan_columns xs ys nothing_seen
