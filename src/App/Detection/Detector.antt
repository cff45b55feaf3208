-- ===== src/App/Detection/Detector.antt =====
-- The state that DetectionVC and DetectionHelper keep, with the thresholds and the timer methods.
use Prim.Native.Nat.{ℕ, zero, suc, ◌+◌}
use solta.Base.{Bool, true, false, Option, none, some, List, [], ◌∷◌, if◌then◌else◌}
use solta.App.Float64.{Float64}
use solta.App.Trap.{◌>>=◌}

pub data DetectionModes : Type 0 where
  yuv420v bgra : DetectionModes

pub data OperationState : Type 0 where
  testing calibration running dormant other : OperationState

unfoldable pub same_mode : DetectionModes → DetectionModes → Bool
same_mode yuv420v yuv420v = true
same_mode bgra bgra = true
same_mode yuv420v bgra = false
same_mode bgra yuv420v = false

pub record Acceleration (W : Type 0) : Type 0 where
  pub x : W
  pub y : W
  pub z : W

-- `I` is the type of images (CGImage).
pub record Detector (W I : Type 0) : Type 0 where
  pub cgimage : Option I
  pub dropped_frames : ℕ
  pub num_frames : ℕ
  pub num_events : ℕ
  pub acc_data : Acceleration W
  pub is_flat : Bool
  pub time_started : W
  pub time_elapsed : W
  pub flux : W
  pub pixels_to_skip : ℕ
  pub intensity_threshholds : List (DetectionModes × W)
  pub min_ray_size : ℕ
  pub current_state : OperationState
  pub plane_width : ℕ
  pub plane_height : ℕ
  pub bytes_per_row : ℕ
  pub bytes_per_row_of_plane : ℕ
  pub width : ℕ
  pub height : ℕ
  pub w : W
  pub h : W
  pub intensity_threshhold : W

abbrev pub detection_mode : DetectionModes
detection_mode = yuv420v

abbrev pub table_index : DetectionModes → ℕ
table_index bgra = 0
table_index yuv420v = 1

module _ {W : Type 0} where
  -- `table[i].1 = value`
  unfoldable pub set_value : ℕ → W → List (DetectionModes × W) → Option (List (DetectionModes × W))
  set_value i value [] = none
  set_value zero value ((mode, old) ∷ rest) = some ((mode, value) ∷ rest)
  set_value (suc i) value (entry ∷ rest) = set_value i value rest >>= λ l. some (entry ∷ l)

module _ {W : Type 0} ⦃f : Float64 W⦄ where
  open f use {of_int, divide}

  abbrev pub target_flux : W
  target_flux = divide (of_int 1) (of_int 10)

  unfoldable pub threshold_in : DetectionModes → List (DetectionModes × W) → W
  threshold_in mode [] = of_int 0
  threshold_in mode ((temp_detection_mode, value) ∷ rest) =
      let later = threshold_in mode rest in
      if same_mode mode temp_detection_mode then value else later

module _ {W I : Type 0} ⦃f : Float64 W⦄ where
  open f use {of_int, plus, minus, divide, gt, le}

  -- The two classes differ in `pixels_to_skip`: 2 in DetectionVC and 8 in DetectionHelper.
  abbrev pub new_detector : ℕ → Option I → W → W → Detector W I
  new_detector skip image started elapsed = record {
    cgimage = image;
    dropped_frames = 0;
    num_frames = 0;
    num_events = 0;
    acc_data = record { x = of_int 0; y = of_int 0; z = minus (of_int 0) (of_int 1) };
    is_flat = false;
    time_started = started;
    time_elapsed = elapsed;
    flux = of_int 0;
    pixels_to_skip = skip;
    intensity_threshholds = (bgra, of_int 450) ∷ (yuv420v, of_int 160) ∷ [];
    min_ray_size = 1;
    current_state = running;
    plane_width = 0;
    plane_height = 0;
    bytes_per_row = 0;
    bytes_per_row_of_plane = 0;
    width = 0;
    height = 0;
    w = of_int 0;
    h = of_int 0;
    intensity_threshhold = of_int 0;
  }

  abbrev pub get_intensity_threshold : DetectionModes → Detector W I → W
  get_intensity_threshold mode d = threshold_in mode d.intensity_threshholds

  unfoldable pub set_intensity_threshold : DetectionModes → W → Detector W I → Option (Detector W I)
  set_intensity_threshold mode value d =
      set_value (table_index mode) value d.intensity_threshholds >>= λ l.
      some (record d { intensity_threshholds = l })

  unfoldable pub increment_intensity_threshold :
      DetectionModes → W → Detector W I → Option (Detector W I)
  increment_intensity_threshold mode value d =
      set_intensity_threshold mode (plus (get_intensity_threshold mode d) value) d

  -- `timeElapsed` and `flux` at the time `now`
  abbrev pub measure_flux : W → Detector W I → Detector W I
  measure_flux now d =
      let elapsed = minus now d.time_started in
      record d { time_elapsed = elapsed; flux = divide (of_int d.num_events) elapsed }

  unfoldable pub update_threshold : W → Detector W I → Option (Detector W I)
  update_threshold now d =
      let e = measure_flux now d in
      if gt e.flux target_flux
      then increment_intensity_threshold detection_mode (of_int 5) e
      else some e

  -- The argument is `motionManager.accelerometerData`.
  unfoldable pub update_acc : Option (Acceleration W) → Detector W I → Detector W I
  update_acc none d = record d {
    is_flat = le d.acc_data.z (minus (of_int 0) (divide (of_int 95) (of_int 100)));
  }
  update_acc (some a) d = record d {
    acc_data = a;
    is_flat = le a.z (minus (of_int 0) (divide (of_int 95) (of_int 100)));
  }

module _ {W I : Type 0} where
  unfoldable pub dropped_frame : Detector W I → Detector W I
  dropped_frame d = record d { dropped_frames = d.dropped_frames + 1 }
