-- ===== src/App/Detection/Capture.antt =====
-- `captureOutput` of DetectionVC.swift, `capturedOutput` of DetectionHelper.swift, and what the
-- first of them leaves to the main queue.
use Prim.Native.Nat.{ℕ, ◌+◌, ◌-◌, ◌*◌, ◌/◌}
use solta.Base.{
  Bool, true, false, ◌&&◌, Option, none, some, List, [], ◌∷◌, ◌++◌, if◌then◌else◌, ltb, leb, ◌==◌,
}
use solta.App.Float64.{Float64}
use solta.App.Trap.{◌>>=◌}
use solta.App.Detection.Detector.{
  Detector, OperationState, testing, calibration, running, dormant, other, target_flux,
  get_intensity_threshold, detection_mode, measure_flux,
}
use solta.App.Detection.Scan.{PixelBuffer, Scan, scan}
pub mod Frame
pub mod Locks

-- `locked` counts the pixel buffers that are locked, `posted` holds the bright pixels of the events
-- whose closures wait on the main queue, `added` the images and scores of the detections that were
-- handed to FirebaseHelper, both oldest first.
pub record Session (W I : Type 0) : Type 0 where
  pub detector : Detector W I
  pub locked : ℕ
  pub posted : List ℕ
  pub added : List (I × W)

-- How the code of an event ends: it goes on behind the `if`, or returns from the whole function.
pub data Ending (A : Type 0) : Type 0 where
  goes_on : A → Ending A
  returns : A → Ending A

module _ {W I : Type 0} ⦃f : Float64 W⦄ where
  open f use {of_int, times, divide, gt, single}

  abbrev pub start_frame : Detector W I → Detector W I
  start_frame d = record d { current_state = running; num_frames = d.num_frames + 1 }

  unfoldable pub read_properties : PixelBuffer → Detector W I → Detector W I
  read_properties p d = if d.plane_width == p.width_of_plane then d else record d {
    plane_width = p.width_of_plane;
    plane_height = p.height_of_plane;
    bytes_per_row = p.bytes_per_row;
    bytes_per_row_of_plane = p.bytes_per_row_of_plane;
    width = p.width;
    height = p.height;
    w = of_int p.width;
    h = of_int p.height;
    intensity_threshhold = get_intensity_threshold detection_mode d;
  }

  unfoldable pub is_event : Detector W I → ℕ → Bool
  is_event d bright = leb d.min_ray_size bright && leb bright (d.width * d.height / 4)

  abbrev pub lock : Session W I → Session W I
  lock s = record s { locked = s.locked + 1 }

  abbrev pub unlock : Session W I → Session W I
  unlock s = record s { locked = s.locked - 1 }

  unfoldable pub finish : Ending (Session W I) → Session W I
  finish (goes_on s) = unlock s
  finish (returns s) = s

  abbrev pub count_event : W → Detector W I → Detector W I
  count_event now d = measure_flux now (record d { num_events = d.num_events + 1 })

  abbrev pub score_of : ℕ → Detector W I → W
  score_of bright d = single (times (of_int bright) d.intensity_threshhold)

  -- The two functions differ in what they do with an event.
  module _ (event : ℕ → PixelBuffer → Session W I → Option (Ending (Session W I))) where
    unfoldable pub when_event : PixelBuffer → ℕ → Session W I → Option (Ending (Session W I))
    when_event p bright s =
        if is_event s.detector bright then event bright p s else some (goes_on s)

    unfoldable pub observe : Option PixelBuffer → Session W I → Option (Session W I)
    observe sample s = do
      p ← sample
      buffer ← p.base_address
      let d = read_properties p s.detector
      seen ← scan d buffer
      ending ← when_event p seen.num_bright_pixels (record (lock s) { detector = d })
      some (finish ending)

    unfoldable pub observe_in :
        OperationState → Option PixelBuffer → Session W I → Option (Session W I)
    observe_in running sample s = observe sample s
    observe_in calibration sample s = observe sample s
    observe_in other sample s = observe sample s
    observe_in testing sample s = observe sample s
    observe_in dormant sample s = some s

    unfoldable pub on_frame : Option PixelBuffer → Session W I → Option (Session W I)
    on_frame sample s =
        let t : Session W I = record s { detector = start_frame s.detector } in
        observe_in t.detector.current_state sample t

  -- `create_cg_image` is `ciContext.createCGImage` of the frame.
  module _ (create_cg_image : PixelBuffer → Option I) (now : W) where
    -- DetectionVC leaves the rest of an event to the main queue.
    unfoldable pub post_event : ℕ → PixelBuffer → Session W I → Option (Ending (Session W I))
    post_event bright p s = some (
        goes_on (record s {
          detector = record (count_event now s.detector) { cgimage = create_cg_image p };
          posted = s.posted ++ (bright ∷ []);
        }))

    unfoldable pub capture_output : Option PixelBuffer → Session W I → Option (Session W I)
    capture_output = on_frame post_event

    -- DetectionHelper waits for the main queue, and returns early where the flux is too high.
    unfoldable pub add_event : ℕ → PixelBuffer → Session W I → Option (Ending (Session W I))
    add_event bright p s =
        let d = count_event now s.detector in
        if gt d.flux (times target_flux (divide (of_int 15) (of_int 10)))
        then some (returns (record s { detector = d }))
        else create_cg_image p >>= λ image. some (
            goes_on (record s {
              detector = record d { cgimage = some image };
              added = s.added ++ ((image, score_of bright d) ∷ []);
            }))

    unfoldable pub captured_output : Option PixelBuffer → Session W I → Option (Session W I)
    captured_output = on_frame add_event

  -- The closure that `captureOutput` leaves to the main queue. It reads the image and the threshold
  -- when it runs.
  unfoldable pub run_posted : List ℕ → Session W I → Option (Session W I)
  run_posted [] s = some s
  run_posted (bright ∷ rest) s = s.detector.cgimage >>= λ image.
      some
        (record s { posted = rest; added = s.added ++ ((image, score_of bright s.detector) ∷ []) })

  unfoldable pub run_main : Session W I → Option (Session W I)
  run_main s = run_posted s.posted s
