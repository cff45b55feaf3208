-- ===== src/App/Detection/Events.antt =====
-- The calls that DetectionVC gets, in an order: frames on the image queue, the timer and the posted
-- closures on the main queue, and the two methods that nothing in the application calls yet.
use Prim.Native.Nat.{ℕ}
use solta.Base.{Option, none, some, List, [], ◌∷◌}
use solta.App.Float64.{Float64}
use solta.App.Trap.{◌>>=◌}
use solta.App.Detection.Detector.{
  Detector, Acceleration, new_detector, update_threshold, update_acc, dropped_frame,
}
use solta.App.Detection.Scan.{PixelBuffer}
use solta.App.Detection.Capture.{Session, capture_output, run_main}
pub mod Sound
pub mod Kept
pub mod Quiet
pub mod Settles
pub mod Images

pub data Event (W : Type 0) : Type 0 where
  frame : W → Option PixelBuffer → Event W
  timer : W → Event W
  accelerometer : Option (Acceleration W) → Event W
  drop : Event W
  main : Event W

module _ {W I : Type 0} ⦃f : Float64 W⦄ (create_cg_image : PixelBuffer → Option I) where
  unfoldable pub step : Event W → Session W I → Option (Session W I)
  step (frame now sample) s = capture_output create_cg_image now sample s
  step (timer now) s = update_threshold now s.detector >>= λ d. some (record s { detector = d })
  step (accelerometer a) s = some (record s { detector = update_acc a s.detector })
  step drop s = some (record s { detector = dropped_frame s.detector })
  step main s = run_main s

  unfoldable pub run : List (Event W) → Session W I → Option (Session W I)
  run [] s = some s
  run (e ∷ es) s = step e s >>= run es

module _ {W I : Type 0} ⦃f : Float64 W⦄ where
  -- A DetectionVC that was created at the time `started`, with its first image.
  abbrev pub new_session : Option I → W → Session W I
  new_session image started = record {
    detector = new_detector 2 image started started;
    locked = 0;
    posted = [];
    added = [];
  }
