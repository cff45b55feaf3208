-- ===== src/App/Wired.antt =====
-- The detector and FirebaseHelper together: a closure of `captureOutput` makes a Detection and calls
-- `addDetection` of the helper.
use Prim.Native.Nat.{ℕ}
use solta.Base.{Bool, Option, none, some, List, [], ◌∷◌}
use solta.App.Float64.{Float64}
use solta.App.Trap.{◌>>=◌}
use solta.App.Login.{Text}
use solta.App.Detection.Detector.{Acceleration}
use solta.App.Detection.Scan.{PixelBuffer}
use solta.App.Detection.Capture.{Session, score_of, run_posted}
use solta.App.Detection.Events.{Event, frame, timer, accelerometer, drop, main, step}
use solta.App.Firebase.Database.{Database}
use solta.App.Firebase.Detection.{Detection, Services, new_detection}
use solta.App.Firebase.Helper.{Helper, add_detection, put_completed, url_completed, image_loaded}
pub mod Handed
pub mod EveryCall

-- The calls from outside: those of the detector, at a time, and the answers of the SDKs to the helper.
-- Erasing, `putImage` and the snapshots of the history are not among them.
pub data AppCall (W I : Type 0) : Type 0 where
  event : W → Event W → AppCall W I
  put_answer : ℕ → Bool → AppCall W I
  url_answer : ℕ → Bool → Option Text → AppCall W I
  data_answer : ℕ → Option (Option I) → AppCall W I

module _ {W I D : Type 0} ⦃f : Float64 W⦄ ⦃b : Database W D⦄ (env : Services W I)
    (create_cg_image : PixelBuffer → Option I) where
  -- The closure that waits first, if there is one.
  unfoldable pub run_closure :
      W → List ℕ → Session W I × Helper W I D → Option (Session W I × Helper W I D)
  run_closure now [] r = some r
  run_closure now (bright ∷ rest) (s, h) = do
    image ← s.detector.cgimage
    d ← new_detection env now (some image) (score_of bright s.detector)
    g ← add_detection env d h
    t ← run_posted (bright ∷ rest) s
    some (t, g)

  -- Every call of the detector but the closures, which `run_closure` runs.
  abbrev with_helper : Option (Session W I) → Helper W I D → Option (Session W I × Helper W I D)
  with_helper o h = o >>= λ s. some (s, h)

  abbrev with_session : Session W I → Option (Helper W I D) → Option (Session W I × Helper W I D)
  with_session s o = o >>= λ h. some (s, h)

  unfoldable pub call :
      AppCall W I → Session W I × Helper W I D → Option (Session W I × Helper W I D)
  call (event now main) (s, h) = run_closure now s.posted (s, h)
  call (event now (frame at sample)) (s, h) =
      with_helper (step create_cg_image (frame at sample) s) h
  call (event now (timer at)) (s, h) = with_helper (step create_cg_image (timer at) s) h
  call (event now (accelerometer a)) (s, h) =
      with_helper (step create_cg_image (accelerometer a) s) h
  call (event now drop) (s, h) = with_helper (step create_cg_image drop s) h
  call (put_answer n stored) (s, h) = some (s, put_completed n stored h)
  call (url_answer n error address) (s, h) = with_session s (url_completed n error address h)
  call (data_answer n answer) (s, h) = with_session s (image_loaded n answer h)

  unfoldable pub call_all :
      List (AppCall W I) → Session W I × Helper W I D → Option (Session W I × Helper W I D)
  call_all [] r = some r
  call_all (c ∷ cs) r = call c r >>= call_all cs
