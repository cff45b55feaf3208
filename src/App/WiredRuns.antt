-- ===== src/App/WiredRuns.antt =====
-- A run of the detector and the helper together.
use solta.Base.{refl, true, Option, none, some, List, [], ◌∷◌, arith, ℕ}
use solta.App.Float64.{thousandths}
use solta.App.Detection.Capture.{Session}
use solta.App.Detection.Events.{frame, main}
use solta.App.Firebase.Helper.{Helper}
use solta.App.Wired.{AppCall, event, put_answer, run_closure, call, call_all}
use solta.App.Wired.Handed.{IsHanded}
use solta.App.Wired.EveryCall.{call_all-IsHanded}
use solta.App.DetectionRuns.{four_by_four, picture, start}
use solta.App.FirebaseRuns.{Log, log, services, initial}

abbrev State : Type 0
State = Session ℕ ℕ × Helper ℕ ℕ Log

-- Two frames, of which one closure has run and stored its image.
abbrev calls : List (AppCall ℕ ℕ)
calls =
    event 5000 (frame 5000 (some (four_by_four 1)))
    ∷ event 6000 main
    ∷ put_answer 0 true
    ∷ event 7000 (frame 7000 (some (four_by_four 2)))
    ∷ []

abbrev first : State
first = (start, initial.1)

abbrev or_first : Option State → State
or_first none = first
or_first (some r) = r

abbrev last : State
last = or_first (call_all services picture calls first)

call_all-IsHanded_example : IsHanded last
unfolding call_all call run_closure solta.App.Detection.Capture.capture_output
    solta.App.Detection.Capture.post_event solta.App.Detection.Capture.on_frame
    solta.App.Detection.Capture.observe_in solta.App.Detection.Capture.observe
    solta.App.Detection.Capture.when_event solta.App.Detection.Capture.is_event
    solta.App.Detection.Capture.read_properties solta.App.Detection.Capture.finish
    solta.App.Detection.Capture.run_posted solta.App.Detection.Scan.scan
    solta.App.Detection.Scan.stride solta.App.Detection.Scan.strides
    solta.App.Detection.Scan.scan_columns solta.App.Detection.Scan.scan_column
    solta.App.Detection.Scan.scan_pixel solta.App.Detection.Scan.see
    solta.App.Detection.Detector.threshold_in solta.App.Detection.Detector.same_mode
    solta.App.Detection.Events.step solta.App.Firebase.Detection.new_detection
    solta.App.Firebase.Helper.add_detection solta.App.Firebase.Helper.put_if_any
    solta.App.Firebase.Helper.start_upload solta.App.Firebase.Helper.store_numbers
    solta.App.Firebase.Helper.put_completed solta.App.Firebase.Helper.answer_put
    solta.App.Firebase.Helper.take_out solta.App.Login.login_of_user
    solta.App.Login.get_login_from_email solta.App.Login.without solta.App.Login.parts_of
    solta.App.Login.nonempty
call_all-IsHanded_example =
    call_all-IsHanded services picture calls first last
      (record { counted = omega arith; same = refl }) refl
