-- ===== src/App/DetectionRuns.antt =====
-- Runs of the detection on small frames, and the theorems at concrete inputs.
use Prim.Native.Nat.{ℕ, zero, suc}
use solta.Base.{◌≡◌, refl, inl, inr, Option, none, some, List, [], ◌∷◌, All, arith, if◌then◌else◌}
use solta.App.Float64.{thousandths, thousandths-IsIeee}
use solta.App.Trap.{Returns}
use solta.App.Detection.Detector.{Detector, new_detector}
use solta.App.Detection.Scan.{PixelBuffer, Scan, scan}
use solta.App.Detection.Scan.Brightest.{bright_total, Covers, IsBrightest, scan-IsBrightest}
use solta.App.Detection.Capture.{
  Session, read_properties, start_frame, capture_output, captured_output,
}
use solta.App.Detection.Capture.Frame.{after_frame}
use solta.App.Detection.Capture.Locks.{
  VcFrame, HelperFrame, capture_output-VcFrame, captured_output-HelperFrame,
}
use solta.App.Detection.Events.{Event, frame, timer, drop, main, run, new_session}
use solta.App.Detection.Events.Sound.{IsFrame, IsSound, Delivered}
use solta.App.Detection.Events.Kept.{run-new_session}
use solta.App.Detection.Events.Quiet.{Quiet}
use solta.App.Detection.Events.Settles.{raises, run-Quiet}
use solta.App.Detection.Events.Images.{reading, entry, counts, frame-main, frame-frame-main}

-- Four by four pixels with a bright one at column 2 of row 0, and another frame of that format.
abbrev pub pixels : List ℕ
pixels = 9 ∷ 9 ∷ 200 ∷ 9 ∷ 9 ∷ 9 ∷ 9 ∷ 9 ∷ 9 ∷ 9 ∷ 9 ∷ 9 ∷ 9 ∷ 9 ∷ 9 ∷ 9 ∷ []

abbrev pub four_by_four : ℕ → PixelBuffer
four_by_four n = record {
  width_of_plane = 4;
  height_of_plane = 4;
  bytes_per_row = n;
  bytes_per_row_of_plane = 4;
  width = 4;
  height = 4;
  base_address = some pixels;
}

-- Images are numbers here: the bytes of a row tell two frames apart.
abbrev pub picture : PixelBuffer → Option ℕ
picture p = some p.bytes_per_row

four_by_four-IsFrame : (n : ℕ) → IsFrame picture 16 (four_by_four n)
four_by_four-IsFrame n = record {
  buffer = pixels;
  based = refl;
  bytes = omega arith;
  large = omega arith;
  row_fits = omega arith;
  rows_fit = omega arith;
  image = n;
  created = refl;
}

abbrev pub start : Session ℕ ℕ
start = new_session (some 0) 0

start-IsSound : IsSound 16 start
start-IsSound = record {
  ready = record {
    framed = omega arith;
    threshold = 160000;
    table = refl;
    not_lower = refl;
    row_fits = omega arith;
    rows_fit = omega arith;
    skips = refl;
    smallest = refl;
  };
  unlocked = refl;
  counted = omega arith;
  pictured = inl refl;
}

abbrev ready : Detector ℕ ℕ
ready = record (new_detector 2 (some 0) 0 0) { width = 4; height = 4; bytes_per_row_of_plane = 4 }

scan_finds :
    scan ready pixels
    ≡ some (record {
      num_bright_pixels = 1;
      highest_intensity = 200000;
      highest_intensity_point = some (2, 0);
    })
unfolding scan solta.App.Detection.Scan.stride solta.App.Detection.Scan.strides
    solta.App.Detection.Scan.scan_columns solta.App.Detection.Scan.scan_column
    solta.App.Detection.Scan.scan_pixel solta.App.Detection.Scan.see
    solta.App.Detection.Detector.threshold_in solta.App.Detection.Detector.same_mode
scan_finds = refl

scan-IsBrightest_example : Returns (IsBrightest ready pixels) (scan ready pixels)
scan-IsBrightest_example =
    scan-IsBrightest ready pixels thousandths-IsIeee (omega arith)
      (record { row_fits = omega arith; rows_fit = omega arith })

abbrev or_start : Option (Session ℕ ℕ) → Session ℕ ℕ
or_start none = start
or_start (some s) = s

-- An event in the first five seconds, where a single event is a flux above the limit.
abbrev posted : Session ℕ ℕ
posted = or_start (capture_output picture 5000 (some (four_by_four 1)) start)

abbrev stuck : Session ℕ ℕ
stuck = or_start (captured_output picture 5000 (some (four_by_four 1)) start)

capture_output-VcFrame_example :
    (posted.locked ≡ start.locked)
    × (posted.detector.num_frames ≡ suc start.detector.num_frames)
    × (posted.added ≡ start.added)
    × VcFrame start posted
unfolding capture_output solta.App.Detection.Capture.post_event solta.App.Detection.Scan.scan
    solta.App.Detection.Scan.stride solta.App.Detection.Scan.strides
    solta.App.Detection.Scan.scan_columns solta.App.Detection.Scan.scan_column
    solta.App.Detection.Scan.scan_pixel solta.App.Detection.Scan.see
    solta.App.Detection.Detector.threshold_in solta.App.Detection.Detector.same_mode
    solta.App.Detection.Capture.on_frame solta.App.Detection.Capture.observe_in
    solta.App.Detection.Capture.observe solta.App.Detection.Capture.when_event
    solta.App.Detection.Capture.is_event solta.App.Detection.Capture.read_properties
    solta.App.Detection.Capture.finish
capture_output-VcFrame_example =
    capture_output-VcFrame picture 5000 (some (four_by_four 1)) start posted refl

captured_output-HelperFrame_example :
    (stuck.detector.num_frames ≡ suc start.detector.num_frames) × HelperFrame start stuck
unfolding captured_output solta.App.Detection.Capture.add_event solta.App.Detection.Scan.scan
    solta.App.Detection.Scan.stride solta.App.Detection.Scan.strides
    solta.App.Detection.Scan.scan_columns solta.App.Detection.Scan.scan_column
    solta.App.Detection.Scan.scan_pixel solta.App.Detection.Scan.see
    solta.App.Detection.Detector.threshold_in solta.App.Detection.Detector.same_mode
    solta.App.Detection.Capture.on_frame solta.App.Detection.Capture.observe_in
    solta.App.Detection.Capture.observe solta.App.Detection.Capture.when_event
    solta.App.Detection.Capture.is_event solta.App.Detection.Capture.read_properties
    solta.App.Detection.Capture.finish
captured_output-HelperFrame_example =
    captured_output-HelperFrame picture 5000 (some (four_by_four 1)) start stuck refl

-- The early return of DetectionHelper leaves the buffer of that frame locked.
stuck_locked : stuck.locked ≡ 1
unfolding captured_output solta.App.Detection.Capture.add_event solta.App.Detection.Scan.scan
    solta.App.Detection.Scan.stride solta.App.Detection.Scan.strides
    solta.App.Detection.Scan.scan_columns solta.App.Detection.Scan.scan_column
    solta.App.Detection.Scan.scan_pixel solta.App.Detection.Scan.see
    solta.App.Detection.Detector.threshold_in solta.App.Detection.Detector.same_mode
    solta.App.Detection.Capture.on_frame solta.App.Detection.Capture.observe_in
    solta.App.Detection.Capture.observe solta.App.Detection.Capture.when_event
    solta.App.Detection.Capture.is_event solta.App.Detection.Capture.read_properties
    solta.App.Detection.Capture.finish
stuck_locked = refl

abbrev calls : List (Event ℕ)
calls =
    frame 5000 (some (four_by_four 1))
    ∷ timer 6000
    ∷ frame 7000 (some (four_by_four 2))
    ∷ main
    ∷ main
    ∷ []

calls-Delivered : All (Delivered picture 16) calls
calls-Delivered = (four_by_four-IsFrame 1, (tt, (four_by_four-IsFrame 2, (tt, (tt, tt)))))

run-new_session_example : Returns (IsSound 16) (run picture calls (new_session (some 0) 0))
run-new_session_example =
    run-new_session thousandths-IsIeee picture 16 calls (some 0) 0 calls-Delivered

-- A session with one event in the first five seconds.
abbrev busy : Session ℕ ℕ
busy = record start {
  detector = record (new_detector 2 (some 0) 0 0) { num_frames = 1; num_events = 1 };
  posted = 1 ∷ [];
}

busy-IsSound : IsSound 16 busy
busy-IsSound = record {
  ready = record {
    framed = omega arith;
    threshold = 160000;
    table = refl;
    not_lower = refl;
    row_fits = omega arith;
    rows_fit = omega arith;
    skips = refl;
    smallest = refl;
  };
  unlocked = refl;
  counted = omega arith;
  pictured = inr (0, refl);
}

-- Timer calls with a frame, a posted closure and a dropped frame between them.
abbrev five_seconds : ℕ → List (Event ℕ)
five_seconds zero = []
five_seconds (suc n) =
    frame 4000 (some (four_by_four 1)) ∷ timer 5000 ∷ main ∷ drop ∷ five_seconds n

five_seconds-Delivered : (n : ℕ) → All (Delivered picture 16) (five_seconds n)
five_seconds-Delivered zero = tt
five_seconds-Delivered (suc n) =
    (four_by_four-IsFrame 1, (tt, (tt, (tt, five_seconds-Delivered n))))

raises_36 : raises picture (five_seconds 36) busy ≡ 36
unfolding solta.App.Detection.Capture.capture_output solta.App.Detection.Capture.post_event
    solta.App.Detection.Scan.scan solta.App.Detection.Scan.stride solta.App.Detection.Scan.strides
    solta.App.Detection.Scan.scan_columns solta.App.Detection.Scan.scan_column
    solta.App.Detection.Scan.scan_pixel solta.App.Detection.Scan.see
    solta.App.Detection.Detector.threshold_in solta.App.Detection.Detector.same_mode
    solta.App.Detection.Capture.on_frame solta.App.Detection.Capture.observe_in
    solta.App.Detection.Capture.observe solta.App.Detection.Capture.when_event
    solta.App.Detection.Capture.is_event solta.App.Detection.Capture.read_properties
    solta.App.Detection.Capture.finish solta.App.Detection.Capture.run_main
    solta.App.Detection.Capture.run_posted solta.App.Detection.Events.step
    solta.App.Detection.Detector.update_threshold solta.App.Detection.Detector.dropped_frame
    solta.App.Detection.Detector.increment_intensity_threshold
    solta.App.Detection.Detector.set_intensity_threshold solta.App.Detection.Detector.set_value
raises_36 = refl

run-Quiet_example :
    Returns
      (λ t.
        Quiet t.detector
        × Returns
            (λ u. (u.detector.num_events ≡ t.detector.num_events) × Quiet u.detector)
            (run picture calls t))
      (run picture (five_seconds 36) busy)
run-Quiet_example =
    run-Quiet thousandths-IsIeee picture 16 (five_seconds 36) calls busy (omega (arith, raises_36))
      (five_seconds-Delivered 36) calls-Delivered busy-IsSound

frame-main_example :
    let d = reading (four_by_four 1) start in
    let bright = bright_total d pixels in
    Returns
      (λ t. t.added ≡ (if counts d bright then entry 1 bright d ∷ [] else []))
      (run picture (frame 5000 (some (four_by_four 1)) ∷ main ∷ []) start)
unfolding four_by_four-IsFrame
frame-main_example =
    frame-main thousandths-IsIeee picture 16 5000 (four_by_four 1) start (four_by_four-IsFrame 1)
      start-IsSound refl

frame-frame-main_example :
    let d = reading (four_by_four 1) start in
    let m = bright_total d pixels in
    let t = after_frame picture 5000 (four_by_four 1) m start in
    let e = reading (four_by_four 2) t in
    let n = bright_total e pixels in
    Returns
      (λ u. u.added ≡ entry 2 m e ∷ entry 2 n e ∷ [])
      (run picture
        (frame 5000 (some (four_by_four 1)) ∷ frame 6000 (some (four_by_four 2)) ∷ main ∷ main ∷ [])
        start)
unfolding four_by_four-IsFrame solta.App.Detection.Scan.Brightest.bright_total
    solta.App.Detection.Scan.Points.is_bright solta.App.Detection.Detector.threshold_in
    solta.App.Detection.Detector.same_mode solta.App.Detection.Capture.read_properties
    solta.App.Detection.Capture.is_event
frame-frame-main_example =
    frame-frame-main thousandths-IsIeee picture 16 5000 6000 (four_by_four 1) (four_by_four 2) start
      (four_by_four-IsFrame 1) (four_by_four-IsFrame 2) start-IsSound refl refl refl
