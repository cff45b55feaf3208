-- ===== src/App/Detection/Capture/Frame.antt =====
-- What one frame does to the state, for DetectionVC and for DetectionHelper.
use Prim.Native.Nat.{ℕ, ◌+◌, ◌-◌}
use solta.Base.{◌≡◌, inl, inr, Option, some, List, [], ◌∷◌, ◌++◌, if◌then◌else◌, Bool-cases, arith}
use solta.App.Float64.{Float64}
use solta.App.Detection.Scan.{PixelBuffer, Scan, scan}
use solta.App.Detection.Capture.{
  Session, start_frame, read_properties, is_event, count_event, when_event, observe, observe_in,
  on_frame, finish, post_event, capture_output,
}

module _ {W I : Type 0} ⦃f : Float64 W⦄ (create_cg_image : PixelBuffer → Option I) (now : W) where
  -- The state behind a frame with `bright` bright points.
  abbrev pub after_frame : PixelBuffer → ℕ → Session W I → Session W I
  after_frame p bright s =
      let d = read_properties p (start_frame s.detector) in
      if is_event d bright
      then record s {
        detector = record (count_event now d) { cgimage = create_cg_image p };
        posted = s.posted ++ (bright ∷ []);
      }
      else record s { detector = d }

  pub capture_output-after_frame :
      (p : PixelBuffer) (buffer : List ℕ) (seen : Scan W) (s : Session W I)
      → p.base_address ≡ some buffer
      → scan (read_properties p (start_frame s.detector)) buffer ≡ some seen
      → capture_output create_cg_image now (some p) s
        ≡ some (after_frame p seen.num_bright_pixels s)
  unfolding capture_output on_frame observe_in observe when_event post_event finish
  capture_output-after_frame p buffer seen s at e =
      let d = read_properties p (start_frame s.detector) in
      let back : s.locked + 1 - 1 ≡ s.locked = omega arith in
      elim (Bool-cases (is_event d seen.num_bright_pixels)) [
        | inl b ↦ simp (at, e, b, back)
        | inr b ↦ simp (at, e, b, back)
      ]
