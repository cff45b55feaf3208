-- ===== src/App/Detection/Capture/Locks.antt =====
-- The lock on the pixel buffer of a frame, which both functions take and one of them may keep.
use Prim.Native.Nat.{ℕ, suc}
use solta.Base.{
  ◌≡◌, refl, inl, inr, Bool, true, false, Option, some, [], ◌∷◌, ◌++◌, Bool-cases, arith,
}
use solta.App.Float64.{Float64}
use solta.App.Trap.{Yields, Yields-bind, Yields-some}
use solta.App.Detection.Detector.{Detector, target_flux}
use solta.App.Detection.Scan.{PixelBuffer, scan}
use solta.App.Detection.Capture.{
  Session, Ending, start_frame, read_properties, is_event, count_event, when_event, observe,
  observe_in, on_frame, finish, post_event, capture_output, add_event, captured_output, lock,
  score_of,
}

module _ {W : Type 0} ⦃f : Float64 W⦄ where
  open f use {of_int, times, divide, gt}

  abbrev pub too_high : W → Bool
  too_high flux = gt flux (times target_flux (divide (of_int 15) (of_int 10)))

module _ {W I : Type 0} ⦃f : Float64 W⦄ where
  abbrev locked_at : PixelBuffer → Session W I → Session W I
  locked_at p s = record (lock s) { detector = read_properties p (start_frame s.detector) }

  -- To follow a frame it is enough to follow what happens behind the scan.
  on_frame-Yields :
      (event : ℕ → PixelBuffer → Session W I → Option (Ending (Session W I)))
      (Q : Session W I → Type 0) (sample : Option PixelBuffer) (s : Session W I)
      → ((p : PixelBuffer) (bright : ℕ)
          → Yields (λ e. Q (finish e)) (when_event event p bright (locked_at p s)))
      → Yields Q (on_frame event sample s)
  unfolding on_frame observe_in observe
  on_frame-Yields event Q sample s h = Yields-bind Q sample _ λ p _.
      Yields-bind Q p.base_address _ λ buffer _.
        Yields-bind Q (scan (read_properties p (start_frame s.detector)) buffer) _ λ seen _.
          Yields-bind Q (when_event event p seen.num_bright_pixels (locked_at p s))
            (λ e. some (finish e))
            λ e at. Yields-some (λ e. Q (finish e)) _ e at (h p seen.num_bright_pixels)

  abbrev events : Session W I → ℕ
  events s = s.detector.num_events

  abbrev frames : Session W I → ℕ
  frames s = s.detector.num_frames

  -- The ways in which `captureOutput` of DetectionVC ends.
  pub data VcFrame (s t : Session W I) : Type 0 where
    dark : events t ≡ events s → t.posted ≡ s.posted → VcFrame s t
    posts :
        (bright : ℕ)
        → events t ≡ suc (events s)
        → t.posted ≡ s.posted ++ (bright ∷ [])
        → VcFrame s t

  -- The ways in which `capturedOutput` of DetectionHelper ends.
  pub data HelperFrame (s t : Session W I) : Type 0 where
    ignored : t.locked ≡ s.locked → events t ≡ events s → t.added ≡ s.added → HelperFrame s t
    recorded :
        (image : I) (score : W)
        → t.locked ≡ s.locked
        → events t ≡ suc (events s)
        → too_high t.detector.flux ≡ false
        → t.added ≡ s.added ++ ((image, score) ∷ [])
        → HelperFrame s t
    left_locked :
        t.locked ≡ suc s.locked
        → events t ≡ suc (events s)
        → too_high t.detector.flux ≡ true
        → t.added ≡ s.added
        → HelperFrame s t

  read-events :
      (p : PixelBuffer) (d : Detector W I) → (read_properties p d).num_events ≡ d.num_events
  unfolding read_properties
  read-events p d = ground arith

  read-frames :
      (p : PixelBuffer) (d : Detector W I) → (read_properties p d).num_frames ≡ d.num_frames
  unfolding read_properties
  read-frames p d = ground arith

  -- On every frame that does not stop the program, `captureOutput` of DetectionVC counts the
  -- frame, leaves as many buffers locked as there were and adds no detection, and either counts
  -- no event and posts nothing, or counts one and posts one closure behind those that wait.
  pub capture_output-VcFrame :
      (create_cg_image : PixelBuffer → Option I) (now : W) (sample : Option PixelBuffer)
      (s t : Session W I)
      → capture_output create_cg_image now sample s ≡ some t
      → (t.locked ≡ s.locked) × (frames t ≡ suc (frames s)) × (t.added ≡ s.added) × VcFrame s t
  unfolding capture_output when_event post_event finish
  capture_output-VcFrame create_cg_image now sample s t e = Yields-some _ _ t e (
      on_frame-Yields (post_event create_cg_image now)
        (λ u.
          (u.locked ≡ s.locked) × (frames u ≡ suc (frames s)) × (u.added ≡ s.added) × VcFrame s u)
        sample s
        λ p bright.
          let d = read_properties p (start_frame s.detector) in
          let same : d.num_events ≡ s.detector.num_events = read-events p _ in
          let next : d.num_frames ≡ suc s.detector.num_frames =
            omega (arith, read-frames p (start_frame s.detector)) in
          elim (Bool-cases (is_event d bright)) [
            | inl b ↦ rw b (omega arith, next, refl, posts bright (omega arith) refl)
            | inr b ↦ rw b (omega arith, next, refl, dark same refl)
          ])

  -- On every frame that does not stop the program, `capturedOutput` of DetectionHelper counts the
  -- frame. It adds a detection for each event that it does not refuse. Where it finds the flux
  -- above one and a half times the target it has counted the event, adds nothing, and leaves the
  -- pixel buffer locked; in the other cases as many buffers are locked as before.
  pub captured_output-HelperFrame :
      (create_cg_image : PixelBuffer → Option I) (now : W) (sample : Option PixelBuffer)
      (s t : Session W I)
      → captured_output create_cg_image now sample s ≡ some t
      → (frames t ≡ suc (frames s)) × HelperFrame s t
  unfolding captured_output when_event add_event finish
  captured_output-HelperFrame create_cg_image now sample s t e = Yields-some _ _ t e (
      on_frame-Yields (add_event create_cg_image now)
        (λ u. (frames u ≡ suc (frames s)) × HelperFrame s u) sample s
        λ p bright.
          let d = read_properties p (start_frame s.detector) in
          let same : d.num_events ≡ s.detector.num_events = read-events p _ in
          let next : d.num_frames ≡ suc s.detector.num_frames =
            omega (arith, read-frames p (start_frame s.detector)) in
          elim (Bool-cases (is_event d bright)) [
            | inl b ↦ elim (Bool-cases (too_high (count_event now d).flux)) [
              | inl h ↦ rw (b, h) (next, left_locked (omega arith) (omega arith) h refl)
              | inr h ↦
                  rw (b, h)
                    (Yields-bind _ (create_cg_image p) _ λ image at. (
                      next,
                      recorded image (score_of bright (count_event now d)) (omega arith)
                          (omega arith) h refl,
                    ))
            ]
            | inr b ↦ rw b (next, ignored (omega arith) same refl)
          ])
