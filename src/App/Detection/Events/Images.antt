-- ===== src/App/Detection/Events/Images.antt =====
-- Which image and score an event is added with: the closure reads both when it runs.
use Prim.Native.Nat.{ℕ, ◌*◌, ◌/◌}
use solta.Base.{
  ◌≡◌, refl, ap, ◌∙◌, inl, inr, Bool, true, ◌&&◌, Option, some, List, [], ◌∷◌, ◌++◌, append_assoc,
  leb, if◌then◌else◌, Bool-cases,
}
use solta.App.Float64.{Float64, IsIeee}
use solta.App.Trap.{Returns, Returns-weaken}
use solta.App.Detection.Detector.{Detector}
use solta.App.Detection.Scan.{PixelBuffer}
use solta.App.Detection.Scan.Brightest.{bright_total}
use solta.App.Detection.Capture.{
  Session, start_frame, read_properties, is_event, capture_output, run_main, run_posted,
}
use solta.App.Detection.Capture.Frame.{after_frame, capture_output-after_frame}
use solta.App.Detection.Events.{frame, main, step, run}
use solta.App.Detection.Events.Sound.{IsFrame, IsReady, IsSound, read-IsReady, after_frame-IsSound}
use solta.App.Detection.Events.Kept.{frame-scanned}

module _ {W I : Type 0} ⦃f : Float64 W⦄ where
  open f use {of_int, single, times}

  -- The detector with which a frame is scanned, and the bright points that it finds there.
  abbrev pub reading : PixelBuffer → Session W I → Detector W I
  reading p s = read_properties p (start_frame s.detector)

  -- The entry that a closure adds for `bright` points.
  abbrev pub entry : I → ℕ → Detector W I → I × W
  entry image bright d = (image, single (times (of_int bright) d.intensity_threshhold))

  abbrev pub counts : Detector W I → ℕ → Bool
  counts d bright = leb 1 bright && leb bright (d.width * d.height / 4)

  counts-is_event :
      {room : ℕ} (d : Detector W I) (bright : ℕ)
      → IsReady room d
      → is_event d bright ≡ counts d bright
  unfolding is_event
  counts-is_event d bright r = simp r.smallest

  two_posted :
      (create : PixelBuffer → Option I) (m n : ℕ) (u : Session W I) (image : I)
      → u.posted ≡ m ∷ n ∷ []
      → u.detector.cgimage ≡ some image
      → Returns
          (λ w. w.added ≡ u.added ++ (entry image m u.detector ∷ entry image n u.detector ∷ []))
          (run create (main ∷ main ∷ []) u)
  unfolding run step run_main run_posted
  two_posted create m n u image e i = simp (e, i, append_assoc)

  with_image :
      (create : PixelBuffer → Option I) (now : W) (p : PixelBuffer) (n : ℕ) (s : Session W I)
      (image : I)
      → create p ≡ some image
      → is_event (reading p s) n ≡ true
      → let t = after_frame create now p n s in
        (t.posted ≡ s.posted ++ (n ∷ []))
        × (t.detector.cgimage ≡ some image)
        × (t.detector.intensity_threshhold ≡ (reading p s).intensity_threshhold)
        × (t.added ≡ s.added)
  with_image create now p n s image c y = rw y (refl, c, refl, refl)

  module _ (laws : IsIeee W) (create : PixelBuffer → Option I) (room : ℕ) where
    captured :
        (now : W) (p : PixelBuffer) (s : Session W I) (fr : IsFrame create room p)
        → IsSound room s
        → capture_output create now (some p) s
          ≡ some (after_frame create now p (bright_total (reading p s) fr.buffer) s)
    captured now p s fr v =
        let (seen, e, b) = frame-scanned laws create room fr (read-IsReady fr v.ready) in
        capture_output-after_frame create now p fr.buffer seen s fr.based e
        ∙ ap (λ n. some (after_frame create now p n s)) b.counted

    -- Where the arithmetic keeps `IsIeee`, in a sound state in which no closure waits, and for a
    -- frame as `IsFrame` says: the frame and the call of the main queue after it do not trap. If
    -- the number of bright points of the frame, on the grid of the detector, is at least 1 and at
    -- most a quarter of the pixels, they add the image of that frame, with the number times the
    -- threshold that was read with the properties of the frames, as a Float32. Else they add
    -- nothing.
    pub frame-main :
        (now : W) (p : PixelBuffer) (s : Session W I) (fr : IsFrame create room p)
        → IsSound room s
        → s.posted ≡ []
        → let d = reading p s in
          let bright = bright_total d fr.buffer in
          Returns
            (λ t.
              t.added
              ≡ (if counts d bright then s.added ++ (entry fr.image bright d ∷ []) else s.added))
            (run create (frame now (some p) ∷ main ∷ []) s)
    unfolding run step run_main run_posted
    frame-main now p s fr v empty =
        let d = reading p s in
        let at = captured now p s fr v in
        let same = counts-is_event d (bright_total d fr.buffer) (read-IsReady fr v.ready) in
        elim (Bool-cases (counts d (bright_total d fr.buffer))) [
          | inl y ↦ simp (at, same, y, empty, fr.created)
          | inr n ↦ simp (at, same, n, empty)
        ]

    -- Where the arithmetic keeps `IsIeee`, in a sound state in which no closure waits, and for
    -- two frames as `IsFrame` says that both have such a number of bright points: if the second
    -- comes before the closure of the first runs, both detections get the image of the second
    -- frame, each with its own number of bright points.
    pub frame-frame-main :
        (now later : W) (p q : PixelBuffer) (s : Session W I) (first : IsFrame create room p)
        (second : IsFrame create room q)
        → IsSound room s
        → s.posted ≡ []
        → let d = reading p s in
          let m = bright_total d first.buffer in
          let t = after_frame create now p m s in
          let e = reading q t in
          let n = bright_total e second.buffer in
          counts d m ≡ true
          → counts e n ≡ true
          → Returns
              (λ u. u.added ≡ s.added ++ (entry second.image m e ∷ entry second.image n e ∷ []))
              (run create (frame now (some p) ∷ frame later (some q) ∷ main ∷ main ∷ []) s)
    unfolding run step
    frame-frame-main now later p q s first second v empty y z =
        let d = reading p s in
        let m = bright_total d first.buffer in
        let t = after_frame create now p m s in
        let e = reading q t in
        let n = bright_total e second.buffer in
        let u = after_frame create later q n t in
        let w = after_frame-IsSound now m first v in
        let one =
          with_image create now p m s first.image first.created
            (counts-is_event d m (read-IsReady first v.ready) ∙ y) in
        let two =
          with_image create later q n t second.image second.created
            (counts-is_event e n (read-IsReady second w.ready) ∙ z) in
        let waiting : u.posted ≡ m ∷ n ∷ [] =
          two.0
          ∙ ap (λ (l : List ℕ). l ++ (n ∷ [])) (one.0 ∙ ap (λ (l : List ℕ). l ++ (m ∷ [])) empty) in
        let threshold = two.2 in
        let added : u.added ≡ s.added = two.3 ∙ one.3 in
        rw (captured now p s first v) (
          rw (captured later q t second w) (
            Returns-weaken _ _ (run create (main ∷ main ∷ []) u)
              (λ x same. same ∙ (simp (threshold, added)))
              (two_posted create m n u second.image waiting two.1)))
