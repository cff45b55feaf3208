-- ===== src/App/Detection/Events/Kept.antt =====
-- Every call of DetectionVC returns, and keeps the state sound.
use Prim.Native.Nat.{ℕ}
use solta.Base.{
  ◌≡◌, refl, ap, ◌∙◌, inl, inr, Bool, Option, none, some, List, [], ◌∷◌, All, length, length-append,
  if◌then◌else◌, Bool-cases, arith,
}
use solta.App.Float64.{Float64, IsIeee, ◌≼◌}
use solta.App.Trap.{Returns, Returns-bind, Returns-some, Returns-at}
use solta.App.Detection.Detector.{
  Detector, Acceleration, measure_flux, target_flux, update_acc, dropped_frame,
}
use solta.App.Detection.Scan.{PixelBuffer, Scan, scan}
use solta.App.Detection.Scan.Brightest.{IsBrightest, scan-IsBrightest}
use solta.App.Detection.Capture.{Session, capture_output, run_main, run_posted, score_of}
use solta.App.Detection.Capture.Frame.{capture_output-after_frame}
use solta.App.Detection.Events.{
  Event, frame, timer, accelerometer, drop, main, step, run, new_session,
}
use solta.App.Detection.Events.Sound.{
  IsFrame, IsReady, IsSound, Delivered, update_threshold-table, read-IsReady, after_frame-IsSound,
  run_posted-some,
}

module _ {W I : Type 0} ⦃f : Float64 W⦄ where
  open f use {of_int, plus, gt}

  -- The timer leaves the threshold as it is, or raises it by 5.
  abbrev pub next_threshold : W → Detector W I → W → W
  next_threshold now d t = if gt (measure_flux now d).flux target_flux then plus t (of_int 5) else t

  pub next_threshold-le :
      IsIeee W → (now : W) (d : Detector W I) (t : W) → t ≼ t → t ≼ next_threshold now d t
  next_threshold-le laws now d t h = elim (Bool-cases (gt (measure_flux now d).flux target_flux)) [
    | inl e ↦ rw e (laws.plus-le t 5 h)
    | inr e ↦ rw e h
  ]

  module _ (laws : IsIeee W) (create : PixelBuffer → Option I) (room : ℕ) where
    -- The frame is scanned, and its bright points are counted.
    pub frame-scanned :
        {p : PixelBuffer} {d : Detector W I} (fr : IsFrame create room p)
        → IsReady room d
        → (seen : Scan W) × (scan d fr.buffer ≡ some seen) × IsBrightest d fr.buffer seen
    frame-scanned {d = d} fr r = Returns-some (IsBrightest d fr.buffer) (scan d fr.buffer) (
        scan-IsBrightest d fr.buffer laws (omega (arith, r.skips))
          (record { row_fits = r.row_fits; rows_fit = omega (arith, r.rows_fit, fr.large) }))

    capture-IsSound :
        (now : W) (p : PixelBuffer) (s : Session W I)
        → IsFrame create room p
        → IsSound room s
        → Returns (IsSound room) (capture_output create now (some p) s)
    capture-IsSound now p s fr v =
        let (seen, e, _) = frame-scanned fr (read-IsReady fr v.ready) in
        Returns-at (IsSound room) _ _
          (capture_output-after_frame create now p fr.buffer seen s fr.based e)
          (after_frame-IsSound now seen.num_bright_pixels fr v)

    -- The parts of the detector that no invariant reads.
    side-IsReady :
        {d : Detector W I} (a : Acceleration W) (flat : Bool) (dropped : ℕ)
        → IsReady room d
        → IsReady room (record d { acc_data = a; is_flat = flat; dropped_frames = dropped })
    side-IsReady a flat dropped r = record {
      framed = r.framed;
      threshold = r.threshold;
      table = r.table;
      not_lower = r.not_lower;
      row_fits = r.row_fits;
      rows_fit = r.rows_fit;
      skips = r.skips;
      smallest = r.smallest;
    }

    with-IsSound :
        {s : Session W I} (d : Detector W I)
        → IsSound room s
        → IsReady room d
        → d.num_events ≡ s.detector.num_events
        → d.cgimage ≡ s.detector.cgimage
        → IsSound room (record s { detector = d })
    with-IsSound d v r e i = record {
      ready = r;
      unlocked = v.unlocked;
      counted = e ∙ v.counted;
      pictured = elim v.pictured [ inl n ↦ inl n | inr (j, k) ↦ inr (j, i ∙ k) ];
    }

    timer-IsSound :
        (now : W) (s : Session W I)
        → IsSound room s
        → Returns (IsSound room) (step create (timer now) s)
    unfolding step
    timer-IsSound now s v =
        let r = v.ready in
        let t = r.threshold in
        let self : t ≼ t = laws.le_refl_right _ t r.not_lower in
        rw (update_threshold-table now s.detector t r.table) (
          with-IsSound _ v
            (record {
              framed = r.framed;
              threshold = next_threshold now s.detector t;
              table = refl;
              not_lower =
                  laws.le_trans _ _ _ r.not_lower (next_threshold-le laws now s.detector t self);
              row_fits = r.row_fits;
              rows_fit = r.rows_fit;
              skips = r.skips;
              smallest = r.smallest;
            })
            refl refl)

    main-IsSound :
        (s : Session W I) (queue : List ℕ)
        → s.posted ≡ queue
        → IsSound room s
        → Returns (IsSound room) (run_posted queue s)
    unfolding run_posted
    main-IsSound s [] at v = v
    main-IsSound s (bright ∷ rest) at v = elim v.pictured [
      | inl e ↦ absurd (ground arith)
      | inr (image, e) ↦
          Returns-at (IsSound room) _ _ (run_posted-some bright rest s image e) (record {
            ready = v.ready;
            unlocked = v.unlocked;
            counted = omega (
              arith,
              v.counted,
              ap length at,
              length-append s.added ((image, score_of bright s.detector) ∷ []),
            );
            pictured = inr (image, e);
          })
    ]

    pub step-IsSound :
        (e : Event W) (s : Session W I)
        → Delivered create room e
        → IsSound room s
        → Returns (IsSound room) (step create e s)
    unfolding step update_acc dropped_frame run_main
    step-IsSound (frame now none) s h v = absurd h
    step-IsSound (frame now (some p)) s h v = capture-IsSound now p s h v
    step-IsSound (timer now) s h v = timer-IsSound now s v
    step-IsSound (accelerometer none) s h v =
        with-IsSound _ v (side-IsReady _ _ _ v.ready) refl refl
    step-IsSound (accelerometer (some a)) s h v =
        with-IsSound _ v (side-IsReady _ _ _ v.ready) refl refl
    step-IsSound drop s h v = with-IsSound _ v (side-IsReady _ _ _ v.ready) refl refl
    step-IsSound main s h v = main-IsSound s s.posted refl v

    pub run-IsSound :
        (es : List (Event W)) (s : Session W I)
        → All (Delivered create room) es
        → IsSound room s
        → Returns (IsSound room) (run create es s)
    unfolding run
    run-IsSound [] s h v = v
    run-IsSound (e ∷ es) s h v =
        Returns-bind (IsSound room) (IsSound room) (step create e s) (run create es)
          (step-IsSound e s h.0 v) λ t w. run-IsSound es t h.1 w

    new_session-IsSound :
        (image : Option I) (started : W) → IsSound room (new_session image started)
    new_session-IsSound image started = record {
      ready = record {
        framed = omega arith;
        threshold = of_int 160;
        table = refl;
        not_lower = laws.of_int-le 160 160 (omega arith);
        row_fits = omega arith;
        rows_fit = omega arith;
        skips = refl;
        smallest = refl;
      };
      unlocked = refl;
      counted = omega arith;
      pictured = inl refl;
    }

    -- Where the arithmetic keeps `IsIeee` and each frame is as `IsFrame` says (a base address,
    -- bytes, an image, a buffer of `room` bytes at least, and reported rows that take `room` bytes
    -- at most, for one number `room` that all frames of the run share), a DetectionVC never traps and never reads outside a buffer, with timer calls, accelerometer readings, dropped
    -- frames and posted closures in any order between the frames. At the end of every such run no
    -- pixel buffer is locked, each event counted is a detection that was added or a closure that
    -- waits, there are no more events than frames, and the threshold for YUV420v is not below
    -- 160, while that for BGRA is the one it started with.
    pub run-new_session :
        (es : List (Event W)) (image : Option I) (started : W)
        → All (Delivered create room) es
        → Returns (IsSound room) (run create es (new_session image started))
    run-new_session es image started h =
        run-IsSound es (new_session image started) h (new_session-IsSound image started)
