-- ===== src/App/Detection/Events/Settles.antt =====
-- A flux that stays too high raises the threshold until nothing is bright enough.
use Prim.Native.Nat.{ℕ, suc, ◌+◌, ◌*◌, ◌≤◌, ◌<◌}
use solta.Base.{
  ◌≡◌, refl, ap, subst, ◌∙◌, inl, inr, Bool, Option, none, some, List, [], ◌∷◌, All, ◌==◌, ==→eq,
  if◌then◌else◌, Bool-cases, arith,
}
use solta.App.Float64.{Float64, IsIeee, ◌≼◌}
use solta.App.Trap.{Returns, Returns-some, Returns-at, Returns-both, Returns-weaken}
use solta.App.Detection.Detector.{Detector, Acceleration, target_flux, update_acc, dropped_frame}
use solta.App.Detection.Scan.{PixelBuffer}
use solta.App.Detection.Capture.{
  Session, start_frame, read_properties, is_event, run_main, run_posted, capture_output,
}
use solta.App.Detection.Capture.Frame.{capture_output-after_frame}
use solta.App.Detection.Events.{Event, frame, timer, accelerometer, drop, main, step, run}
use solta.App.Detection.Events.Sound.{
  IsFrame, IsSound, Delivered, update_threshold-table, read-IsReady, run_posted-some,
}
use solta.App.Detection.Events.Kept.{frame-scanned, step-IsSound, run-IsSound}
use solta.App.Detection.Events.Quiet.{Reached, Quiet, Reached-Quiet, run-StaysQuiet}

module _ {W : Type 0} ⦃f : Float64 W⦄ where
  open f use {of_int, plus}

  five_more :
      (laws : IsIeee W) (n : ℕ) (t : W)
      → n < 36
      → of_int (160 + 5 * n) ≼ t
      → of_int (160 + 5 * suc n) ≼ plus t (of_int 5)
  five_more laws n t h up =
      let sum : 160 + 5 * n + 5 ≡ 160 + 5 * suc n = omega arith in
      let exact : plus (of_int (160 + 5 * n)) (of_int 5) ≡ of_int (160 + 5 * suc n) =
        laws.of_int-plus (160 + 5 * n) 5 (omega arith) ∙ ap of_int sum in
      subst (λ x. x ≼ plus t (of_int 5)) exact (laws.plus-le-plus _ t 5 up)

module _ {W I : Type 0} ⦃f : Float64 W⦄ where
  open f use {of_int, plus, minus, divide, gt}

  -- One for a timer call at which the flux is above the target, and zero for any other call.
  abbrev pub raised : Event W → Session W I → ℕ
  raised (timer now) s =
      let seconds = minus now s.detector.time_started in
      if gt (divide (of_int s.detector.num_events) seconds) target_flux then 1 else 0
  raised (frame now sample) s = 0
  raised (accelerometer a) s = 0
  raised drop s = 0
  raised main s = 0

  raised_small : (e : Event W) (s : Session W I) → raised e s ≤ 1
  raised_small (timer now) s =
      let seconds = minus now s.detector.time_started in
      elim (Bool-cases (gt (divide (of_int s.detector.num_events) seconds) target_flux)) [
        | inl h ↦ rw h (omega arith)
        | inr h ↦ rw h (omega arith)
      ]
  raised_small (frame now sample) s = omega arith
  raised_small (accelerometer a) s = omega arith
  raised_small drop s = omega arith
  raised_small main s = omega arith

  -- The timer calls of a run at which the flux is above the target.
  abbrev pub raises : (PixelBuffer → Option I) → List (Event W) → Session W I → ℕ
  raises create [] s = 0
  raises create (e ∷ es) s =
      raised e s + elim (step create e s) [ none ↦ 0 | some t ↦ raises create es t ]

  raises-next :
      (create : PixelBuffer → Option I) (e : Event W) (es : List (Event W)) (s t : Session W I)
      → step create e s ≡ some t
      → raises create (e ∷ es) s ≡ raised e s + raises create es t
  raises-next create e es s t at = rw at refl

  Reached-more : {n m : ℕ} {d : Detector W I} → n ≡ m → Reached n d → Reached m d
  Reached-more {d = d} e r = subst (λ m. Reached m d) e r

  Reached-same : {n : ℕ} {d : Detector W I} → Reached n d → Reached (n + 0) d
  Reached-same {n} = Reached-more {n = n} (omega arith)

  module _ (laws : IsIeee W) (create : PixelBuffer → Option I) (room : ℕ) where
    timer-Reached :
        (n : ℕ) (now : W) (s : Session W I)
        → n < 36
        → Reached n s.detector
        → Returns (λ t. Reached (n + raised (timer now) s) t.detector) (step create (timer now) s)
    unfolding step
    timer-Reached n now s small r =
        let seconds = minus now s.detector.time_started in
        let next = update_threshold-table now s.detector r.threshold r.table in
        elim (Bool-cases (gt (divide (of_int s.detector.num_events) seconds) target_flux)) [
          | inl h ↦
              rw (next, h)
                (Reached-more {n = suc n} (omega arith) record {
                  threshold = plus r.threshold (of_int 5);
                  table = refl;
                  raised = five_more laws n r.threshold small r.raised;
                })
          | inr h ↦
              rw (next, h)
                (Reached-more {n = n} (omega arith)
                  record { threshold = r.threshold; table = refl; raised = r.raised })
        ]

    frame-Reached :
        (n : ℕ) (now : W) (p : PixelBuffer) (s : Session W I)
        → IsFrame create room p
        → IsSound room s
        → Reached n s.detector
        → Returns (λ t. Reached n t.detector) (capture_output create now (some p) s)
    unfolding read_properties
    frame-Reached n now p s fr v r =
        let d = read_properties p (start_frame s.detector) in
        let (seen, e, _) = frame-scanned laws create room fr (read-IsReady fr v.ready) in
        Returns-at (λ t. Reached n t.detector) _ _
          (capture_output-after_frame create now p fr.buffer seen s fr.based e)
          (elim (Bool-cases (is_event d seen.num_bright_pixels)) [
            | inl b ↦ rw b record {
              threshold = r.threshold;
              table = ground (arith, r.table);
              raised = r.raised;
            }
            | inr b ↦ rw b record {
              threshold = r.threshold;
              table = ground (arith, r.table);
              raised = r.raised;
            }
          ])

    main-Reached :
        (n : ℕ) (s : Session W I) (queue : List ℕ)
        → s.posted ≡ queue
        → IsSound room s
        → Reached n s.detector
        → Returns (λ t. Reached n t.detector) (run_posted queue s)
    unfolding run_posted
    main-Reached n s [] at v r = r
    main-Reached n s (bright ∷ rest) at v r = elim v.pictured [
      | inl e ↦ absurd (ground arith)
      | inr (image, e) ↦
          Returns-at (λ t. Reached n t.detector) _ _ (run_posted-some bright rest s image e) r
    ]

    side-Reached :
        {n : ℕ} {d : Detector W I} (a : Acceleration W) (flat : Bool) (dropped : ℕ)
        → Reached n d
        → Reached n (record d { acc_data = a; is_flat = flat; dropped_frames = dropped })
    side-Reached a flat dropped r = record {
      threshold = r.threshold;
      table = r.table;
      raised = r.raised;
    }

    step-Reached :
        (n : ℕ) (e : Event W) (s : Session W I)
        → n < 36
        → Delivered create room e
        → IsSound room s
        → Reached n s.detector
        → Returns (λ t. Reached (n + raised e s) t.detector) (step create e s)
    unfolding step update_acc dropped_frame run_main
    step-Reached n (frame now none) s small h v r = absurd h
    step-Reached n (frame now (some p)) s small h v r =
        frame-Reached (n + 0) now p s h v (Reached-same r)
    step-Reached n (timer now) s small h v r = timer-Reached n now s small r
    step-Reached n (accelerometer none) s small h v r = side-Reached _ _ _ (Reached-same r)
    step-Reached n (accelerometer (some a)) s small h v r = side-Reached _ _ _ (Reached-same r)
    step-Reached n drop s small h v r = side-Reached _ _ _ (Reached-same r)
    step-Reached n main s small h v r = main-Reached (n + 0) s s.posted refl v (Reached-same r)

    -- The state is sound and quiet.
    abbrev pub IsSettled : Session W I → Type 0
    IsSettled t = IsSound room t × Quiet t.detector

    stays :
        (es : List (Event W)) (s : Session W I)
        → All (Delivered create room) es
        → IsSound room s
        → Reached 36 s.detector
        → Returns IsSettled (run create es s)
    stays es s h v r =
        Returns-both (IsSound room) (λ t. Quiet t.detector) (run create es s)
          (run-IsSound laws create room es s h v)
          (Returns-weaken _ _ (run create es s) (λ u x. x.1)
            (run-StaysQuiet laws create room es s h v (Reached-Quiet laws s.detector r)))

    settles :
        (n : ℕ) (es : List (Event W)) (s : Session W I)
        → n ≤ 36
        → 36 ≤ n + raises create es s
        → All (Delivered create room) es
        → IsSound room s
        → Reached n s.detector
        → Returns IsSettled (run create es s)
    unfolding run
    settles n [] s le enough h v r = stays [] s h v (Reached-more {n = n} (omega arith) r)
    settles n (e ∷ es) s le enough h v r = elim (Bool-cases (n == 36)) [
      | inl full ↦ stays (e ∷ es) s h v (Reached-more (==→eq n 36 full) r)
      | inr room_left ↦
          let more = n + raised e s in
          let (t, at, w) =
            Returns-some (λ t. IsSound room t × Reached more t.detector) (step create e s)
              (Returns-both (IsSound room) _ (step create e s)
                (step-IsSound laws create room e s h.0 v)
                (step-Reached n e s (ground arith) h.0 v r)) in
          rw at (
            settles more es t (ground (arith, raised_small e s))
              (omega (arith, raises-next create e es s t at)) h.1 w.0 w.1)
    ]

    -- Where the arithmetic keeps `IsIeee`, from a state that is sound (`IsSound`), and where each
    -- frame is as `IsFrame` says: after calls in any order among which there are 36 calls of the
    -- timer, or more, at which the flux is above the target, no value of a byte is above three
    -- quarters of the threshold, and the calls that follow, in any order too, count no event any more
    -- and leave that so.
    pub run-Quiet :
        (es later : List (Event W)) (s : Session W I)
        → 36 ≤ raises create es s
        → All (Delivered create room) es
        → All (Delivered create room) later
        → IsSound room s
        → Returns
            (λ t.
              Quiet t.detector
              × Returns
                  (λ u. (u.detector.num_events ≡ t.detector.num_events) × Quiet u.detector)
                  (run create later t))
            (run create es s)
    run-Quiet es later s enough h k v =
        let start : Reached 0 s.detector = record {
          threshold = v.ready.threshold;
          table = v.ready.table;
          raised = v.ready.not_lower;
        } in
        Returns-weaken IsSettled _ (run create es s)
          (λ t w. (w.1, run-StaysQuiet laws create room later t k w.0 w.1))
          (settles 0 es s (omega arith) (omega (arith, enough)) h v start)
