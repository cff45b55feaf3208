-- ===== src/App/Detection/Events/Quiet.antt =====
-- The threshold only rises, and above 340 there are no more events.
use Prim.Native.Nat.{ℕ, zero, suc, ◌+◌, ◌*◌, ◌≤◌, ◌<◌}
use solta.Base.{
  ◌≡◌, refl, sym, subst, ◌∙◌, inl, inr, false, Option, none, some, List, [], ◌∷◌, All,
  if◌then◌else◌, arith, IsByte,
}
use solta.App.Float64.{Float64, IsIeee, ◌≼◌, three_quarters}
use solta.App.Trap.{get_elem?, Returns, Returns-bind, Returns-at, Returns-both, Returns-weaken}
use solta.App.Detection.Detector.{
  Detector, detection_mode, get_intensity_threshold, threshold_in, same_mode, update_acc,
  dropped_frame,
}
use solta.App.Detection.Scan.{PixelBuffer}
use solta.App.Detection.Scan.Points.{sample, is_bright, bright_one}
use solta.App.Detection.Scan.Grid.{total, at_multiple, sum_multiples}
use solta.App.Detection.Scan.Brightest.{bright_total}
use solta.App.Detection.Capture.{
  Session, start_frame, read_properties, is_event, capture_output, run_main, run_posted,
}
use solta.App.Detection.Capture.Frame.{capture_output-after_frame}
use solta.App.Detection.Events.{Event, frame, timer, accelerometer, drop, main, step, run}
use solta.App.Detection.Events.Sound.{
  table_of, IsFrame, IsReady, IsSound, Delivered, update_threshold-table, read-IsReady,
  run_posted-some,
}
use solta.App.Detection.Events.Kept.{frame-scanned, step-IsSound, next_threshold, next_threshold-le}

total-zero : (g : ℕ → ℕ) (i n : ℕ) → ((j : ℕ) → g j ≡ 0) → total g i n ≡ 0
total-zero g i zero h = refl
total-zero g i (suc n) h = omega (arith, h i, total-zero g (suc i) n h)

sum_multiples-zero : (g : ℕ → ℕ) (m k : ℕ) → ((x : ℕ) → g x ≡ 0) → sum_multiples g m k ≡ 0
sum_multiples-zero g m k h = total-zero (at_multiple g m k) 0 m λ i. ground (arith, h (i * k))

get_elem?-byte : (l : List ℕ) (n : ℕ) {v : ℕ} → All IsByte l → get_elem? l n ≡ some v → v < 256
get_elem?-byte [] n h e = absurd (ground arith)
get_elem?-byte (x ∷ l) zero h e = subst IsByte (cc) (h.0)
get_elem?-byte (x ∷ l) (suc n) h e = get_elem?-byte l n h.1 e

module _ {W I : Type 0} ⦃f : Float64 W⦄ where
  open f use {of_int, times, divide, minus, plus, gt}

  -- No value of a byte is above three quarters of the threshold.
  abbrev pub Quiet : Detector W I → Type 0
  Quiet d = of_int 255 ≼ times (get_intensity_threshold detection_mode d) three_quarters

  -- The threshold has been raised `n` times at least.
  pub record Reached (n : ℕ) (d : Detector W I) : Type 0 where
    pub threshold : W
    pub table : d.intensity_threshholds ≡ table_of threshold
    pub raised : of_int (160 + 5 * n) ≼ threshold

  module _ (laws : IsIeee W) where
    no_bright_one :
        (d : Detector W I) (buffer : List ℕ) (p : ℕ × ℕ)
        → All IsByte buffer
        → Quiet d
        → bright_one d buffer p ≡ 0
    unfolding is_bright
    no_bright_one d buffer p h q = go (sample d buffer p) refl
      where
        go :
            (o : Option ℕ)
            → sample d buffer p ≡ o
            → ◌≡◌ {A = ℕ} (if is_bright d buffer o then 1 else 0) 0
        go none e = refl
        go (some v) e =
            let small : v ≤ 255 = omega (arith, get_elem?-byte buffer _ h e) in
            rw (laws.le-not_gt _ _ (laws.le_trans _ _ _ (laws.of_int-le v 255 small) q)) refl

    bright_total-zero :
        (d : Detector W I) (buffer : List ℕ)
        → All IsByte buffer
        → Quiet d
        → bright_total d buffer ≡ 0
    unfolding bright_total
    bright_total-zero d buffer h q =
        sum_multiples-zero _ d.width d.pixels_to_skip
          λ x. sum_multiples-zero _ d.height d.pixels_to_skip λ y. no_bright_one d buffer (x, y) h q

    pub Reached-Quiet : (d : Detector W I) → Reached 36 d → Quiet d
    unfolding threshold_in same_mode
    Reached-Quiet d r =
        let exact : of_int 255 ≼ times (of_int 340) three_quarters =
          subst (λ x. of_int 255 ≼ x) (sym (laws.times-three_quarters 85 (omega arith)))
            (laws.of_int-le 255 255 (omega arith)) in
        simp r.table (laws.le_trans _ _ _ exact (laws.three_quarters-le _ _ r.raised))

    Quiet-le :
        (d : Detector W I) (t u : W)
        → d.intensity_threshholds ≡ table_of t
        → t ≼ u
        → Quiet d
        → of_int 255 ≼ times u three_quarters
    unfolding threshold_in same_mode
    Quiet-le d t u e h q =
        let now : of_int 255 ≼ times t three_quarters = simp e at q in
        laws.le_trans _ _ _ now (laws.three_quarters-le t u h)

    abbrev pub StaysQuiet : Session W I → Session W I → Type 0
    StaysQuiet s t = (t.detector.num_events ≡ s.detector.num_events) × Quiet t.detector

    read-Quiet :
        (p : PixelBuffer) (d : Detector W I) → Quiet d → Quiet (read_properties p (start_frame d))
    unfolding read_properties
    read-Quiet p d q = ground (arith, q)

    read-events :
        (p : PixelBuffer) (d : Detector W I)
        → (read_properties p (start_frame d)).num_events ≡ d.num_events
    unfolding read_properties
    read-events p d = ground arith

    module _ (create : PixelBuffer → Option I) (room : ℕ) where
      frame-StaysQuiet :
          (now : W) (p : PixelBuffer) (s : Session W I)
          → IsFrame create room p
          → IsSound room s
          → Quiet s.detector
          → Returns (StaysQuiet s) (capture_output create now (some p) s)
      unfolding is_event
      frame-StaysQuiet now p s fr v q =
          let d = read_properties p (start_frame s.detector) in
          let r = read-IsReady fr v.ready in
          let still = read-Quiet p s.detector q in
          let (seen, e, b) = frame-scanned laws create room fr r in
          let none_bright : seen.num_bright_pixels ≡ 0 =
            b.counted ∙ bright_total-zero d fr.buffer fr.bytes still in
          let no_event : is_event d seen.num_bright_pixels ≡ false =
            rw (none_bright, r.smallest) refl in
          Returns-at (StaysQuiet s) _ _
            (capture_output-after_frame create now p fr.buffer seen s fr.based e)
            (rw no_event (read-events p s.detector, still))

      timer-StaysQuiet :
          (now : W) (s : Session W I)
          → IsReady room s.detector
          → Quiet s.detector
          → Returns (StaysQuiet s) (step create (timer now) s)
      unfolding step threshold_in same_mode
      timer-StaysQuiet now s r q =
          let t = r.threshold in
          let self = laws.le_refl_right _ t r.not_lower in
          let up = next_threshold-le laws now s.detector t self in
          rw (update_threshold-table now s.detector t r.table)
            (refl, Quiet-le s.detector t (next_threshold now s.detector t) r.table up q)

      main-StaysQuiet :
          (s : Session W I) (queue : List ℕ)
          → s.posted ≡ queue
          → IsSound room s
          → Quiet s.detector
          → Returns (StaysQuiet s) (run_posted queue s)
      unfolding run_posted
      main-StaysQuiet s [] at v q = (refl, q)
      main-StaysQuiet s (bright ∷ rest) at v q = elim v.pictured [
        | inl e ↦ absurd (ground arith)
        | inr (image, e) ↦
            Returns-at (StaysQuiet s) _ _ (run_posted-some bright rest s image e) (refl, q)
      ]

      step-StaysQuiet :
          (e : Event W) (s : Session W I)
          → Delivered create room e
          → IsSound room s
          → Quiet s.detector
          → Returns (StaysQuiet s) (step create e s)
      unfolding step update_acc dropped_frame run_main
      step-StaysQuiet (frame now none) s h v q = absurd h
      step-StaysQuiet (frame now (some p)) s h v q = frame-StaysQuiet now p s h v q
      step-StaysQuiet (timer now) s h v q = timer-StaysQuiet now s v.ready q
      step-StaysQuiet (accelerometer none) s h v q = (refl, q)
      step-StaysQuiet (accelerometer (some a)) s h v q = (refl, q)
      step-StaysQuiet drop s h v q = (refl, q)
      step-StaysQuiet main s h v q = main-StaysQuiet s s.posted refl v q

      pub run-StaysQuiet :
          (es : List (Event W)) (s : Session W I)
          → All (Delivered create room) es
          → IsSound room s
          → Quiet s.detector
          → Returns (StaysQuiet s) (run create es s)
      unfolding run
      run-StaysQuiet [] s h v q = (refl, q)
      run-StaysQuiet (e ∷ es) s h v q =
          Returns-bind (λ t. IsSound room t × StaysQuiet s t) (StaysQuiet s) (step create e s)
            (run create es)
            (Returns-both (IsSound room) (StaysQuiet s) (step create e s)
              (step-IsSound laws create room e s h.0 v) (step-StaysQuiet e s h.0 v q))
            λ t w.
              Returns-weaken (StaysQuiet t) (StaysQuiet s) (run create es t)
                (λ u x. (x.0 ∙ w.1.0, x.1)) (run-StaysQuiet es t h.1 w.0 w.1.1)
