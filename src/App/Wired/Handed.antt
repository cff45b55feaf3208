-- ===== src/App/Wired/Handed.antt =====
-- Each event of the detector is a closure that waits, or has become one detection of the helper.
use Prim.Native.Nat.{ℕ, ◌+◌}
use solta.Base.{
  ◌≡◌, inl, inr, refl, sym, ap, ◌∙◌, Option, none, some, List, [], ◌∷◌, ◌++◌, length, length-append,
  Bool-cases, arith,
}
use solta.App.Float64.{Float64}
use solta.App.Trap.{Yields, Yields-bind, Yields-some}
use solta.App.Login.{login_of_user}
use solta.App.Detection.Detector.{
  Detector, measure_flux, update_threshold, increment_intensity_threshold, set_intensity_threshold,
  set_value, target_flux,
}
use solta.App.Detection.Scan.{PixelBuffer}
use solta.App.Detection.Capture.{Session, score_of, run_posted}
use solta.App.Detection.Capture.Locks.{VcFrame, dark, posts}
use solta.App.Detection.Events.Sound.{run_posted-some}
use solta.App.Firebase.Database.{Database}
use solta.App.Firebase.Detection.{Detection, Services, new_detection}
use solta.App.Firebase.Helper.{Helper, add_detection, put_if_any, start_upload, store_numbers}
use solta.App.Wired.{run_closure}

module _ {W I : Type 0} where
  -- The image and the score of a detection.
  abbrev pub handed : List (Detection W I) → List (Option I × W)
  handed [] = []
  handed (d ∷ ds) = (d.image, d.score) ∷ handed ds

  abbrev pub entries : List (I × W) → List (Option I × W)
  entries [] = []
  entries ((i, x) ∷ l) = (some i, x) ∷ entries l

  handed-append : (ds es : List (Detection W I)) → handed (ds ++ es) ≡ handed ds ++ handed es
  handed-append [] es = refl
  handed-append (d ∷ ds) es = ap (λ l. (d.image, d.score) ∷ l) (handed-append ds es)

  entries-append : (l m : List (I × W)) → entries (l ++ m) ≡ entries l ++ entries m
  entries-append [] m = refl
  entries-append ((i, x) ∷ l) m = ap (λ t. (some i, x) ∷ t) (entries-append l m)

  -- A closure has run: one event less waits, and `entry` was added.
  record Passed (s : Session W I) (rest : List ℕ) (entry : I × W) (t : Session W I) : Type 0 where
    detector : t.detector ≡ s.detector
    posted : t.posted ≡ rest
    added : t.added ≡ s.added ++ (entry ∷ [])

  new_detection-handed :
      (env : Services W I) (now x : W) (image : I)
      → Yields (λ d. (d.image ≡ some image) × (d.score ≡ x)) (new_detection env now (some image) x)
  unfolding new_detection
  new_detection-handed env now x image =
      Yields-bind _ (login_of_user env.user_email) _ λ login e. (refl, refl)

  pub timer-events :
      ⦃f : Float64 W⦄ (now : W) (d : Detector W I)
      → Yields (λ e. e.num_events ≡ d.num_events) (update_threshold now d)
  unfolding update_threshold increment_intensity_threshold set_intensity_threshold
  timer-events ⦃f⦄ now d =
      let high = f.gt (measure_flux now d).flux target_flux in
      elim (Bool-cases high) [
        | inl e ↦ rw e (Yields-bind _ (set_value _ _ d.intensity_threshholds) _ λ l k. refl)
        | inr e ↦ rw e refl
      ]

module _ {W I D : Type 0} where
  -- Each event that was counted is a closure that waits or a detection of the helper, in order, with
  -- the image and the score that its closure read.
  pub record IsHanded (r : Session W I × Helper W I D) : Type 0 where
    pub counted : r.0.detector.num_events ≡ length r.1.detections + length r.0.posted
    pub same : handed r.1.detections ≡ entries r.0.added

module _ {W I D : Type 0} ⦃f : Float64 W⦄ ⦃b : Database W D⦄ where
  put_if_any-detections :
      (env : Services W I) (o : Option I) (d : Detection W I) (h : Helper W I D)
      → Yields (λ g. g.detections ≡ h.detections) (put_if_any env o d h)
  unfolding put_if_any start_upload
  put_if_any-detections env none d h = refl
  put_if_any-detections env (some image) d h =
      Yields-bind _ (env.int32_text d.score) _
        λ name e. Yields-bind _ (env.jpeg image) _ λ bytes k. refl

  add_detection-detections :
      (env : Services W I) (d : Detection W I) (h : Helper W I D)
      → Yields (λ g. g.detections ≡ h.detections ++ (d ∷ [])) (add_detection env d h)
  unfolding add_detection store_numbers
  add_detection-detections env d h =
      let start : Helper W I D = record h { user_ref = d.login } in
      Yields-bind _ (put_if_any env d.image d start) _ λ g e.
        ap (λ l. l ++ (d ∷ []))
          (Yields-some (λ (x : Helper W I D). x.detections ≡ h.detections) _ g e
            (put_if_any-detections env d.image d start))

  IsHanded-next :
      (r q : Session W I × Helper W I D) (d : Detection W I) (image : I) (score : W) (bright : ℕ)
      (rest : List ℕ)
      → r.0.posted ≡ bright ∷ rest
      → IsHanded r
      → (d.image ≡ some image) × (d.score ≡ score)
      → q.1.detections ≡ r.1.detections ++ (d ∷ [])
      → Passed r.0 rest (image, score) q.0
      → IsHanded q
  IsHanded-next r q d image score bright rest at v is longer p =
      let events = ap (λ (e : Detector W I). e.num_events) p.detector in
      let one : handed (d ∷ []) ≡ entries ((image, score) ∷ []) = λ i. (is.0 i, is.1 i) ∷ [] in
      record {
        counted = omega (
          arith,
          events,
          v.counted,
          ap length at,
          ap length longer,
          ap length p.posted,
          length-append r.1.detections (d ∷ []),
        );
        same =
            ap handed longer
            ∙ handed-append r.1.detections (d ∷ [])
            ∙ ap (λ l. l ++ handed (d ∷ [])) v.same
            ∙ ap (λ l. entries r.0.added ++ l) one
            ∙ sym (entries-append r.0.added ((image, score) ∷ []))
            ∙ ap entries (sym p.added);
      }

  pub frame-IsHanded :
      (s t : Session W I) (h : Helper W I D)
      → t.added ≡ s.added
      → VcFrame s t
      → IsHanded (s, h)
      → IsHanded (t, h)
  frame-IsHanded s t h a (dark e p) v = record {
    counted = omega (arith, e, v.counted, ap length p);
    same = v.same ∙ ap entries (sym a);
  }
  frame-IsHanded s t h a (posts bright e p) v = record {
    counted = omega (arith, e, v.counted, ap length p, length-append s.posted (bright ∷ []));
    same = v.same ∙ ap entries (sym a);
  }

  pub closure-IsHanded :
      (env : Services W I) (create : PixelBuffer → Option I) (now : W) (queue : List ℕ)
      (r : Session W I × Helper W I D)
      → r.0.posted ≡ queue
      → IsHanded r
      → Yields IsHanded (run_closure env create now queue r)
  unfolding run_closure
  closure-IsHanded env create now [] r at v = v
  closure-IsHanded env create now (bright ∷ rest) r at v =
      let score = score_of bright r.0.detector in
      Yields-bind IsHanded r.0.detector.cgimage _ λ image e.
        Yields-bind IsHanded (new_detection env now (some image) score) _ λ d made.
          Yields-bind IsHanded (add_detection env d r.1) _ λ g added.
            Yields-bind IsHanded (run_posted (bright ∷ rest) r.0) _ λ t ran.
              let is = Yields-some _ _ d made (new_detection-handed env now score image) in
              let longer = Yields-some _ _ g added (add_detection-detections env d r.1) in
              let next = sym (run_posted-some bright rest r.0 image e) ∙ ran in
              IsHanded-next r (t, g) d image score bright rest at v is longer
                (Yields-some (Passed r.0 rest (image, score)) (some _) t next
                  (record { detector = refl; posted = refl; added = refl }))
