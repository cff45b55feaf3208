-- ===== src/App/Wired/EveryCall.antt =====
-- Every call of the application keeps the detections and the events together.
use solta.Base.{
  ◌≡◌, refl, ap, ◌∙◌, Bool, true, false, Option, none, some, List, [], ◌∷◌, length, arith,
}
use solta.App.Float64.{Float64}
use solta.App.Trap.{Yields, Yields-bind, Yields-some}
use solta.App.Login.{Text}
use solta.App.Detection.Detector.{update_threshold, update_acc, dropped_frame}
use solta.App.Detection.Scan.{PixelBuffer}
use solta.App.Detection.Capture.{Session, capture_output}
use solta.App.Detection.Capture.Locks.{capture_output-VcFrame}
use solta.App.Detection.Events.{frame, timer, accelerometer, drop, main, step}
use solta.App.Firebase.Database.{Database}
use solta.App.Firebase.Detection.{Services, update_url}
use solta.App.Firebase.Helper.{
  Helper, Upload, put_completed, answer_put, url_completed, answer_url, set_url, image_loaded,
  answer_image, take_out,
}
use solta.App.Wired.{AppCall, event, put_answer, url_answer, data_answer, call, call_all}
use solta.App.Wired.Handed.{handed, IsHanded, timer-events, closure-IsHanded, frame-IsHanded}

module _ {W I D : Type 0} ⦃f : Float64 W⦄ ⦃b : Database W D⦄ where
  -- An answer of the SDKs leaves the detections as they are.
  answer-IsHanded :
      (s : Session W I) (h g : Helper W I D)
      → g.detections ≡ h.detections
      → IsHanded (s, h)
      → IsHanded (s, g)
  answer-IsHanded s h g e v = record {
    counted = omega (arith, v.counted, ap length e);
    same = ap handed e ∙ v.same;
  }

  put_completed-detections :
      (stored : Bool) (o : Option (Upload W I × List (Upload W I))) (h : Helper W I D)
      → (answer_put stored o h).detections ≡ h.detections
  unfolding answer_put
  put_completed-detections stored none h = refl
  put_completed-detections true (some u) h = refl
  put_completed-detections false (some u) h = refl

  answer_url-detections :
      (error : Bool) (address : Option Text) (o : Option (Upload W I × List (Upload W I)))
      (h : Helper W I D)
      → Yields (λ g. g.detections ≡ h.detections) (answer_url error address o h)
  unfolding answer_url
  answer_url-detections error address none h = refl
  answer_url-detections true address (some u) h = refl
  answer_url-detections false address (some u) h = Yields-bind _ address _ λ t e.
      Yields-bind _ (set_url u.0 (update_url t u.0.current_detection) h.database) _ λ db k. refl

  answer_image-detections :
      (answer : Option (Option I)) (o : Option (Text × List Text)) (h : Helper W I D)
      → Yields (λ g. g.detections ≡ h.detections) (answer_image answer o h)
  unfolding answer_image
  answer_image-detections answer none h = refl
  answer_image-detections none (some u) h = refl
  answer_image-detections (some image) (some u) h = Yields-bind _ image _ λ i e. refl

  call-IsHanded :
      (env : Services W I) (create : PixelBuffer → Option I) (c : AppCall W I)
      (r : Session W I × Helper W I D)
      → IsHanded r
      → Yields IsHanded (call env create c r)
  unfolding call step update_acc dropped_frame put_completed url_completed image_loaded
  call-IsHanded env create (event now main) r v =
      closure-IsHanded env create now r.0.posted r refl v
  call-IsHanded env create (event now (frame at sample)) r v =
      Yields-bind IsHanded (capture_output create at sample r.0) _ λ t e.
        let k = capture_output-VcFrame create at sample r.0 t e in
        frame-IsHanded r.0 t r.1 k.2 k.3 v
  call-IsHanded env create (event now (timer at)) r v =
      Yields-bind IsHanded (step create (timer at) r.0) _ λ t e.
        Yields-some (λ (u : Session W I). IsHanded (u, r.1)) _ t e
          (Yields-bind _ (update_threshold at r.0.detector) _ λ d k. record {
            counted = Yields-some _ _ d k (timer-events at r.0.detector) ∙ v.counted;
            same = v.same;
          })
  call-IsHanded env create (event now (accelerometer none)) r v = record {
    counted = v.counted;
    same = v.same;
  }
  call-IsHanded env create (event now (accelerometer (some a))) r v = record {
    counted = v.counted;
    same = v.same;
  }
  call-IsHanded env create (event now drop) r v = record { counted = v.counted; same = v.same }
  call-IsHanded env create (put_answer n stored) r v =
      answer-IsHanded r.0 r.1 _ (put_completed-detections stored (take_out n r.1.uploads) r.1) v
  call-IsHanded env create (url_answer n error address) r v =
      Yields-bind IsHanded (url_completed n error address r.1) _ λ g e.
        answer-IsHanded r.0 r.1 g (Yields-some _ _ g e (answer_url-detections error address _ r.1))
          v
  call-IsHanded env create (data_answer n answer) r v =
      Yields-bind IsHanded (image_loaded n answer r.1) _ λ g e.
        answer-IsHanded r.0 r.1 g (Yields-some _ _ g e (answer_image-detections answer _ r.1)) v

  call_all-Yields :
      (env : Services W I) (create : PixelBuffer → Option I) (cs : List (AppCall W I))
      (r : Session W I × Helper W I D)
      → IsHanded r
      → Yields IsHanded (call_all env create cs r)
  unfolding call_all
  call_all-Yields env create [] r v = v
  call_all-Yields env create (c ∷ cs) r v =
      Yields-bind IsHanded (call env create c r) (call_all env create cs) λ q e.
        call_all-Yields env create cs q
          (Yields-some IsHanded _ q e (call-IsHanded env create c r v))

  -- After any frames, timer calls, closures and answers of the SDKs that did not stop the program, each
  -- event that was counted either waits as a closure or is one detection of the helper, and the images
  -- and scores of its detections are those that the closures read, in order. This holds from a state
  -- that has it, such as one with no event and no detection.
  pub call_all-IsHanded :
      (env : Services W I) (create : PixelBuffer → Option I) (cs : List (AppCall W I))
      (r q : Session W I × Helper W I D)
      → IsHanded r
      → call_all env create cs r ≡ some q
      → IsHanded q
  call_all-IsHanded env create cs r q v e =
      Yields-some IsHanded _ q e (call_all-Yields env create cs r v)
