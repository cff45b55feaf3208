-- ===== src/App/Detection/Events/Sound.antt =====
-- The state of DetectionVC between calls, and that every call returns and keeps it so.
use Prim.Native.Nat.{ℕ, ◌+◌, ◌*◌, ◌≤◌, ◌<◌}
use solta.Base.{
  ◌≡◌, ◌∙◌, ◌⊎◌, inl, inr, Option, none, some, List, [], ◌∷◌, ◌++◌, All, length, length-append,
  if◌then◌else◌, Bool-cases, arith, IsByte,
}
use solta.App.Float64.{Float64, ◌≼◌}
use solta.App.Detection.Detector.{
  Detector, DetectionModes, yuv420v, bgra, measure_flux, update_threshold, target_flux,
  threshold_in, same_mode, set_value, set_intensity_threshold, increment_intensity_threshold,
}
use solta.App.Detection.Scan.{PixelBuffer}
use solta.App.Detection.Capture.{
  Session, start_frame, read_properties, is_event, run_posted, score_of,
}
use solta.App.Detection.Capture.Frame.{after_frame}
use solta.App.Detection.Events.{Event, frame}

module _ {W : Type 0} ⦃f : Float64 W⦄ where
  abbrev pub table_of : W → List (DetectionModes × W)
  table_of t = (bgra, f.of_int 450) ∷ (yuv420v, t) ∷ []

module _ {I : Type 0} where
  -- A frame that the camera delivers: a base address, bytes, rows of the width reported, and an image.
  pub record IsFrame (create_cg_image : PixelBuffer → Option I) (room : ℕ) (p : PixelBuffer)
      : Type 0 where
    pub buffer : List ℕ
    pub based : p.base_address ≡ some buffer
    pub bytes : All IsByte buffer
    pub large : room ≤ length buffer
    pub row_fits : p.width ≤ p.bytes_per_row_of_plane
    pub rows_fit : p.height * p.bytes_per_row_of_plane ≤ room
    pub image : I
    pub created : create_cg_image p ≡ some image

module _ {W I : Type 0} ⦃f : Float64 W⦄ where
  open f use {of_int, plus, gt}

  -- `room` is a number of bytes that every buffer of the camera has.
  pub record IsReady (room : ℕ) (d : Detector W I) : Type 0 where
    pub framed : d.num_events ≤ d.num_frames
    pub threshold : W
    pub table : d.intensity_threshholds ≡ table_of threshold
    pub not_lower : of_int 160 ≼ threshold
    pub row_fits : d.width ≤ d.bytes_per_row_of_plane
    pub rows_fit : d.height * d.bytes_per_row_of_plane ≤ room
    pub skips : d.pixels_to_skip ≡ 2
    pub smallest : d.min_ray_size ≡ 1

  pub record IsSound (room : ℕ) (s : Session W I) : Type 0 where
    pub ready : IsReady room s.detector
    pub unlocked : s.locked ≡ 0
    pub counted : s.detector.num_events ≡ length s.added + length s.posted
    pub pictured : (s.posted ≡ []) ⊎ ((image : I) × (s.detector.cgimage ≡ some image))

  abbrev pub Delivered : (PixelBuffer → Option I) → ℕ → Event W → Type 0
  Delivered create room (frame now none) = ⊥
  Delivered create room (frame now (some p)) = IsFrame create room p
  Delivered create room _ = Unit

  pub update_threshold-table :
      (now : W) (d : Detector W I) (t : W)
      → d.intensity_threshholds ≡ table_of t
      → let e = measure_flux now d in
        update_threshold now d
        ≡ some (record e {
          intensity_threshholds = table_of (if gt e.flux target_flux then plus t (of_int 5) else t);
        })
  unfolding update_threshold increment_intensity_threshold set_intensity_threshold set_value
      threshold_in same_mode
  update_threshold-table now d t e = elim (Bool-cases (gt (measure_flux now d).flux target_flux)) [
    | inl h ↦ simp (h, e)
    | inr h ↦ simp (h, e)
  ]

  pub read-IsReady :
      {create : PixelBuffer → Option I} {room : ℕ} {p : PixelBuffer} {d : Detector W I}
      → IsFrame create room p
      → IsReady room d
      → IsReady room (read_properties p (start_frame d))
  unfolding read_properties
  read-IsReady {p = p} {d = d} fr r = record {
    framed = ground (arith, r.framed);
    threshold = r.threshold;
    table = ground (arith, r.table);
    not_lower = r.not_lower;
    row_fits = ground (arith, r.row_fits, fr.row_fits);
    rows_fit = ground (arith, r.rows_fit, fr.rows_fit);
    skips = ground (arith, r.skips);
    smallest = ground (arith, r.smallest);
  }

  read-num_events :
      (p : PixelBuffer) (d : Detector W I)
      → (read_properties p (start_frame d)).num_events ≡ d.num_events
  unfolding read_properties
  read-num_events p d = ground arith

  read-cgimage :
      (p : PixelBuffer) (d : Detector W I) → (read_properties p (start_frame d)).cgimage ≡ d.cgimage
  unfolding read_properties
  read-cgimage p d = ground arith

  read-framed :
      (p : PixelBuffer) (d : Detector W I)
      → d.num_events ≤ d.num_frames
      → (read_properties p (start_frame d)).num_events
        < (read_properties p (start_frame d)).num_frames
  unfolding read_properties
  read-framed p d h = ground arith

  pub after_frame-IsSound :
      {create : PixelBuffer → Option I} {room : ℕ} {p : PixelBuffer} {s : Session W I} (now : W)
      (bright : ℕ)
      → IsFrame create room p
      → IsSound room s
      → IsSound room (after_frame create now p bright s)
  after_frame-IsSound {p = p} {s = s} now bright fr v =
      let d = read_properties p (start_frame s.detector) in
      let r = read-IsReady fr v.ready in
      let same : d.num_events ≡ s.detector.num_events = read-num_events p s.detector in
      elim (Bool-cases (is_event d bright)) [
        | inl b ↦ rw b record {
          ready = record {
            framed = omega (arith, read-framed p s.detector v.ready.framed);
            threshold = r.threshold;
            table = r.table;
            not_lower = r.not_lower;
            row_fits = r.row_fits;
            rows_fit = r.rows_fit;
            skips = r.skips;
            smallest = r.smallest;
          };
          unlocked = v.unlocked;
          counted = omega (arith, v.counted, length-append s.posted (bright ∷ []));
          pictured = inr (fr.image, fr.created);
        }
        | inr b ↦ rw b record {
          ready = r;
          unlocked = v.unlocked;
          counted = omega (arith, v.counted);
          pictured = elim v.pictured [
            | inl e ↦ inl e
            | inr (i, e) ↦ inr (i, read-cgimage p s.detector ∙ e)
          ];
        }
      ]

  -- A closure that waits adds the image and the score of the moment when it runs.
  pub run_posted-some :
      (bright : ℕ) (rest : List ℕ) (s : Session W I) (image : I)
      → s.detector.cgimage ≡ some image
      → run_posted (bright ∷ rest) s
        ≡ some (record s {
          posted = rest;
          added = s.added ++ ((image, score_of bright s.detector) ∷ []);
        })
  unfolding run_posted
  run_posted-some bright rest s image e = simp e
