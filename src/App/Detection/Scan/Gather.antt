-- ===== src/App/Detection/Scan/Gather.antt =====
-- A walk over points that the buffer holds: it ends, counts the bright ones and finds the brightest.
use Prim.Native.Nat.{ℕ}
use mathlib.Core.Bool.{false≢true}
use solta.Base.{
  ◌≡◌, refl, sym, ◌∙◌, inl, inr, true, false, Option, none, some, List, [], ◌∷◌, All, Bool-cases,
  arith,
}
use solta.App.Float64.{Float64, IsIeee}
use solta.App.Trap.{Returns}
use solta.App.Detection.Detector.{Detector}
use solta.App.Detection.Scan.{Scan, cut, see, scan_pixel}
use solta.App.Detection.Scan.Points.{sample, is_bright, Stored, NotAbove, Gathers, scan_points}

module _ {W I : Type 0} ⦃f : Float64 W⦄ (laws : IsIeee W) (d : Detector W I) (buffer : List ℕ) where
  open f use {of_int, gt}

  irreflexive : (v : ℕ) → gt (of_int v) (of_int v) ≡ false
  irreflexive v = laws.le-not_gt _ _ (laws.of_int-le v v (omega arith))

  -- What is not above the old top is not above a new one that is higher.
  raised : (x new old : W) → gt new old ≡ true → gt x old ≡ false → gt x new ≡ false
  raised x new old up below = elim (Bool-cases (gt x new)) [
    | inl e ↦ absurd (false≢true (sym below ∙ laws.gt_trans x new old e up))
    | inr e ↦ e
  ]

  only :
      (p : ℕ × ℕ) (v : ℕ) (top : W)
      → sample d buffer p ≡ some v
      → (gt (of_int v) (cut d buffer) ≡ true → gt (of_int v) top ≡ false)
      → NotAbove d buffer top p
  only p v top e below u at bright = let low : gt (of_int v) top ≡ false = below (cc) in cc

  see-Gathers :
      (p : ℕ × ℕ) (v : ℕ) (s : Scan W)
      → sample d buffer p ≡ some v
      → Gathers d buffer (p ∷ []) s (see d buffer p (of_int v) s)
  unfolding see is_bright
  see-Gathers p v s e = elim (Bool-cases (gt (of_int v) (cut d buffer))) [
    | inl b ↦ elim (Bool-cases (gt (of_int v) s.highest_intensity)) [
      | inl h ↦
          rw (b, h)
            record {
              counted = rw (e, b) (omega arith);
              upper = (only p v _ e (λ _. irreflexive v), tt);
              grown = λ x below. raised x _ _ h below;
              attained = inr (record {
                point = p;
                value = v;
                found = refl;
                stored = e;
                highest = refl;
                bright = b;
              });
            }
      | inr h ↦
          rw (b, h)
            record {
              counted = rw (e, b) (omega arith);
              upper = (only p v _ e (λ _. h), tt);
              grown = λ x below. below;
              attained = inl (refl, refl);
            }
    ]
    | inr b ↦ rw b record {
      counted = rw (e, b) (omega arith);
      upper = (only p v _ e (λ t. absurd (false≢true (sym b ∙ t))), tt);
      grown = λ x below. below;
      attained = inl (refl, refl);
    }
  ]

  Gathers-cons :
      (p : ℕ × ℕ) (ps : List (ℕ × ℕ)) (s t u : Scan W)
      → Gathers d buffer (p ∷ []) s t
      → Gathers d buffer ps t u
      → Gathers d buffer (p ∷ ps) s u
  Gathers-cons p ps s t u one rest = record {
    counted = omega (arith, one.counted, rest.counted);
    upper = (λ v at bright. rest.grown _ (one.upper.0 v at bright), rest.upper);
    grown = λ x below. rest.grown x (one.grown x below);
    attained = elim rest.attained [
      | inr a ↦ inr a
      | inl same ↦ elim one.attained [
        | inl before ↦ inl (same.0 ∙ before.0, same.1 ∙ before.1)
        | inr a ↦ inr (record {
          point = a.point;
          value = a.value;
          found = same.0 ∙ a.found;
          stored = a.stored;
          highest = same.1 ∙ a.highest;
          bright = a.bright;
        })
      ]
    ];
  }

  Returns-Gathers-cons :
      (p : ℕ × ℕ) (ps : List (ℕ × ℕ)) (s t : Scan W) (o : Option (Scan W))
      → Gathers d buffer (p ∷ []) s t
      → Returns (Gathers d buffer ps t) o
      → Returns (Gathers d buffer (p ∷ ps) s) o
  Returns-Gathers-cons p ps s t none one rest = rest
  Returns-Gathers-cons p ps s t (some u) one rest = Gathers-cons p ps s t u one rest

  pub scan_points-Gathers :
      (ps : List (ℕ × ℕ)) (s : Scan W)
      → All (Stored d buffer) ps
      → Returns (Gathers d buffer ps s) (scan_points d buffer ps s)
  unfolding scan_pixel
  scan_points-Gathers [] s h = record {
    counted = omega arith;
    upper = tt;
    grown = λ x below. below;
    attained = inl (refl, refl);
  }
  scan_points-Gathers (p ∷ ps) s ((v, e), h) =
      let t : Scan W = see d buffer p (of_int v) s in
      rw e (Returns-Gathers-cons p ps s t _ (see-Gathers p v s e) (scan_points-Gathers ps t h))
