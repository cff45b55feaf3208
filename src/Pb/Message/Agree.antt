-- ===== src/Pb/Message/Agree.antt =====
-- A writer agrees with itself: what it counts on a stream that only measures a size, it writes into
-- an array. Here for the writers of a stream alone.
use solta.Base.{ℕ, ◌+◌, ◌-◌, ◌%◌, ◌^◌, ◌≤◌, ◌<◌, ◌≡◌, refl, sym, ap, ◌∙◌, arith}
use solta.Base.{
  length, length-append, append_assoc, append-nil, List, [], ◌++◌, ◌⊎◌, inl, inr, none,
}
use solta.Base.{
  M, Res, done, failed, fault, pure, crash, and_then, ◌>>◌, if◌then◌else◌, Bool, true, false,
}
use solta.Pb.Ostream.{Ostream, sizing}
use solta.Pb.Ostream.Laws.{filling}

-- The stream of PB_OSTREAM_SIZING after a number of bytes.
abbrev pub sizing_at : {S : Type 0} → ℕ → Ostream S
sizing_at written = record { sink = sizing; max_size = 0; bytes_written = written; errmsg = none }

-- An array of `room` bytes more, and a `max_size` that is not passed yet; addresses are size_t.
abbrev pub IsRoom : ℕ → ℕ → ℕ → Type 0
IsRoom room limit written = (room + written < 2 ^ 64) × (written ≤ limit) × (limit < 2 ^ 64)

-- A chain that succeeds has succeeded with its first part.
pub first_done :
    {T A B : Type 0} (r : Res T A) (k : A → M T B) (b : B) (t : T)
    → and_then r k ≡ done b t
    → (a : A) × (t' : T) × (r ≡ done a t')
first_done (done a t') k b t e = (a, t', refl)
first_done (failed t') k b t e = cc
first_done fault k b t e = cc

-- `embed` puts a stream into the state that the writer works on.
module _ {S T : Type 0} (embed : Ostream S → T) where
  -- The writer appends the bytes to any array with room, and succeeds on no other.
  pub record Appends (w : M T (Unit {0})) (bytes : List ℕ) : Type 0 where
    pub writes :
        (stored : List ℕ) (room limit written : ℕ)
        → length bytes ≤ room
        → written + length bytes ≤ limit
        → limit < 2 ^ 64
        → w (embed (filling stored room limit written none))
          ≡ done tt (
              embed (
                filling
                  (stored ++ bytes)
                  (room - length bytes)
                  limit
                  (written + length bytes)
                  none))
    pub fits :
        (stored : List ℕ) (room limit written : ℕ) (t : T)
        → IsRoom room limit written
        → w (embed (filling stored room limit written none)) ≡ done tt t
        → (length bytes ≤ room) × (written + length bytes ≤ limit)

  -- The writer counts as many bytes on a stream that measures as it appends to any array with room.
  pub record Emits (w : M T (Unit {0})) (bytes : List ℕ) : Type 0 where
    pub counts :
        (written : ℕ)
        → written < 2 ^ 64
        → w (embed (sizing_at written))
          ≡ done tt (embed (sizing_at ((written + length bytes) % 2 ^ 64)))
    pub writes :
        (stored : List ℕ) (room limit written : ℕ)
        → length bytes ≤ room
        → written + length bytes ≤ limit
        → limit < 2 ^ 64
        → w (embed (filling stored room limit written none))
          ≡ done tt (
              embed (
                filling
                  (stored ++ bytes)
                  (room - length bytes)
                  limit
                  (written + length bytes)
                  none))
    pub fits :
        (stored : List ℕ) (room limit written : ℕ) (t : T)
        → IsRoom room limit written
        → w (embed (filling stored room limit written none)) ≡ done tt t
        → (length bytes ≤ room) × (written + length bytes ≤ limit)

  -- The writer succeeds neither on a stream that measures nor on an array.
  pub record Stops (w : M T (Unit {0})) : Type 0 where
    pub unsized :
        (written : ℕ) (t : T) → written < 2 ^ 64 → ¬ (w (embed (sizing_at written)) ≡ done tt t)
    pub unwritten :
        (stored : List ℕ) (room limit written : ℕ) (t : T)
        → IsRoom room limit written
        → ¬ (w (embed (filling stored room limit written none)) ≡ done tt t)

  abbrev pub Agrees : M T (Unit {0}) → Type 0
  Agrees w = ((bytes : List ℕ) × Emits w bytes) ⊎ Stops w

  pub pure-Emits : Emits (pure tt) []
  pure-Emits = record {
    counts = λ written u. ap (λ n. done tt (embed (sizing_at n))) (omega arith);
    writes = λ stored room limit written h k u. λ i. done tt (
        embed (
          filling (sym (append-nil stored) i) (none_less room i) limit (none_more written i) none));
    fits = λ stored room limit written t r e. (omega arith, omega (arith, r.1));
  }
    where
      none_less : (n : ℕ) → n ≡ n - 0
      none_less n = omega arith

      none_more : (n : ℕ) → n ≡ n + 0
      none_more n = omega arith

  pub then-Emits :
      (w w' : M T (Unit {0})) (b b' : List ℕ) → Emits w b → Emits w' b' → Emits (w >> w') (b ++ b')
  then-Emits w w' b b' h h' = record {
    counts = λ written u.
        ap (λ r. and_then r (λ _. w')) (h.counts written u)
        ∙ h'.counts ((written + length b) % 2 ^ 64) (omega arith)
        ∙ ap (λ n. done tt (embed (sizing_at n))) (omega (arith, length-append b b'));
    writes = λ stored room limit written fits under u.
        ap (λ r. and_then r (λ _. w'))
          (h.writes stored room limit written (omega (arith, length-append b b'))
            (omega (arith, length-append b b')) u)
        ∙ h'.writes (stored ++ b) (room - length b) limit (written + length b)
            (omega (arith, length-append b b')) (omega (arith, length-append b b')) u
        ∙ λ i. done tt (
            embed
              (filling (append_assoc stored b b' i) (fewer room i) limit (more written i) none));
    fits = λ stored room limit written t r e.
        let (x, t', d) =
          first_done (w (embed (filling stored room limit written none))) (λ _. w') tt t e in
        let k = h.fits stored room limit written t' r d in
        let now = h.writes stored room limit written k.0 k.1 r.2 in
        let k' =
          h'.fits (stored ++ b) (room - length b) limit (written + length b) t
            (omega (arith, r.0, k.0), k.1, r.2) (sym (ap (λ q. and_then q (λ _. w')) now) ∙ e) in
        (omega (arith, length-append b b', k.0, k'.0), omega (arith, length-append b b', k'.1));
  }
    where
      fewer : (n : ℕ) → n - length b - length b' ≡ n - length (b ++ b')
      fewer n = omega (arith, length-append b b')

      more : (n : ℕ) → n + length b + length b' ≡ n + length (b ++ b')
      more n = omega (arith, length-append b b')

  pub then-Agrees : (w w' : M T (Unit {0})) → Agrees w → Agrees w' → Agrees (w >> w')
  then-Agrees w w' (inr h) h' = inr record {
    unsized = λ written t u e.
        let (x, t', d) = first_done (w (embed (sizing_at written))) (λ _. w') tt t e in
        h.unsized written t' u d;
    unwritten = λ stored room limit written t r e.
        let (x, t', d) =
          first_done (w (embed (filling stored room limit written none))) (λ _. w') tt t e in
        h.unwritten stored room limit written t' r d;
  }
  then-Agrees w w' (inl (b, h)) (inl (b', h')) = inl (b ++ b', then-Emits w w' b b' h h')
  then-Agrees w w' (inl (b, h)) (inr h') = inr record {
    unsized = λ written t u e.
        h'.unsized ((written + length b) % 2 ^ 64) t (omega arith)
          (sym (ap (λ r. and_then r (λ _. w')) (h.counts written u)) ∙ e);
    unwritten = λ stored room limit written t r e.
        let (x, t', d) =
          first_done (w (embed (filling stored room limit written none))) (λ _. w') tt t e in
        let k = h.fits stored room limit written t' r d in
        let now = h.writes stored room limit written k.0 k.1 r.2 in
        h'.unwritten (stored ++ b) (room - length b) limit (written + length b) t
          (omega (arith, r.0, k.0), k.1, r.2) (sym (ap (λ q. and_then q (λ _. w')) now) ∙ e);
  }

  pub if-Agrees :
      (b : Bool) (w w' : M T (Unit {0})) → Agrees w → Agrees w' → Agrees (if b then w else w')
  if-Agrees true w w' h h' = h
  if-Agrees false w w' h h' = h'

  pub crash-Agrees : Agrees crash
  crash-Agrees =
      inr
        record { unsized = λ written t u e. cc; unwritten = λ stored room limit written t r e. cc }
