-- ===== src/Pb/Message/Submessage.antt =====
-- `pb_encode_submessage` and packed arrays: the length that is written first, from a run on a stream
-- that only measures, is the length of what follows.
use solta.Base.{ℕ, ◌+◌, ◌-◌, ◌%◌, ◌^◌, ◌≤◌, ◌<◌, ◌≡◌, refl, sym, ap, ◌∙◌, arith}
use solta.Base.{length, List, ◌++◌, inl, inr, none, ltb, ◌==◌, Bool-cases}
use solta.Base.{M, Res, done, failed, fault, ◌>>◌}
use solta.Pb.Ostream.{Ostream, pb_write, sizing_stream}
use solta.Pb.Ostream.Laws.{filling}
use solta.Pb.Memory.{Memory}
use solta.Pb.Encode.{pb_encode_varint}
use solta.Pb.Message.Encoding.{
  Encoding, on_stream, reading, with_memory, size_or_write, write_submsg,
}
use solta.Pb.Message.Encoding.{submsg_sized, submsg_written, pb_encode_submessage}
use solta.Pb.Message.Agree.{sizing_at, Appends, Emits, Agrees, then-Agrees}
use solta.Pb.Message.Scalars.{AgreesAlone, pb_encode_varint-Agrees}

module _ {S : Type 0} (mem : Memory) where
  abbrev pub with_mem : Ostream S → Encoding S
  with_mem s = record { stream = s; memory = mem }

  lifted_done :
      (r : Res (Ostream S) (Unit {0})) (t : Encoding S)
      → with_memory mem r ≡ done tt t
      → (t' : Ostream S) × (r ≡ done tt t')
  lifted_done (done a t') t e = (t', refl)
  lifted_done (failed t') t e = cc
  lifted_done fault t e = cc

  pub on_stream-Emits :
      (m : Memory → M (Ostream S) (Unit {0})) (bytes : List ℕ)
      → Emits (λ (s : Ostream S). s) (m mem) bytes
      → Emits with_mem (on_stream m) bytes
  on_stream-Emits m bytes h = record {
    counts = λ written u. ap (with_memory mem) (h.counts written u);
    writes = λ stored room limit written k l u.
        ap (with_memory mem) (h.writes stored room limit written k l u);
    fits = λ stored room limit written t r e.
        let (t', d) = lifted_done (m mem (filling stored room limit written none)) t e in
        h.fits stored room limit written t' r d;
  }

  pub on_stream-Agrees :
      (m : Memory → M (Ostream S) (Unit {0})) → AgreesAlone (m mem) → Agrees with_mem (on_stream m)
  on_stream-Agrees m (inl (bytes, h)) = inl (bytes, on_stream-Emits m bytes h)
  on_stream-Agrees m (inr h) = inr record {
    unsized = λ written t u e.
        let (t', d) = lifted_done (m mem (sizing_at written)) t e in h.unsized written t' u d;
    unwritten = λ stored room limit written t r e.
        let (t', d) = lifted_done (m mem (filling stored room limit written none)) t e in
        h.unwritten stored room limit written t' r d;
  }

  -- A size that was counted, and then the data; on a stream that measures only the size again.
  counted :
      (data_bytes : List ℕ) (m : M (Encoding S) (Unit {0})) (size : ℕ)
      → size ≡ length data_bytes % 2 ^ 64
      → Appends with_mem m data_bytes
      → Emits with_mem (λ s. size_or_write s.stream.sink m size s) data_bytes
  unfolding pb_write
  counted data_bytes m size e h = record {
    counts = λ written u. ap (λ n. done tt (with_mem (sizing_at n))) (omega arith);
    writes = h.writes;
    fits = h.fits;
  }

  pub sized-Agrees :
      (data_bytes : List ℕ) (m : M (Encoding S) (Unit {0})) (size : ℕ)
      → size ≡ length data_bytes % 2 ^ 64
      → Appends with_mem m data_bytes
      → Agrees with_mem
          (on_stream (λ _. pb_encode_varint size) >> λ s. size_or_write s.stream.sink m size s)
  sized-Agrees data_bytes m size e h =
      then-Agrees with_mem (on_stream (λ _. pb_encode_varint size))
        (λ s. size_or_write s.stream.sink m size s)
        (on_stream-Agrees (λ _. pb_encode_varint size) (pb_encode_varint-Agrees size))
        (inl (data_bytes, counted data_bytes m size e h))

  -- The second run writes what the first has counted.
  second_run :
      (encode : M (Encoding S) (Unit {0})) (bytes : List ℕ)
      → Emits with_mem encode bytes
      → (stored : List ℕ) (room limit written : ℕ) → length bytes ≤ room
      → written + length bytes ≤ limit
      → limit < 2 ^ 64
      → write_submsg encode
          (length bytes % 2 ^ 64)
          (with_mem (filling stored room limit written none))
        ≡ done tt (
            with_mem
              (filling (stored ++ bytes) (room - length bytes) limit (written + length bytes) none))
  second_run encode bytes h stored room limit written fits under u =
      let n : ℕ = length bytes in
      let cut : n % 2 ^ 64 ≡ n = omega arith in
      rw cut
        (ground (arith, h.writes stored room (length bytes) 0 fits (omega arith) (omega arith)))

  inner_done :
      (size : ℕ) (s : Ostream S) (r : Res (Encoding S) (Unit {0})) (t : Encoding S)
      → submsg_written size s r ≡ done tt t
      → (t' : Encoding S) × (r ≡ done tt t')
  inner_done size s (done a t') t e = (t', refl)
  inner_done size s (failed t') t e = elim (Bool-cases (t'.stream.bytes_written == size)) [
    | inl same ↦ absurd (ground (arith, same, e))
    | inr other ↦ absurd (ground (arith, other, e))
  ]
  inner_done size s fault t e = cc

  submsg-Appends :
      (encode : M (Encoding S) (Unit {0})) (bytes : List ℕ)
      → Emits with_mem encode bytes
      → Appends with_mem (write_submsg encode (length bytes % 2 ^ 64)) bytes
  submsg-Appends encode bytes h = record {
    writes = second_run encode bytes h;
    fits = λ stored room limit written t r e.
        let size : ℕ = length bytes % 2 ^ 64 in
        elim (Bool-cases (ltb limit ((written + size) % 2 ^ 64))) [
          | inl full ↦ absurd (ground (arith, full, e))
          | inr below ↦
              let (t', d) =
                inner_done size (filling stored room limit written none)
                  (encode (with_mem (filling stored room size 0 none))) t (rw below at e) in
              let k =
                h.fits stored room size 0 t' (omega (arith, r.0), omega arith, omega arith) d in
              (k.0, ground (arith, k.0, k.1, below, r.0))
        ];
  }

  sized_done :
      (encode : M (Encoding S) (Unit {0})) (r : Res (Encoding S) (Unit {0})) (s t : Encoding S)
      → submsg_sized encode r s ≡ done tt t
      → (t' : Encoding S) × (r ≡ done tt t')
  sized_done encode (done a t') s t e = (t', refl)
  sized_done encode (failed t') s t e = cc
  sized_done encode fault s t e = cc

  pub pb_encode_submessage-Agrees :
      (encode : M (Encoding S) (Unit {0}))
      → Agrees with_mem encode
      → Agrees with_mem (pb_encode_submessage encode)
  unfolding pb_encode_submessage sizing_stream
  pb_encode_submessage-Agrees encode (inr h) = inr record {
    unsized = λ written t u e.
        let (t', d) =
          sized_done encode (encode (with_mem (sizing_at 0))) (with_mem (sizing_at written)) t e in
        h.unsized 0 t' (omega arith) d;
    unwritten = λ stored room limit written t r e.
        let s = with_mem (filling stored room limit written none) in
        let (t', d) = sized_done encode (encode (with_mem (sizing_at 0))) s t e in
        h.unsized 0 t' (omega arith) d;
  }
  pb_encode_submessage-Agrees encode (inl (bytes, h)) = after_sizing (
      sized-Agrees bytes (write_submsg encode (length bytes % 2 ^ 64)) (length bytes % 2 ^ 64) refl
        (submsg-Appends encode bytes h))
    where
      n : ℕ
      n = length bytes % 2 ^ 64

      first : encode (with_mem (sizing_at 0)) ≡ done tt (with_mem (sizing_at n))
      first =
          h.counts 0 (omega arith)
          ∙ ap (λ k. done tt (with_mem (sizing_at (k % 2 ^ 64)))) (omega arith)

      rest : M (Encoding S) (Unit {0})
      rest = on_stream (λ _. pb_encode_varint n) >> λ s.
          size_or_write s.stream.sink (write_submsg encode n) n s

      second :
          (s : Encoding S)
          → submsg_sized encode (encode (with_mem (sizing_at 0))) s
            ≡ submsg_sized encode (done tt (with_mem (sizing_at n))) s
      second s = ap (λ r. submsg_sized encode r s) first

      after_sizing : Agrees with_mem rest → Agrees with_mem (pb_encode_submessage encode)
      after_sizing (inl (b, k)) = inl (
        b,
        record {
          counts = λ written u.
              ap (λ r. submsg_sized encode r (with_mem (sizing_at written))) first
              ∙ k.counts written u;
          writes = λ stored room limit written f l u.
              ap (λ r. submsg_sized encode r (with_mem (filling stored room limit written none)))
                first
              ∙ k.writes stored room limit written f l u;
          fits = λ stored room limit written t r e.
              k.fits stored room limit written t r
                (sym (second (with_mem (filling stored room limit written none))) ∙ e);
        },
      )
      after_sizing (inr k) = inr record {
        unsized = λ written t u e.
            k.unsized written t u (sym (second (with_mem (sizing_at written))) ∙ e);
        unwritten = λ stored room limit written t r e.
            k.unwritten stored room limit written t r
              (sym (second (with_mem (filling stored room limit written none))) ∙ e);
      }

  -- What is read is the memory that the relation is about.
  pub reading-Agrees :
      (f : Memory → M (Encoding S) (Unit {0}))
      → Agrees with_mem (f mem)
      → Agrees with_mem (reading f)
  reading-Agrees f (inl (b, h)) =
      inl (b, record { counts = h.counts; writes = h.writes; fits = h.fits })
  reading-Agrees f (inr h) = inr record { unsized = h.unsized; unwritten = h.unwritten }
