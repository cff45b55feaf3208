-- ===== src/Pb/Message/Array.antt =====
-- `encode_array` and the choice of an encoder agree with themselves.
use solta.Base.{ℕ, zero, suc, ◌*◌, ◌%◌, ◌^◌, ◌≡◌, refl, sym, ap, ◌∙◌, arith, not, leb, ◌&&◌}
use solta.Base.{length, length-append, List, [], ◌++◌, inl, inr, none}
use solta.Base.{
  M, Res, done, failed, fault, ◌>>◌, if◌then◌else◌, ◌==◌, ltb, Bool, true, false, ==→eq,
}
use solta.Pb.Errmsg.{Errmsg}
use solta.Pb.Ostream.{sizing_stream}
use solta.Pb.Ostream.Laws.{filling}
use solta.Pb.Memory.{Memory}
use solta.Pb.Field.Ltype
use solta.Pb.Field.Atype
use solta.Pb.Field.{Field, Ptr, null, message, initial, ltype, atype}
use solta.Pb.Field.Iter.{offset}
use solta.Pb.Encode.{pb_encode_varint, pb_encode_tag}
use solta.Pb.Encode.Scalar.{pb_enc_fixed32, pb_enc_fixed64}
use solta.Pb.Message.Encoding.{
  Encoding, on_stream, stop, size_or_write, pb_encode_tag_for_field, reading,
}
use solta.Pb.Message.Encode.{Encoder, encode_message, pb_enc_submessage, pb_encoder, each_entry}
use solta.Pb.Message.Encode.{entries_sized, with_size, entry_address, encode_array}
use solta.Pb.Message.Agree.{
  sizing_at, Emits, Agrees, then-Agrees, then-Emits, pure-Emits, if-Agrees, crash-Agrees,
}
use solta.Pb.Message.Scalars.{
  pb_encode_tag-Agrees, pb_encode_tag_for_field-Agrees, pb_enc_varint-Agrees, pb_enc_uvarint-Agrees,
  pb_enc_svarint-Agrees, pb_enc_fixed32-Emits, pb_enc_fixed64-Emits, pb_enc_bytes-Agrees,
  pb_enc_string-Agrees, pb_enc_fixed_length_bytes-Agrees,
}
use solta.Pb.Message.Submessage.{
  with_mem, on_stream-Emits, on_stream-Agrees, reading-Agrees, sized-Agrees,
  pb_encode_submessage-Agrees,
}

module _ {S : Type 0} (mem : Memory) where
  pub stop-Agrees : (e : Errmsg) → Agrees (with_mem {S = S} mem) (stop e)
  stop-Agrees e =
      inr
        record { unsized = λ written t u h. cc; unwritten = λ stored room limit written t r h. cc }

  each_entry-Agrees :
      (count size p : ℕ) (body : ℕ → M (Encoding S) (Unit {0}))
      → ((q : ℕ) → Agrees (with_mem mem) (body q))
      → Agrees (with_mem mem) (each_entry count size p body)
  unfolding each_entry
  each_entry-Agrees zero size p body h = inl ([], pure-Emits (with_mem mem))
  each_entry-Agrees (suc count) size p body h =
      then-Agrees (with_mem mem) (body p) (each_entry count size (offset p size) body) (h p)
        (each_entry-Agrees count size (offset p size) body h)

  -- Entries of a fixed width.
  each_entry-Emits :
      (count size p width : ℕ) (body : ℕ → M (Encoding S) (Unit {0}))
      → ((q : ℕ) → (b : List ℕ) × Emits (with_mem mem) (body q) b × (length b ≡ width))
      → (bytes : List ℕ) × Emits (with_mem mem) (each_entry count size p body) bytes
        × (length bytes ≡ width * count)
  unfolding each_entry
  each_entry-Emits zero size p width body h = ([], pure-Emits (with_mem mem), omega arith)
  each_entry-Emits (suc count) size p width body h =
      let (b, e, k) = h p in
      let (bs, es, ks) = each_entry-Emits count size (offset p size) width body h in
      (
        b ++ bs,
        then-Emits (with_mem mem) (body p) (each_entry count size (offset p size) body) b bs e es,
        omega (arith, length-append b bs, k, ks),
      )

  message-Agrees :
      (sub : ℕ → ℕ → M (Encoding S) (Unit {0})) (ptr : Ptr) (src : ℕ)
      → ((a q : ℕ) → Agrees (with_mem mem) (sub a q))
      → Agrees (with_mem mem) (encode_message sub ptr src)
  message-Agrees sub null src h = stop-Agrees _
  message-Agrees sub (message a) src h = pb_encode_submessage-Agrees mem (sub a src) (h a src)
  message-Agrees sub (initial bytes) src h = crash-Agrees (with_mem mem)

  fixed32-Agrees : (src : ℕ) → Agrees (with_mem {S = S} mem) (on_stream (pb_enc_fixed32 src))
  fixed32-Agrees src =
      let (b, e, k) = pb_enc_fixed32-Emits src mem in
      inl (b, on_stream-Emits mem (pb_enc_fixed32 src) b e)

  fixed64-Agrees : (src : ℕ) → Agrees (with_mem {S = S} mem) (on_stream (pb_enc_fixed64 src))
  fixed64-Agrees src =
      let (b, e, k) = pb_enc_fixed64-Emits src mem in
      inl (b, on_stream-Emits mem (pb_enc_fixed64 src) b e)

  pub pb_encoder-Agrees :
      (sub : ℕ → ℕ → M (Encoding S) (Unit {0})) (field : Field) (src : ℕ)
      → ((a q : ℕ) → Agrees (with_mem mem) (sub a q))
      → Agrees (with_mem mem) (pb_encoder sub field src)
  unfolding pb_encoder pb_enc_submessage
  pb_encoder-Agrees sub field src h =
      let choose = if-Agrees (with_mem {S = S} mem) in
      let l : ℕ = ltype field.type in
      choose (l == Ltype.varint) _ _
        (on_stream-Agrees mem _ (pb_enc_varint-Agrees field.data_size src mem))
        (choose (l == Ltype.uvarint) _ _
          (on_stream-Agrees mem _ (pb_enc_uvarint-Agrees field.data_size src mem))
          (choose (l == Ltype.svarint) _ _
            (on_stream-Agrees mem _ (pb_enc_svarint-Agrees field.data_size src mem))
            (choose (l == Ltype.fixed32) _ _ (fixed32-Agrees src) (
              choose (l == Ltype.fixed64) _ _ (fixed64-Agrees src) (
                choose (l == Ltype.bytes) _ _
                  (on_stream-Agrees mem _ (pb_enc_bytes-Agrees field src mem))
                  (choose (l == Ltype.string) _ _
                    (on_stream-Agrees mem _ (pb_enc_string-Agrees field src mem))
                    (choose (l == Ltype.submessage) _ _ (message-Agrees sub field.ptr src h) (
                      choose (l == Ltype.fixed_length_bytes) _ _
                        (on_stream-Agrees mem _ (pb_enc_fixed_length_bytes-Agrees field src mem))
                        (crash-Agrees (with_mem mem))))))))))

  -- The test is made at each run.
  test-Agrees :
      (b : Bool) (f g : M (Encoding S) (Unit {0}))
      → (b ≡ true → Agrees (with_mem mem) f)
      → (b ≡ false → Agrees (with_mem mem) g)
      → Agrees (with_mem mem) (λ s. if b then f s else g s)
  test-Agrees true f g hf hg = hf refl
  test-Agrees false f g hf hg = hg refl

  fixed32-Emits :
      (sub : ℕ → ℕ → M (Encoding S) (Unit {0})) (field : Field) (src : ℕ)
      → (ltype field.type == Ltype.fixed32) ≡ true
      → (b : List ℕ) × Emits (with_mem mem) (pb_encoder sub field src) b × (length b ≡ 4)
  unfolding pb_encoder
  fixed32-Emits sub field src e =
      let (b, h, k) = pb_enc_fixed32-Emits {S = S} src mem in
      let l : ltype field.type ≡ 3 = ==→eq _ _ e in
      rw l (b, on_stream-Emits mem (pb_enc_fixed32 src) b h, k)

  fixed64-Emits :
      (sub : ℕ → ℕ → M (Encoding S) (Unit {0})) (field : Field) (src : ℕ)
      → (ltype field.type == Ltype.fixed64) ≡ true
      → (b : List ℕ) × Emits (with_mem mem) (pb_encoder sub field src) b × (length b ≡ 8)
  unfolding pb_encoder
  fixed64-Emits sub field src e =
      let (b, h, k) = pb_enc_fixed64-Emits {S = S} src mem in
      let l : ltype field.type ≡ 4 = ==→eq _ _ e in
      rw l (b, on_stream-Emits mem (pb_enc_fixed64 src) b h, k)

  abbrev size_and_data : M (Encoding S) (Unit {0}) → ℕ → M (Encoding S) (Unit {0})
  size_and_data entries size =
      on_stream (λ _. pb_encode_varint size) >> λ s. size_or_write s.stream.sink entries size s

  sized_done :
      (entries : M (Encoding S) (Unit {0})) (r : Res (Encoding S) (Unit {0})) (s t : Encoding S)
      → entries_sized (size_and_data entries) r s ≡ done tt t
      → (t' : Encoding S) × (r ≡ done tt t')
  sized_done entries (done a t') s t e = (t', refl)
  sized_done entries (failed t') s t e = cc
  sized_done entries fault s t e = cc

  entries_sized-Agrees :
      (entries : M (Encoding S) (Unit {0}))
      → Agrees (with_mem mem) entries
      → Agrees (with_mem mem) (λ s.
        entries_sized (size_and_data entries) (entries (record s { stream = sizing_stream })) s)
  unfolding sizing_stream
  entries_sized-Agrees entries (inr h) = inr record {
    unsized = λ written t u e.
        let (t', d) =
          sized_done entries (entries (with_mem mem (sizing_at 0)))
            (with_mem mem (sizing_at written)) t e in
        h.unsized 0 t' (omega arith) d;
    unwritten = λ stored room limit written t r e.
        let s = with_mem mem (filling stored room limit written none) in
        let (t', d) = sized_done entries (entries (with_mem mem (sizing_at 0))) s t e in
        h.unsized 0 t' (omega arith) d;
  }
  entries_sized-Agrees entries (inl (bytes, h)) = after_sizing (
      sized-Agrees mem bytes entries (length bytes % 2 ^ 64) refl
        (record { writes = h.writes; fits = h.fits }))
    where
      n : ℕ
      n = length bytes % 2 ^ 64

      first : entries (with_mem mem (sizing_at 0)) ≡ done tt (with_mem mem (sizing_at n))
      first =
          h.counts 0 (omega arith)
          ∙ ap (λ k. done tt (with_mem mem (sizing_at (k % 2 ^ 64)))) (omega arith)

      whole : M (Encoding S) (Unit {0})
      whole s =
          entries_sized (size_and_data entries) (entries (record s { stream = sizing_stream })) s

      second :
          (s : Encoding S)
          → entries_sized (size_and_data entries) (entries (with_mem mem (sizing_at 0))) s
            ≡ size_and_data entries n (record s { memory = mem })
      second s = ap (λ r. entries_sized (size_and_data entries) r s) first

      after_sizing : Agrees (with_mem mem) (size_and_data entries n) → Agrees (with_mem mem) whole
      after_sizing (inl (b, k)) = inl (
        b,
        record {
          counts = λ written u.
              ap (λ r. entries_sized (size_and_data entries) r (with_mem mem (sizing_at written)))
                first
              ∙ k.counts written u;
          writes = λ stored room limit written f l u.
              ap
                (λ r.
                  entries_sized (size_and_data entries) r
                    (with_mem mem (filling stored room limit written none)))
                first
              ∙ k.writes stored room limit written f l u;
          fits = λ stored room limit written t r e.
              k.fits stored room limit written t r
                (sym (second (with_mem mem (filling stored room limit written none))) ∙ e);
        },
      )
      after_sizing (inr k) = inr record {
        unsized = λ written t u e.
            k.unsized written t u (sym (second (with_mem mem (sizing_at written))) ∙ e);
        unwritten = λ stored room limit written t r e.
            k.unwritten stored room limit written t r
              (sym (second (with_mem mem (filling stored room limit written none))) ∙ e);
      }

  with_size-Agrees :
      (sub : ℕ → ℕ → M (Encoding S) (Unit {0})) (field : Field) (count p : ℕ)
      → ((a q : ℕ) → Agrees (with_mem mem) (sub a q))
      → let entries = each_entry count field.data_size p (pb_encoder sub field) in
        Agrees (with_mem mem) (with_size field count entries (size_and_data entries))
  with_size-Agrees sub field count p h =
      let entries = each_entry count field.data_size p (pb_encoder sub field) in
      test-Agrees (ltype field.type == Ltype.fixed32) _ _
        (λ e.
          fixed 4 (each_entry-Emits count field.data_size p 4 _ (λ q. fixed32-Emits sub field q e)))
        (λ other.
          test-Agrees (ltype field.type == Ltype.fixed64) _ _
            (λ e.
              fixed 8
                (each_entry-Emits count field.data_size p 8 _ (λ q. fixed64-Emits sub field q e)))
            (λ neither.
              entries_sized-Agrees entries (
                each_entry-Agrees count field.data_size p _
                  (λ q. pb_encoder-Agrees sub field q h))))
    where
      fixed :
          (width : ℕ)
          → ((bytes : List ℕ) × Emits
                (with_mem mem)
                (each_entry count field.data_size p (pb_encoder sub field))
                bytes
              × (length bytes ≡ width * count))
          → Agrees (with_mem mem) (
              size_and_data
                (each_entry count field.data_size p (pb_encoder sub field))
                (width * count % 2 ^ 64))
      fixed width (bytes, e, k) =
          sized-Agrees mem bytes _ (width * count % 2 ^ 64) (ap (λ n. n % 2 ^ 64) (sym k))
            (record { writes = e.writes; fits = e.fits })

  entry-Agrees :
      (func : Encoder S) (field : Field) (q : ℕ)
      → ((r : ℕ) → Agrees (with_mem mem) (func field r))
      → Agrees (with_mem mem) (
          on_stream (λ _. pb_encode_tag_for_field field)
          >> reading (λ m. func field (entry_address field q m)))
  entry-Agrees func field q h =
      then-Agrees (with_mem mem) (on_stream (λ _. pb_encode_tag_for_field field)) _
        (on_stream-Agrees mem (λ _. pb_encode_tag_for_field field)
          (pb_encode_tag_for_field-Agrees field))
        (reading-Agrees mem (λ m. func field (entry_address field q m)) (h _))

  pub encode_array-Agrees :
      (sub : ℕ → ℕ → M (Encoding S) (Unit {0})) (field : Field) (p count : ℕ)
      → ((a q : ℕ) → Agrees (with_mem mem) (sub a q))
      → Agrees (with_mem mem) (encode_array (pb_encoder sub) field p count)
  unfolding encode_array
  encode_array-Agrees sub field p count h =
      let choose = if-Agrees (with_mem {S = S} mem) in
      let func = λ (q : ℕ). pb_encoder-Agrees sub field q h in
      choose (count == 0) _ _ (inl ([], pure-Emits (with_mem mem))) (
        choose (not (atype field.type == Atype.pointer) && ltb field.array_size count) _ _
          (stop-Agrees _)
          (choose (leb (ltype field.type) Ltype.last_packable) _ _
            (then-Agrees (with_mem mem) (on_stream (λ _. pb_encode_tag 2 field.tag)) _
              (on_stream-Agrees mem (λ _. pb_encode_tag 2 field.tag)
                (pb_encode_tag-Agrees 2 field.tag))
              (with_size-Agrees sub field count p h))
            (each_entry-Agrees count field.data_size p _
              (λ q. entry-Agrees (pb_encoder sub) field q func))))
