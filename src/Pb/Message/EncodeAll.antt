-- ===== src/Pb/Message/EncodeAll.antt =====
-- The extensions of a message, and `pb_encode`, `pb_encode_delimited` and `pb_get_encoded_size` of
-- SOLTA/Pods/nanopb/pb_encode.c.
use solta.Base.{ℕ, zero, suc, ◌==◌, if◌then◌else◌}
use solta.Base.{Res, done, failed, fault, M, pure, crash, ◌>>◌}
use solta.Pb.Ostream.{sizing_stream}
use solta.Pb.Memory.{Memory, load}
use solta.Pb.Field.Ltype
use solta.Pb.Field.Atype
use solta.Pb.Field.{field_at, ltype, atype}
use solta.Pb.Field.Iter.{FieldIter, pos}
use solta.Pb.Message.Walk.{all_fields, extension_type, extension_dest, extension_next}
use solta.Pb.Message.Walk.{type_encode, type_arg}
use solta.Pb.Message.Encoding.{Encoding, Program, reading, pb_encode_submessage}
use solta.Pb.Message.Encode.{encode_field}

-- The result is `*size`.
abbrev pub size_outcome : {S : Type 0} → Memory → Res (Encoding S) (Unit {0}) → Res Memory ℕ
size_outcome mem (done a t) = done t.stream.bytes_written t.memory
size_outcome mem (failed t) = failed t.memory
size_outcome mem fault = fault

module _ {S : Type 0} (program : Program S) where
  -- The argument is the address of the extension.
  abbrev pub default_extension_at :
      (ℕ → ℕ → M (Encoding S) (Unit {0})) → ℕ → Memory → M (Encoding S) (Unit {0})
  default_extension_at sub p mem =
      let field = field_at (program.types (type_arg (extension_type p mem) mem)) 0 in
      if atype field.type == Atype.pointer
      then encode_field program sub field (extension_dest p)
      else encode_field program sub field (load 8 (extension_dest p) mem)

  unfoldable pub default_extension_encoder :
      (ℕ → ℕ → M (Encoding S) (Unit {0})) → ℕ → M (Encoding S) (Unit {0})
  default_extension_encoder sub p = reading (default_extension_at sub p)

  -- One extension, by the user's function or by the default one.
  abbrev pub encode_extension_at :
      (ℕ → ℕ → M (Encoding S) (Unit {0})) → ℕ → Memory → M (Encoding S) (Unit {0})
  encode_extension_at sub p mem =
      let encode = type_encode (extension_type p mem) mem in
      if encode == 0 then default_extension_encoder sub p else program.extension encode p

  -- The `while` loop over the list of extensions from `p` on.
  unfoldable pub each_extension :
      (ℕ → ℕ → M (Encoding S) (Unit {0})) → ℕ → ℕ → M (Encoding S) (Unit {0})
  each_extension sub zero p = if p == 0 then pure tt else crash
  each_extension sub (suc chain) p =
      let next = λ (mem : Memory). each_extension sub chain (extension_next p mem) in
      if p == 0 then pure tt else (reading (encode_extension_at sub p) >> reading next)

  unfoldable pub encode_extension_field :
      (ℕ → ℕ → M (Encoding S) (Unit {0})) → ℕ → M (Encoding S) (Unit {0})
  encode_extension_field sub p = reading λ mem. each_extension sub program.chain (load 8 p mem)

  abbrev pub encode_entry :
      (ℕ → ℕ → M (Encoding S) (Unit {0})) → FieldIter → M (Encoding S) (Unit {0})
  encode_entry sub iter =
      if ltype (pos iter).type == Ltype.extension
      then encode_extension_field sub iter.p_data
      else encode_field program sub (pos iter) iter.p_data

  -- The first number is how deep messages are nested, the second the address of the fields.
  unfoldable pub pb_encode : ℕ → ℕ → ℕ → M (Encoding S) (Unit {0})
  pb_encode zero a src = crash
  pb_encode (suc depth) a src = all_fields (program.types a) src (encode_entry (pb_encode depth))

  unfoldable pub pb_encode_delimited : ℕ → ℕ → ℕ → M (Encoding S) (Unit {0})
  pb_encode_delimited depth a src = pb_encode_submessage (pb_encode depth a src)

  unfoldable pub pb_get_encoded_size : ℕ → ℕ → ℕ → M Memory ℕ
  pb_get_encoded_size depth a src mem =
      size_outcome mem (pb_encode depth a src (record { stream = sizing_stream; memory = mem }))
