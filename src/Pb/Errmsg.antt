-- ===== src/Pb/Errmsg.antt =====
-- The texts that `PB_RETURN_ERROR` stores (SOLTA/Pods/nanopb/pb.h), one constructor for each text
-- of pb_decode.c and pb_encode.c.
use solta.Base.{Option, none, some}

pub data Errmsg : Type 0 where
  end_of_stream io_error varint_overflow invalid_wire_type parent_stream_too_short : Errmsg
  array_overflow invalid_field_type no_malloc_support callback_failed : Errmsg
  missing_required_field invalid_data_size integer_too_large bytes_overflow : Errmsg
  size_too_large string_overflow invalid_field_descriptor incorrect_fixed_length : Errmsg
  stream_full array_max_size_exceeded callback_error submsg_size_changed bytes_size_exceeded :
      Errmsg

-- `PB_SET_ERROR`: the first message stays.
abbrev pub keep_first : Option Errmsg → Errmsg → Option Errmsg
keep_first none e = some e
keep_first (some d) e = some d
