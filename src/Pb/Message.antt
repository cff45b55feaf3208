-- ===== src/Pb/Message.antt =====
-- Whole messages: the parts of SOLTA/Pods/nanopb/pb_encode.c and pb_decode.c that walk the fields of
-- a message type.
pub mod Walk
pub mod Default
pub mod Encoding
pub mod Encode
pub mod EncodeAll
pub mod Agree
pub mod Scalars
pub mod Submessage
pub mod Array
pub mod Size
pub mod Reset
pub mod Decoding
pub mod Decode
pub mod Keeps
pub mod Nested
pub mod ValueSafety
pub mod Sound
pub mod ResetEnds
pub mod FieldSafety
pub mod CallbackSafety
pub mod RuleSafety
pub mod EndCheck
pub mod LoopSafety
pub mod Safety
pub mod Confined
pub mod FieldBounds
pub mod Required
