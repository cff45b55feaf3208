-- ===== src/Pb.antt =====
-- nanopb, the C code of the application: SOLTA/Pods/nanopb.
pub mod Errmsg
pub mod Istream
pub mod Varint
pub mod Ostream
pub mod Codec
pub mod Memory
pub mod Substream
pub mod Field
pub mod Encode
pub mod Decode
pub mod Safety
pub mod RoundTrip
mod Runs
mod FieldRuns
pub mod ScalarTrip
pub mod Message
mod MessageRuns
mod DecodeRuns
