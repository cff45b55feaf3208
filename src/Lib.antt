-- ===== src/Lib.antt =====
-- SOLTA, an iOS application that looks for cosmic rays in the frames of the camera. Its own code is
-- the Swift code of "SOLTA/trial 3"; its C code is nanopb (SOLTA/Pods/nanopb), the protocol-buffer
-- reader and writer behind the analytics of the application. This library is about both, nanopb in
-- the configuration of SOLTA/Pods/Target Support Files/nanopb/nanopb.xcconfig: PB_FIELD_32BIT and
-- PB_NO_PACKED_STRUCTS, with error messages and stream callbacks, without PB_ENABLE_MALLOC, on a
-- target with 64-bit size_t and pointers.
--
-- The application scans each frame for pixels above a threshold (DetectionVC.swift, and the older
-- DetectionHelper.swift, which differs in its step, its limit on the flux and its use of the main
-- queue). A frame with some bright pixels, but not too many, is an event: it is stored with its image
-- as a detection below the login of the user (FirebaseHelper.swift), and the history screen reads the
-- detections that have an address (HistoryVC.swift). A timer raises the threshold while events are
-- too frequent.
--
-- A message is read from a `pb_istream_t` and written to a `pb_ostream_t`, each of which is a
-- callback with a state and a count of bytes. Numbers are varints, zigzag varints and little-endian
-- words; a tag with a wire type stands before each field; strings and submessages are read through
-- a substream that shares the callback of its parent. The entries of a message type are an array
-- of `pb_field_t` that an iterator walks, with the address of the field in the struct.
--
-- Base: tests and machine words (Base/Tests), lists as arrays (Base/Lists), bit operations as
--   arithmetic (Base/Bits), and the state monad of functions that return a status (Base/Status).
--   `fault` is undefined behaviour or the end of the fuel of a loop; the safety theorems exclude it.
-- Pb/Errmsg: `PB_SET_ERROR` of pb.h.
-- Pb/Istream: `pb_istream_s`, buf_read, pb_read, pb_readbyte, pb_istream_from_buffer of pb_decode.c.
--   Pb/Istream/Safety has the notion of a safe stream, Pb/Istream/Values what is read from one, and
--   Pb/Istream/Buffer equations for arrays.
-- Pb/Ostream: `pb_ostream_s`, buf_write, pb_write, pb_ostream_from_buffer of pb_encode.c.
--   Pb/Ostream/Laws has equations for arrays, Pb/Ostream/Safety the limit of every stream.
-- Pb/Varint: pb_decode_varint32, pb_decode_varint, pb_skip_varint, pb_skip_string, pb_decode_tag,
--   pb_skip_field, read_raw_value. Pb/Varint/Safety, Bounds, Value and Raw prove what they do.
-- Pb/Substream: pb_make_string_substream and pb_close_string_substream.
-- Pb/Encode and Pb/Decode: the writers and readers of single numbers and strings; Pb/Encode/Varint,
--   Pb/Decode/RoundTrip and Pb/Decode/Fixed relate them, in the terms of Pb/Codec.
-- Pb/Field: `pb_field_s` and its type macros (Ltype, Htype, Atype); Pb/Field/Iter: the iterator of
--   pb_common.c, with Pb/Field/Iter/Place and Pb/Field/Iter/Find about it.
-- Pb/Memory: the bytes that structs lie in, by address, on a little-endian target; Pb/Decode/Scalar
--   and Pb/Encode/Scalar: the pb_dec_* and pb_enc_* functions of integer and fixed fields.
-- Pb/Decode/Bytes and Pb/Encode/Bytes: pb_dec_bytes, pb_dec_string, pb_dec_fixed_length_bytes and
--   the encoders that go with them.
-- Pb/Message: whole messages. Walk is the loop over the fields, with the structs of extensions;
--   Default, Encoding, Encode and EncodeAll are pb_encode.c from encode_array to pb_encode_submessage;
--   Reset, Decoding and Decode are pb_decode.c from decode_static_field to pb_decode_delimited. Agree,
--   Scalars, Submessage, Array and Size compare what the encoder counts with what it writes. Keeps,
--   Nested, ValueSafety, ResetEnds, FieldSafety, CallbackSafety, RuleSafety, EndCheck, LoopSafety and
--   Safety follow a decode from the single value to the message, for the message types of Sound;
--   Confined and FieldBounds follow what it writes; Required and Required/Words are about the check for
--   required fields.
-- Pb/Safety and Pb/RoundTrip: the results on streams, and Pb/ScalarTrip on fields.
-- Pb/Runs, Pb/FieldRuns, Pb/MessageRuns and Pb/DecodeRuns: runs at concrete inputs.
--
-- App/Float64: the operations on Double as an interface, with what IEEE 754 says of them (IsIeee) as
--   hypotheses, and App/Trap: code that may stop the program.
-- App/Detection/Detector: the variables of the two classes, getIntensityThreshold and the functions
--   that change it, updateThreshold, updateAcc and droppedFrame. App/Detection/Scan: the loops over the
--   pixels; Points, Grid, Gather and Brightest there are about them. App/Detection/Capture:
--   captureOutput and capturedOutput, with the closure for the main queue; Frame and Locks there follow
--   one frame. App/Detection/Events: the calls in any order; Sound has the invariant, Kept that every
--   call keeps it, Quiet and Settles are about the rising threshold, Images about the closures.
-- App/Login: getLoginFromEmail; App/Login/First is about it.
-- App/Firebase: Database is the interface to the database of Firebase, Detection the struct, Helper
--   the class FirebaseHelper with the closures that wait for the storage, History the observer of
--   HistoryVC, and Calls all of these in any order. Whole and Served are about what the database holds,
--   Rows and Shown about what is read from it, Address about the address of one detection.
-- App/Wired: the closures of the detector call the helper; Handed and EveryCall there follow the events
--   to the detections, through the calls of the detector and the answers of the SDKs.
-- App/DetectionRuns, App/FirebaseRuns and App/WiredRuns: runs at concrete inputs.
--
-- Bounds: size_t and addresses are numbers with `% 2 ^ 64` where the code may wrap. Fuel: a varint
-- loop has one round more than its width allows, `pb_skip_varint` one more than the bytes that are
-- left, `pb_field_iter_find` one more than there are entries; the theorems show that no run uses it
-- up. The loop over the tags and that over a packed array have one round more than the bytes of the
-- stream, since each round takes a byte. The messages of the program and the user's functions are
-- parameters (`Program`), with bounds on how deep messages are nested, on the length of a list of
-- extensions and on the calls of a callback for one string; a run past these faults. `IsProgram` says
-- how high they have to be for decoding; a run that has succeeded did not reach them. What the
-- safety theorems ask of the callbacks of a stream is `IsObedient`, after the rules of pb_decode.h,
-- and of those of a field `IsPrompt`; what the theorem on sizes asks is `IsSteady`.
--
-- In the Swift code an Int is a natural number: the program counts frames and addresses pixels, and is
-- not followed to 2 ^ 63. A CGFloat is a Double. A frame is handled as one step, although the timer
-- may change the threshold table on the main queue while a frame is scanned on the image queue. What
-- the SDKs give (the images made of frames, formatted dates, JPEG data, the email of the user, the
-- answers of the storage) are parameters and arguments. A text is a list of characters.
--
-- Not modelled: the code under PB_ENABLE_MALLOC, which the build leaves out; the views, the set-up of
-- the camera session and the sign-in screens, which are calls of UIKit, AVFoundation and Google
-- sign-in; the exceptions of the SDKs on paths that they refuse; and the third-party code in
-- SOLTA/Pods other than nanopb.
pub mod Base
pub mod Pb
pub mod App
