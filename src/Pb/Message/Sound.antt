-- ===== src/Pb/Message/Sound.antt =====
-- What generated code keeps to: message types whose descriptors the decoder can work with.
use solta.Base.{ℕ, ◌≤◌, ◌<◌, ◌≡◌, ◌≢◌, ◌⊎◌, List, ◌∷◌, length}
use solta.Pb.Field.Ltype
use solta.Pb.Field.Atype
use solta.Pb.Field.{Field, Ptr, null, message, initial, ltype, atype, field_at}
use solta.Pb.Field.Iter.Place.{IsTagged, count_required}
use solta.Pb.Message.Walk.{Types}

-- A default value is as long as the field, and there may be none.
abbrev pub HasDefault : Ptr → ℕ → Type 0
HasDefault null size = Unit
HasDefault (initial bytes) size = size ≤ length bytes
HasDefault (message a) size = ⊥

-- The field of a number, a text or bytes.
abbrev pub IsValue : Field → Type 0
IsValue field =
    ((ltype field.type < Ltype.submessage) ⊎ (ltype field.type ≡ Ltype.fixed_length_bytes))
    × HasDefault field.ptr field.data_size

-- The field of a message with a rank below `r`. No message is inside itself, so that messages can be
-- ranked.
pub record IsPart (rank : ℕ → ℕ) (r : ℕ) (field : Field) : Type 0 where
  pub inner : ℕ
  pub is_submessage : ltype field.type ≡ Ltype.submessage
  pub points : field.ptr ≡ message inner
  pub below : rank inner < r

-- The entry is no placeholder for extensions, and if it is a static field, a value or a message.
abbrev pub IsSound : (ℕ → ℕ) → ℕ → Field → Type 0
IsSound rank r field =
    (ltype field.type ≢ Ltype.extension)
    × (atype field.type ≡ Atype.static → IsValue field ⊎ IsPart rank r field)

-- A message type with a field at least, with sound entries that have tags, and with fewer than 64
-- required fields, but not 32.
pub record IsMessage (rank : ℕ → ℕ) (types : Types) (a : ℕ) : Type 0 where
  pub first : Field
  pub others : List Field
  pub fields : types a ≡ first ∷ others
  pub tags : IsTagged (first ∷ others)
  pub entries : (i : ℕ) → i ≤ length others → IsSound rank (rank a) (field_at (first ∷ others) i)
  pub few_required : count_required (first ∷ others) (length (first ∷ others)) < 64
  pub not_a_word : count_required (first ∷ others) (length (first ∷ others)) ≢ 32
