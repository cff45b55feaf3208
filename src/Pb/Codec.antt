-- ===== src/Pb/Codec.antt =====
-- What it means that an encoder writes given bytes and that a decoder reads them, on streams over
-- arrays, and how this passes through sequences of calls.
use solta.Base.{ℕ, ◌+◌, ◌-◌, ◌≤◌, ◌<◌, ◌^◌, ◌≡◌, ap, ◌∙◌, arith}
use solta.Base.{length, length-append, append_assoc, List, ◌++◌, Option}
use solta.Base.{M, done, pure, and_then, ◌>>=◌, ◌>>◌}
use solta.Pb.Errmsg.{Errmsg}
use solta.Pb.Istream.{Istream, Dest, pb_read}
use solta.Pb.Istream.Buffer.{at, read-at}
use solta.Pb.Ostream.{Ostream, pb_write}
use solta.Pb.Ostream.Laws.{filling, write-filling}

-- `write` appends `bytes` to every stream into an array that has room for them.
abbrev pub Writes : ((S : Type 0) → M (Ostream S) (Unit {0})) → List ℕ → Type 1
Writes write bytes =
    (S : Type 0) (stored : List ℕ) (room limit written : ℕ) (e : Option Errmsg)
    → length bytes ≤ room
    → written + length bytes ≤ limit
    → limit < 2 ^ 64
    → write S (filling stored room limit written e)
      ≡ done tt (filling (stored ++ bytes) (room - length bytes) limit (written + length bytes) e)

-- `read` takes `bytes` off the front of every stream over an array, and gives `v`.
abbrev pub Reads : {A : Type 0} → ((S : Type 0) → M (Istream S) A) → List ℕ → A → Type 1
Reads read bytes v =
    (S : Type 0) (rest : List ℕ) (left : ℕ) (e : Option Errmsg)
    → length bytes + left < 2 ^ 64
    → read S (at (bytes ++ rest) (left + length bytes) e) ≡ done v (at rest left e)

pub pb_write-Writes : (bytes : List ℕ) → Writes (λ S. pb_write {S = S} bytes (length bytes)) bytes
pb_write-Writes bytes S stored room limit written e h k l =
    write-filling bytes stored room limit written e h k l

pub pb_read-Reads :
    (buf : Dest) (bytes : List ℕ) → Reads (λ S. pb_read {S = S} buf (length bytes)) bytes bytes
pb_read-Reads buf bytes S rest left e few =
    ap (λ n. pb_read buf (length bytes) (at (bytes ++ rest) n e)) (omega arith)
    ∙ read-at buf bytes rest left e few

pub Writes-then :
    (w w' : (S : Type 0) → M (Ostream S) (Unit {0})) (b b' : List ℕ)
    → Writes w b
    → Writes w' b'
    → Writes (λ S. w S >> w' S) (b ++ b')
Writes-then w w' b b' h h' S stored room limit written e fits under u =
    ap (λ r. and_then r (λ _. w' S))
      (h S stored room limit written e (omega (arith, length-append b b'))
        (omega (arith, length-append b b')) u)
    ∙ h' S (stored ++ b) (room - length b) limit (written + length b) e
        (omega (arith, length-append b b')) (omega (arith, length-append b b')) u
    ∙ λ i. done tt (filling (append_assoc stored b b' i) (room_left i) limit (count i) e)
  where
    room_left : room - length b - length b' ≡ room - length (b ++ b')
    room_left = omega (arith, length-append b b')

    count : written + length b + length b' ≡ written + length (b ++ b')
    count = omega (arith, length-append b b')

pub Reads-bind :
    {A B : Type 0} (m : (S : Type 0) → M (Istream S) A) (f : (S : Type 0) → A → M (Istream S) B)
    (b b' : List ℕ) (v : A) (v' : B)
    → Reads m b v
    → Reads (λ S. f S v) b' v'
    → Reads (λ S. m S >>= f S) (b ++ b') v'
Reads-bind m f b b' v v' h h' S rest left e few =
    (λ i. (m S >>= f S) (at (append_assoc b b' rest i) (total i) e))
    ∙ ap (λ r. and_then r (f S))
        (h S (b' ++ rest) (left + length b') e (omega (arith, length-append b b')))
    ∙ h' S rest left e (omega (arith, length-append b b'))
  where
    total : left + length (b ++ b') ≡ left + length b' + length b
    total = omega (arith, length-append b b')

-- A last step that reads nothing.
pub Reads-map :
    {A B : Type 0} (m : (S : Type 0) → M (Istream S) A) (g : A → B) (b : List ℕ) (v : A)
    → Reads m b v
    → Reads (λ S. m S >>= λ a. pure (g a)) b (g v)
Reads-map m g b v h S rest left e few = ap (λ r. and_then r (λ a. pure (g a))) (h S rest left e few)
