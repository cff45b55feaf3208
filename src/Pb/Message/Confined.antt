-- ===== src/Pb/Message/Confined.antt =====
-- The decoders of values write inside their field only.
use solta.Base.{
  ℕ, zero, suc, ◌*◌, ◌%◌, ◌≤◌, ◌<◌, ◌^◌, ◌≡◌, refl, ◌∙◌, arith, ◌==◌, Bool, true, false, Bool-cases,
  inl, inr, if◌then◌else◌, length, List, [], ◌∷◌,
}
use solta.Base.{Res, done, failed, fault, M, and_then, ◌>>=◌}
use solta.Pb.Errmsg.{Errmsg}
use solta.Pb.Istream.{Istream, into, pb_read}
use solta.Pb.Istream.Safety.{IsSafe, AreBytes}
use solta.Pb.Istream.Values.{Holds, Gives-pb_read}
use solta.Pb.Memory.{Memory, set_byte, next_address, distance, store-outside}
use solta.Pb.Decode.Scalar.{Decoding, on_stream, with_memory, put}
use solta.Pb.Decode.Bytes.{store_bytes, clear, change, read_to}
use solta.Pb.Message.Keeps.{Left, Keeps}
use solta.Pb.Message.Decoding.{stop}

-- The bytes from `size` behind `dest` on are the same.
abbrev pub Same : ℕ → ℕ → Memory → Memory → Type 0
Same dest size mem mem' = (x : ℕ) → x < 2 ^ 64 → size ≤ distance dest x → mem' x ≡ mem x

set_byte-outside :
    (a b x : ℕ) (mem : Memory)
    → a < 2 ^ 64
    → x < 2 ^ 64
    → 1 ≤ distance a x
    → set_byte a b mem x ≡ mem x
set_byte-outside a b x mem h k far = elim (Bool-cases (x == a)) [
  | inl same ↦ absurd (ground arith)
  | inr other ↦ rw other refl
]

store_bytes-Same :
    (bytes : List ℕ) (a : ℕ) (mem : Memory)
    → a < 2 ^ 64
    → Same a (length bytes) mem (store_bytes bytes a mem)
unfolding store_bytes
store_bytes-Same [] a mem h x k far = refl
store_bytes-Same (b ∷ bytes) a mem h x k far =
    set_byte-outside a b x (store_bytes bytes (next_address a) mem) h k (omega arith)
    ∙ store_bytes-Same bytes (next_address a) mem (omega arith) x k (omega arith)

pub clear-Same : (n a : ℕ) (mem : Memory) → a < 2 ^ 64 → Same a n mem (clear n a mem)
unfolding clear
clear-Same zero a mem h x k far = refl
clear-Same (suc n) a mem h x k far =
    set_byte-outside a 0 x (clear n (next_address a) mem) h k (omega arith)
    ∙ clear-Same n (next_address a) mem (omega arith) x k (omega arith)

module _ {S : Type 0} where
  -- The run leaves the bytes outside the field alone.
  abbrev pub Kept : {A : Type 0} → ℕ → ℕ → Memory → Res (Decoding S) A → Type 0
  Kept dest size mem (done a t) = Same dest size mem t.memory
  Kept dest size mem (failed t) = Same dest size mem t.memory
  Kept dest size mem fault = Unit

  abbrev pub Confined : {A : Type 0} → ℕ → ℕ → M (Decoding S) A → Type 0
  Confined dest size m =
      (slack : ℕ) (s : Decoding S) → IsSafe slack s.stream → Kept dest size s.memory (m s)

  pub Confined-on_stream :
      {A : Type 0} (dest size : ℕ) (m : M (Istream S) A) → Confined dest size (on_stream m)
  Confined-on_stream {A} dest size m slack s safe = lift (m s.stream)
    where
      lift : (r : Res (Istream S) A) → Kept dest size s.memory (with_memory s.memory r)
      lift (done a t) = λ x h far. refl
      lift (failed t) = λ x h far. refl
      lift fault = tt

  pub Confined-stop : (dest size : ℕ) (e : Errmsg) → Confined dest size (stop e)
  Confined-stop dest size e slack s safe x h far = refl

  pub Confined-change :
      (dest size : ℕ) (f : Memory → Memory)
      → ((mem : Memory) → Same dest size mem (f mem))
      → Confined dest size (change f)
  Confined-change dest size f h slack s safe = h s.memory

  pub Confined-put :
      (dest size n value : ℕ) → dest < 2 ^ 64 → n ≤ size → Confined dest size (put n dest value)
  Confined-put dest size n value u le slack s safe x h far =
      store-outside n dest (value % 2 ^ (8 * n)) x s.memory u h (omega arith)

  Same-trans :
      (dest size : ℕ) (mem mem' : Memory) (r : Res (Decoding S) (Unit {0}))
      → Same dest size mem mem'
      → Kept dest size mem' r
      → Kept dest size mem r
  Same-trans dest size mem mem' (done a t) h k = λ x u far. k x u far ∙ h x u far
  Same-trans dest size mem mem' (failed t) h k = λ x u far. k x u far ∙ h x u far
  Same-trans dest size mem mem' fault h k = tt

  pub Confined-bind :
      {A : Type 0} (dest size n : ℕ) (m : M (Decoding S) A) (f : A → M (Decoding S) (Unit {0}))
      → Keeps n m
      → Confined dest size m
      → ((a : A) → Confined dest size (f a))
      → Confined dest size (m >>= f)
  Confined-bind {A} dest size n m f keeps here later slack s safe =
      go (m s) (keeps slack s safe) (here slack s safe)
    where
      go :
          (r : Res (Decoding S) A)
          → Left slack n s.stream.bytes_left r
          → Kept dest size s.memory r
          → Kept dest size s.memory (and_then r f)
      go (done a t) h k = Same-trans dest size s.memory t.memory (f a t) k (later a slack t h.0)
      go (failed t) h k = k
      go fault h k = tt

  pub Confined-test :
      (dest size : ℕ) (b : Bool) (m l : M (Decoding S) (Unit {0}))
      → (b ≡ true → Confined dest size m)
      → (b ≡ false → Confined dest size l)
      → Confined dest size (if b then m else l)
  Confined-test dest size true m l h k = h refl
  Confined-test dest size false m l h k = k refl

  -- As many bytes are stored as were asked for.
  pub Confined-read_to :
      (dest size place count : ℕ)
      → place < 2 ^ 64
      → ((x : ℕ) → x < 2 ^ 64 → size ≤ distance dest x → count ≤ distance place x)
      → Confined dest size (read_to place count)
  Confined-read_to dest size place count u inside slack s safe =
      go (pb_read into count s.stream) (Gives-pb_read count slack s.stream safe)
    where
      go :
          (r : Res (Istream S) (List ℕ))
          → Holds (λ bytes. (length bytes ≡ count) × AreBytes bytes) r
          → Kept dest size s.memory
              (and_then (with_memory s.memory r) (λ bytes. change (store_bytes bytes place)))
      go (done bytes t) h = λ x k far.
          let enough = inside x k far in
          store_bytes-Same bytes place s.memory u x k (omega (arith, h.0, enough))
      go (failed t) h = λ x k far. refl
      go fault h = tt
