-- ===== src/Pb/Message/Keeps.antt =====
-- A decoder on a stream and a memory is safe if it keeps the stream safe; the lemmas here are for
-- the ways to compose such decoders.
use solta.Base.{ℕ, ◌+◌, ◌≤◌, ◌≡◌, refl, arith, if◌then◌else◌}
use solta.Base.{Bool, true, false}
use solta.Base.{Res, done, failed, fault, M, pure, and_then, ◌>>=◌, Leaves}
use solta.Pb.Errmsg.{Errmsg}
use solta.Pb.Memory.{Memory}
use solta.Pb.Istream.{Istream, return_error}
use solta.Pb.Istream.Safety.{IsSafe, After, Takes, Takes-return_error}
use solta.Pb.Decode.Scalar.{Decoding, on_stream, put, with_memory}
use solta.Pb.Decode.Bytes.{change}
use solta.Pb.Message.Decoding.{on_memory, with_stream, stop}

module _ {S : Type 0} where
  abbrev pub AfterIn : ℕ → ℕ → ℕ → Decoding S → Type 0
  AfterIn slack n left t = After slack n left t.stream

  -- A result with `n` bytes fewer at least if it is a success, and none more if it is a failure.
  abbrev pub Left : {A : Type 0} → ℕ → ℕ → ℕ → Res (Decoding S) A → Type 0
  Left slack n left r = Leaves (AfterIn slack n left) (AfterIn slack 0 left) r

  -- On a safe stream `m` does not fault and leaves a safe stream.
  abbrev pub Keeps : {A : Type 0} → ℕ → M (Decoding S) A → Type 0
  Keeps n m =
      (slack : ℕ) (s : Decoding S) → IsSafe slack s.stream → Left slack n s.stream.bytes_left (m s)

  pub Keeps-pure : (A : Type 0) (a : A) → Keeps {A = A} 0 (pure a)
  Keeps-pure A a slack s h = (h, omega arith)

  pub Keeps-on_stream :
      {A : Type 0} (n : ℕ) (m : M (Istream S) A) → Takes n m → Keeps n (on_stream m)
  Keeps-on_stream {A} n m h slack s safe = lift (m s.stream) (h slack s.stream safe)
    where
      lift :
          (r : Res (Istream S) A)
          → Leaves (After slack n s.stream.bytes_left) (After slack 0 s.stream.bytes_left) r
          → Left slack n s.stream.bytes_left (with_memory s.memory r)
      lift (done a t) h = h
      lift (failed t) h = h
      lift fault h = h

  pub Keeps-stop : (n : ℕ) (e : Errmsg) → Keeps n (stop e)
  Keeps-stop n e =
      Keeps-on_stream {A = Unit {0}} n (return_error e) (Takes-return_error (Unit {0}) n e)

  pub Keeps-change : (f : Memory → Memory) → Keeps 0 (change f)
  Keeps-change f slack s safe = (safe, omega arith)

  pub Keeps-put : (size dest value : ℕ) → Keeps 0 (put size dest value)
  Keeps-put size dest value slack s safe = (safe, omega arith)

  pub Keeps-on_memory :
      (m : M Memory (Unit {0}))
      → ((mem : Memory) → Leaves (λ _. Unit {0}) (λ _. Unit {0}) (m mem))
      → Keeps 0 (on_memory m)
  Keeps-on_memory m h slack s safe = lift (m s.memory) (h s.memory)
    where
      lift :
          (r : Res Memory (Unit {0}))
          → Leaves (λ _. Unit {0}) (λ _. Unit {0}) r
          → Left slack 0 s.stream.bytes_left (with_stream s.stream r)
      lift (done a mem) h = (safe, omega arith)
      lift (failed mem) h = (safe, omega arith)
      lift fault h = h

  pub Left-le :
      {A : Type 0} (slack k n left more : ℕ) (r : Res (Decoding S) A)
      → left + n ≤ more
      → Left slack k left r
      → Left slack (n + k) more r
  Left-le slack k n left more (done a t) le h = (h.0, omega (arith, h.1))
  Left-le slack k n left more (failed t) le h = (h.0, omega (arith, h.1))
  Left-le slack k n left more fault le h = h

  pub Left-fewer :
      {A : Type 0} (slack n k left : ℕ) (r : Res (Decoding S) A)
      → k ≤ n
      → Left slack n left r
      → Left slack k left r
  Left-fewer slack n k left (done a t) le h = (h.0, omega (arith, h.1))
  Left-fewer slack n k left (failed t) le h = h
  Left-fewer slack n k left fault le h = h

  pub and_then-Left :
      {A B : Type 0} (slack n k left : ℕ) (r : Res (Decoding S) A) (f : A → M (Decoding S) B)
      → Left slack n left r
      → ((a : A) (t : Decoding S)
          → IsSafe slack t.stream
          → t.stream.bytes_left + n ≤ left
          → Left slack k t.stream.bytes_left (f a t))
      → Left slack (n + k) left (and_then r f)
  and_then-Left slack n k left (done a t) f h later =
      Left-le slack k n t.stream.bytes_left left (f a t) h.1 (later a t h.0 h.1)
  and_then-Left slack n k left (failed t) f h later = h
  and_then-Left slack n k left fault f h later = h

  pub Keeps-bind :
      {A B : Type 0} (n k : ℕ) (m : M (Decoding S) A) (f : A → M (Decoding S) B)
      → Keeps n m
      → ((a : A) → Keeps k (f a))
      → Keeps (n + k) (m >>= f)
  Keeps-bind n k m f hm hf slack s safe =
      and_then-Left slack n k s.stream.bytes_left (m s) f (hm slack s safe)
        (λ a t safe_t _. hf a slack t safe_t)

  pub Keeps-fewer : {A : Type 0} (n k : ℕ) (m : M (Decoding S) A) → k ≤ n → Keeps n m → Keeps k m
  Keeps-fewer n k m le h slack s safe =
      Left-fewer slack n k s.stream.bytes_left (m s) le (h slack s safe)

  pub Keeps-if :
      {A : Type 0} (n : ℕ) (b : Bool) (m l : M (Decoding S) A)
      → Keeps n m
      → Keeps n l
      → Keeps n (if b then m else l)
  Keeps-if n true m l hm hl = hm
  Keeps-if n false m l hm hl = hl

  -- The same, where a branch may rely on the test.
  pub Keeps-test :
      {A : Type 0} (n : ℕ) (b : Bool) (m l : M (Decoding S) A)
      → (b ≡ true → Keeps n m)
      → (b ≡ false → Keeps n l)
      → Keeps n (if b then m else l)
  Keeps-test n true m l hm hl = hm refl
  Keeps-test n false m l hm hl = hl refl
