-- ===== src/Pb/Istream/Safety.antt =====
-- No decoder reads outside the array behind a stream, and none makes `bytes_left` grow. A decoder
-- is `Safe` if it keeps these two facts; the lemmas here are for the reading functions and for the
-- ways to compose them.
use solta.Base.{ℕ, zero, suc, ◌+◌, ◌-◌, ◌≤◌, ◌<◌, ◌^◌, ◌≡◌, arith, ltb, leb, ◌==◌}
use solta.Base.{if◌then◌else◌, Bool-cases, length, length-drop, All, All-drop}
use solta.Base.{Bool, true, false, List, inl, inr}
use solta.Base.{Res, done, failed, fault, M, pure, and_then, ◌>>=◌, Leaves}
use solta.Pb.Errmsg.{Errmsg, io_error, end_of_stream}
use solta.Pb.Istream.{Istream, Source, buf_read, user, UserRead, Dest, null, into}
use solta.Pb.Istream.{return_error, or_error, call, count_read}
use solta.Pb.Istream.{read_checked, skip_chunks, skip, pb_read, pb_readbyte, first_byte}

-- The rules of pb_decode.h for user callbacks leave `bytes_left` to `pb_read`: a call that succeeds leaves `bytes_left` alone, and
-- one that fails (at the end of a file, say) may lower it.
abbrev pub IsObedient : {S : Type 0} → (S → ℕ → ℕ → UserRead S) → Type 0
IsObedient {S} f =
    (state : S) (left count : ℕ)
    → ((f state left count).ok ≡ true → (f state left count).bytes_left ≡ left)
      × ((f state left count).bytes_left ≤ left)

-- The entries of a pb_byte_t array.
abbrev pub AreBytes : List ℕ → Type 0
AreBytes = All (λ b. b < 256)

-- `slack` bytes of the array at least lie behind those that `bytes_left` counts.
abbrev pub Covers : {S : Type 0} → ℕ → Source S → ℕ → Type 0
Covers slack (buf_read bytes) left = (left + slack ≤ length bytes) × AreBytes bytes
Covers slack (user f state) left = IsObedient f

pub record IsSafe {S : Type 0} (slack : ℕ) (s : Istream S) : Type 0 where
  pub covers : Covers slack s.source s.bytes_left
  pub small : s.bytes_left < 2 ^ 64

module _ {S : Type 0} where
  abbrev pub After : ℕ → ℕ → ℕ → Istream S → Type 0
  After slack n left t = IsSafe slack t × (t.bytes_left + n ≤ left)

  -- On a safe stream `m` does not fault and leaves a safe stream, with at least `n` bytes fewer if
  -- it succeeds.
  abbrev pub Takes : {A : Type 0} → ℕ → M (Istream S) A → Type 0
  Takes n m =
      (slack : ℕ) (s : Istream S)
      → IsSafe slack s
      → Leaves (After slack n s.bytes_left) (After slack 0 s.bytes_left) (m s)

  pub Takes-pure : (A : Type 0) (a : A) → Takes {A = A} 0 (pure a)
  Takes-pure A a slack s h = (h, omega arith)

  pub Takes-return_error : (A : Type 0) (n : ℕ) (e : Errmsg) → Takes {A = A} n (return_error e)
  Takes-return_error A n e slack s h = (record { covers = h.covers; small = h.small }, omega arith)

  Leaves-le :
      {A : Type 0} (slack k n left more : ℕ) (r : Res (Istream S) A)
      → left + n ≤ more
      → Leaves (After slack k left) (After slack 0 left) r
      → Leaves (After slack (n + k) more) (After slack 0 more) r
  Leaves-le slack k n left more (done a t) le h = (h.0, omega arith)
  Leaves-le slack k n left more (failed t) le h = (h.0, omega arith)
  Leaves-le slack k n left more fault le h = h

  -- What follows a call may rely on what the call has taken.
  pub and_then-Leaves :
      {A B : Type 0} (slack n k left : ℕ) (r : Res (Istream S) A) (f : A → M (Istream S) B)
      → Leaves (After slack n left) (After slack 0 left) r
      → ((a : A) (t : Istream S)
          → IsSafe slack t
          → t.bytes_left + n ≤ left
          → Leaves (After slack k t.bytes_left) (After slack 0 t.bytes_left) (f a t))
      → Leaves (After slack (n + k) left) (After slack 0 left) (and_then r f)
  and_then-Leaves slack n k left (done a t) f h later =
      Leaves-le slack k n t.bytes_left left (f a t) h.1 (later a t h.0 h.1)
  and_then-Leaves slack n k left (failed t) f h later = h
  and_then-Leaves slack n k left fault f h later = h

  pub Takes-bind :
      {A B : Type 0} (n k : ℕ) (m : M (Istream S) A) (f : A → M (Istream S) B)
      → Takes n m
      → ((a : A) → Takes k (f a))
      → Takes (n + k) (m >>= f)
  Takes-bind n k m f hm hf slack s h =
      and_then-Leaves slack n k s.bytes_left (m s) f (hm slack s h)
        (λ a t safe _. hf a slack t safe)

  Leaves-fewer :
      {A : Type 0} (slack n k left : ℕ) (r : Res (Istream S) A)
      → k ≤ n
      → Leaves (After slack n left) (After slack 0 left) r
      → Leaves (After slack k left) (After slack 0 left) r
  Leaves-fewer slack n k left (done a t) le (safe, h) = (safe, omega arith)
  Leaves-fewer slack n k left (failed t) le h = h
  Leaves-fewer slack n k left fault le h = h

  pub Takes-fewer : {A : Type 0} (n k : ℕ) (m : M (Istream S) A) → k ≤ n → Takes n m → Takes k m
  Takes-fewer n k m le h slack s safe =
      Leaves-fewer slack n k s.bytes_left (m s) le (h slack s safe)

  -- A sequence of two calls, where it does not matter how much each takes.
  pub Safe-bind :
      {A B : Type 0} (m : M (Istream S) A) (f : A → M (Istream S) B)
      → Takes 0 m
      → ((a : A) → Takes 0 (f a))
      → Takes 0 (m >>= f)
  Safe-bind m f = Takes-bind 0 0 m f

  pub Takes-if :
      {A : Type 0} (n : ℕ) (b : Bool) (m l : M (Istream S) A)
      → Takes n m
      → Takes n l
      → Takes n (if b then m else l)
  Takes-if n true m l hm hl = hm
  Takes-if n false m l hm hl = hl

  -- One call of the callback, for a count that `bytes_left` allows, and its bookkeeping.
  transfer-Leaves :
      {A : Type 0} (src : Source S) (count slack : ℕ) (g : List ℕ → A) (s : Istream S)
      → Covers slack src s.bytes_left
      → s.bytes_left < 2 ^ 64
      → count ≤ s.bytes_left
      → Leaves
          (After slack count s.bytes_left)
          (After slack 0 s.bytes_left)
          ((or_error io_error (call src count) >>= λ bs. count_read count (g bs)) s)
  transfer-Leaves (buf_read bytes) count slack g s c u le =
      elim (Bool-cases (leb count (length bytes))) [
        | inl enough ↦ rw enough (
          record {
            covers = (
              omega (arith, c.0, length-drop count bytes),
              All-drop (λ b. b < 256) count bytes c.1,
            );
            small = omega arith;
          },
          omega arith,
        )
        | inr short ↦ absurd (ground (arith, c.0))
      ]
  transfer-Leaves (user f state) count slack g s c u le =
      let (kept, lowered) = c state s.bytes_left count in
      elim (Bool-cases (f state s.bytes_left count).ok) [
        | inl fine ↦
            rw fine
              (record { covers = c; small = omega (arith, lowered) }, omega (arith, kept fine))
        | inr bad ↦
            rw bad (record { covers = c; small = omega (arith, lowered) }, omega (arith, lowered))
      ]

  pub Takes-read_checked : (count : ℕ) → Takes count (read_checked count)
  unfolding read_checked
  Takes-read_checked count slack s h = elim (Bool-cases (ltb s.bytes_left count)) [
    | inl short ↦ rw short (Takes-return_error (List ℕ) count end_of_stream slack s h)
    | inr enough ↦
        rw enough
          (transfer-Leaves s.source count slack (λ bs. bs) s h.covers h.small (ground arith))
  ]

  pub Takes-pb_readbyte : Takes 1 pb_readbyte
  unfolding pb_readbyte
  Takes-pb_readbyte slack s h = elim (Bool-cases (s.bytes_left == 0)) [
    | inl short ↦ rw short (Takes-return_error ℕ 1 end_of_stream slack s h)
    | inr enough ↦
        rw enough (transfer-Leaves s.source 1 slack first_byte s h.covers h.small (ground arith))
  ]

  Takes-skip_chunks : (fuel count : ℕ) → Takes count (skip_chunks fuel count)
  unfolding skip_chunks
  Takes-skip_chunks zero count slack s h = Takes-read_checked count slack s h
  Takes-skip_chunks (suc fuel) count slack s h = elim (Bool-cases (ltb 16 count)) [
    | inl more ↦ rw more (
        Takes-fewer (16 + (count - 16)) count _ (omega arith)
          (Takes-bind 16 (count - 16) (read_checked 16) _ (Takes-read_checked 16)
            (λ _. Takes-skip_chunks fuel (count - 16)))
          slack s h)
    | inr last ↦ rw last (Takes-read_checked count slack s h)
  ]

  Takes-skip : (src : Source S) (count : ℕ) → Takes count (skip src count)
  Takes-skip (buf_read bytes) count = Takes-read_checked count
  Takes-skip (user f state) count = Takes-skip_chunks count count

  -- On a safe stream, `pb_read` of `count` bytes into an array or past them does not read outside
  -- the stream's array; when it succeeds, `bytes_left` has fallen by `count` or more, and when it
  -- fails, `bytes_left` has not grown; the stream stays safe.
  pub Takes-pb_read : (buf : Dest) (count : ℕ) → Takes count (pb_read buf count)
  unfolding pb_read
  Takes-pb_read null count slack s h = Takes-skip s.source count slack s h
  Takes-pb_read into count slack s h = Takes-read_checked count slack s h

  -- `m` is safe on every safe stream with fewer than `fuel` bytes.
  abbrev pub TakesBelow : {A : Type 0} → ℕ → ℕ → M (Istream S) A → Type 0
  TakesBelow fuel n m =
      (slack : ℕ) (s : Istream S)
      → IsSafe slack s
      → s.bytes_left < fuel
      → Leaves (After slack n s.bytes_left) (After slack 0 s.bytes_left) (m s)

  pub TakesBelow-fewer :
      {A : Type 0} (fuel n k : ℕ) (m : M (Istream S) A)
      → k ≤ n
      → TakesBelow fuel n m
      → TakesBelow fuel k m
  TakesBelow-fewer fuel n k m le h slack s safe less =
      Leaves-fewer slack n k s.bytes_left (m s) le (h slack s safe less)

  -- A round that takes a byte leaves less work to the rounds that follow it.
  pub TakesBelow-bind :
      {A B : Type 0} (fuel : ℕ) (m : M (Istream S) A) (f : A → M (Istream S) B)
      → Takes 1 m
      → ((a : A) → TakesBelow fuel 0 (f a))
      → TakesBelow (suc fuel) 1 (m >>= f)
  TakesBelow-bind fuel m f hm hf slack s h less =
      and_then-Leaves slack 1 0 s.bytes_left (m s) f (hm slack s h)
        (λ a t safe le. hf a slack t safe (omega arith))

  pub TakesBelow-if :
      {A : Type 0} (fuel n : ℕ) (b : Bool) (m l : M (Istream S) A)
      → TakesBelow fuel n m
      → TakesBelow fuel n l
      → TakesBelow fuel n (if b then m else l)
  TakesBelow-if fuel n true m l hm hl = hm
  TakesBelow-if fuel n false m l hm hl = hl
