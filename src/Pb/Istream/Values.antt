-- ===== src/Pb/Istream/Values.antt =====
-- What the reading functions give from a safe stream: bytes, and as many as were asked for.
use solta.Base.{ℕ, zero, suc, ◌<◌, ◌≡◌, refl, arith, ltb, leb, ◌==◌}
use solta.Base.{if◌then◌else◌, Bool-cases, length, length-take, take, All-take}
use solta.Base.{Bool, true, false, List, [], ◌∷◌, inl, inr}
use solta.Base.{Res, done, failed, fault, M, and_then, ◌>>=◌, Leaves}
use solta.Pb.Errmsg.{io_error}
use solta.Pb.Istream.{Istream, Source, buf_read, user, into}
use solta.Pb.Istream.{
  or_error, call, count_read, stored, read_checked, pb_read, pb_readbyte, first_byte,
}
use solta.Pb.Istream.Safety.{IsSafe, After, Takes, Covers, AreBytes}

-- A result that satisfies `P`, if there is one.
abbrev pub Holds : {T A : Type 0} → (A → Type 0) → Res T A → Type 0
Holds P (done a t) = P a
Holds P (failed t) = Unit
Holds P fault = Unit

pub stored-AreBytes : (n : ℕ) (f : ℕ → ℕ) → (length (stored n f) ≡ n) × AreBytes (stored n f)
stored-AreBytes zero f = (refl, tt)
stored-AreBytes (suc n) f =
    let (k, h) = stored-AreBytes n (λ i. f (suc i)) in (omega (arith, k), (omega arith, h))

pub first_byte_lt : (bytes : List ℕ) → AreBytes bytes → first_byte bytes < 256
first_byte_lt [] h = omega arith
first_byte_lt (b ∷ bytes) h = h.0

module _ {S : Type 0} where
  -- On a safe stream, what `m` gives satisfies `P`.
  abbrev pub Gives : {A : Type 0} → (A → Type 0) → M (Istream S) A → Type 0
  Gives P m = (slack : ℕ) (s : Istream S) → IsSafe slack s → Holds P (m s)

  pub Gives-if :
      {A : Type 0} (P : A → Type 0) (b : Bool) (m l : M (Istream S) A)
      → Gives P m
      → Gives P l
      → Gives P (if b then m else l)
  Gives-if P true m l h k = h
  Gives-if P false m l h k = k

  pub Gives-bind :
      {A B : Type 0} (n : ℕ) (P : A → Type 0) (Q : B → Type 0) (m : M (Istream S) A)
      (f : A → M (Istream S) B)
      → Takes n m
      → Gives P m
      → ((a : A) → P a → Gives Q (f a))
      → Gives Q (m >>= f)
  Gives-bind {A} {B} n P Q m f takes gives later slack s safe =
      go (m s) (takes slack s safe) (gives slack s safe)
    where
      go :
          (r : Res (Istream S) A)
          → Leaves (After slack n s.bytes_left) (After slack 0 s.bytes_left) r
          → Holds P r
          → Holds Q (and_then r f)
      go (done a t) safe_t p = later a p slack t safe_t.0
      go (failed t) h p = tt
      go fault h p = tt

  -- A prefix of the stream's array, or what a user's callback stored.
  transfer-Holds :
      {A : Type 0} (P : A → Type 0) (src : Source S) (count slack : ℕ) (g : List ℕ → A)
      (s : Istream S)
      → Covers slack src s.bytes_left
      → ((bytes : List ℕ) → length bytes ≡ count → AreBytes bytes → P (g bytes))
      → Holds P ((or_error io_error (call src count) >>= λ bs. count_read count (g bs)) s)
  transfer-Holds P (buf_read bytes) count slack g s c h =
      elim (Bool-cases (leb count (length bytes))) [
        | inl enough ↦ rw enough (
            h (take count bytes) (length-take count bytes (ground arith))
              (All-take (λ b. b < 256) count bytes c.1))
        | inr short ↦ rw short tt
      ]
  transfer-Holds P (user f state) count slack g s c h =
      elim (Bool-cases (f state s.bytes_left count).ok) [
        | inl fine ↦
            let (k, b) = stored-AreBytes count (f state s.bytes_left count).bytes in
            rw fine (h (stored count (f state s.bytes_left count).bytes) k b)
        | inr bad ↦ rw bad tt
      ]

  pub Gives-pb_read :
      (count : ℕ) → Gives (λ bytes. (length bytes ≡ count) × AreBytes bytes) (pb_read into count)
  unfolding pb_read read_checked
  Gives-pb_read count slack s safe = elim (Bool-cases (ltb s.bytes_left count)) [
    | inl short ↦ rw short tt
    | inr enough ↦
        rw enough
          (transfer-Holds _ s.source count slack (λ bs. bs) s safe.covers (λ bytes k b. (k, b)))
  ]

  pub Gives-pb_readbyte : Gives (λ byte. byte < 256) pb_readbyte
  unfolding pb_readbyte
  Gives-pb_readbyte slack s safe = elim (Bool-cases (s.bytes_left == 0)) [
    | inl short ↦ rw short tt
    | inr enough ↦ rw enough (
        transfer-Holds _ s.source 1 slack first_byte s safe.covers
          (λ bytes k b. first_byte_lt bytes b))
  ]
