-- ===== src/Base/Status.antt =====
-- Functions that change a stream and return a status.
-- C code returns `bool` and may have changed the stream in either case; `fault` is no C value: an
-- access outside an array, which C leaves undefined, or a loop that used up its fuel.

pub data Res (T A : Type 0) : Type 0 where
  done : A → T → Res T A
  failed : T → Res T A
  fault : Res T A

abbrev pub M : Type 0 → Type 0 → Type 0
M T A = T → Res T A

abbrev pub pure : {T A : Type 0} → A → M T A
pure a s = done a s

-- Undefined behaviour, or the end of the fuel of a loop.
abbrev pub crash : {T A : Type 0} → M T A
crash s = fault

abbrev pub and_then : {T A B : Type 0} → Res T A → (A → M T B) → Res T B
and_then (done a t) f = f a t
and_then (failed t) f = failed t
and_then fault f = fault

infixl 5 ◌>>=◌ ◌>>◌
abbrev pub ◌>>=◌ : {T A B : Type 0} → M T A → (A → M T B) → M T B
◌>>=◌ m f s = and_then (m s) f

abbrev pub ◌>>◌ : {T A B : Type 0} → M T A → M T B → M T B
m >> k = m >>= λ _. k

-- The run does not fault; it leaves a stream with `P` if it succeeds, and one with `Q` if it fails.
abbrev pub Leaves : {T A : Type 0} → (T → Type 0) → (T → Type 0) → Res T A → Type 0
Leaves P Q (done a t) = P t
Leaves P Q (failed t) = Q t
Leaves P Q fault = ⊥
