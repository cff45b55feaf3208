-- ===== src/Pb/Memory.antt =====
-- The memory that messages are decoded into and encoded from: bytes by their 64-bit addresses, and
-- words on a little-endian target.
use solta.Base.{
  ℕ, zero, suc, ◌+◌, ◌-◌, ◌*◌, ◌/◌, ◌%◌, ◌^◌, ◌≤◌, ◌<◌, ◌≡◌, refl, arith, ◌==◌, if◌then◌else◌,
}
use solta.Base.{Bool-cases, inl, inr}
use native.Mathlib.Nat.{pow-suc}

abbrev pub Memory : Type 0
Memory = ℕ → ℕ

-- `a + i`, for the byte `i` of a word.
abbrev pub next_address : ℕ → ℕ
next_address a = (a + 1) % 2 ^ 64

abbrev pub set_byte : ℕ → ℕ → Memory → Memory
set_byte a b mem x = if x == a then b else mem x

-- The `size` low bytes of `v`, the lowest first.
unfoldable pub store : ℕ → ℕ → ℕ → Memory → Memory
store zero a v mem = mem
store (suc size) a v mem = set_byte a (v % 256) (store size (next_address a) (v / 256) mem)

unfoldable pub load : ℕ → ℕ → Memory → ℕ
load zero a mem = 0
load (suc size) a mem = mem a + 256 * load size (next_address a) mem

-- How far the address `x` lies behind `a`.
abbrev pub distance : ℕ → ℕ → ℕ
distance a x = (x + 2 ^ 64 - a) % 2 ^ 64

-- A store changes no byte outside its range.
pub store-outside :
    (size a v x : ℕ) (mem : Memory)
    → a < 2 ^ 64
    → x < 2 ^ 64
    → size ≤ distance a x
    → store size a v mem x ≡ mem x
unfolding store
store-outside zero a v x mem h k far = refl
store-outside (suc size) a v x mem h k far = elim (Bool-cases (x == a)) [
  | inl same ↦ absurd (ground arith)
  | inr other ↦
      rw other (store-outside size (next_address a) (v / 256) x mem (omega arith) k (ground arith))
]

load-same :
    (size a : ℕ) (mem mem' : Memory)
    → a < 2 ^ 64
    → ((x : ℕ) → x < 2 ^ 64 → distance a x < size → mem x ≡ mem' x)
    → load size a mem ≡ load size a mem'
unfolding load
load-same zero a mem mem' h same = refl
load-same (suc size) a mem mem' h same = omega (
  arith,
  same a h (omega arith),
  load-same size (next_address a) mem mem' (omega arith) (λ x k near. same x k (omega arith)),
)

-- What a store of up to eight bytes has put there is loaded again.
pub load-store :
    (size a v : ℕ) (mem : Memory)
    → a < 2 ^ 64
    → size ≤ 8
    → v < 256 ^ size
    → load size a (store size a v mem) ≡ v
unfolding load store
load-store zero a v mem h s u = omega arith
load-store (suc size) a v mem h s u = omega (
  arith,
  here,
  beyond,
  load-store size (next_address a) (v / 256) mem (omega arith) (omega arith)
      (omega (arith, pow-suc 256 size)),
)
  where
    rest : Memory
    rest = store size (next_address a) (v / 256) mem

    here : set_byte a (v % 256) rest a ≡ v % 256
    here = ground arith

    beyond :
        load size (next_address a) (set_byte a (v % 256) rest) ≡ load size (next_address a) rest
    beyond = load-same size (next_address a) _ rest (omega arith) (λ x k near. apart x k near)
      where
        apart :
            (x : ℕ)
            → x < 2 ^ 64
            → distance (next_address a) x < size
            → set_byte a (v % 256) rest x ≡ rest x
        apart x k near = elim (Bool-cases (x == a)) [
          | inl same ↦ absurd (ground arith)
          | inr other ↦ rw other
        ]

-- A memory whose entries are bytes.
abbrev pub IsMemory : Memory → Type 0
IsMemory mem = (x : ℕ) → mem x < 256

pub load_lt : (size a : ℕ) (mem : Memory) → IsMemory mem → load size a mem < 256 ^ size
unfolding load
load_lt zero a mem b = omega arith
load_lt (suc size) a mem b =
    omega (arith, b a, load_lt size (next_address a) mem b, pow-suc 256 size)
