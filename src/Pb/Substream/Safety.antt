-- ===== src/Pb/Substream/Safety.antt =====
-- A substream and what is left of its parent share out the bytes; closing it drops what is left of
-- the substream's bytes from the array that both read.
use solta.Base.{
  ℕ, ◌+◌, ◌-◌, ◌≤◌, ◌<◌, ◌^◌, ◌≡◌, refl, sym, ap, subst, ◌∙◌, arith, ltb, ◌==◌, Bool-cases, ==→eq,
}
use solta.Base.{List, inl, inr, drop, length, leb, Option}
use solta.Pb.Errmsg.{Errmsg, io_error}
use solta.Base.{Res, done, failed, fault, and_then, Leaves}
use solta.Pb.Istream.{
  Istream, Source, buf_read, user, null, pb_read, read_checked, or_error, call, count_read,
}
use solta.Pb.Istream.Safety.{IsSafe, Covers, After, Takes-pb_read}
use solta.Pb.Varint.{pb_decode_varint32}
use solta.Pb.Varint.Safety.{Takes-pb_decode_varint32}
use solta.Pb.Substream.{split_off, pb_make_string_substream, rejoin, pb_close_string_substream}

module _ {S : Type 0} where
  -- The substream covers its own bytes, with those of the parent behind them, and the parent is safe
  -- too; together they have fewer bytes than the stream had.
  pub record Shares (slack left : ℕ) (sub parent : Istream S) : Type 0 where
    pub sub_safe : IsSafe (slack + parent.bytes_left) sub
    pub parent_safe : IsSafe slack parent
    pub fewer : sub.bytes_left + parent.bytes_left + 1 ≤ left

  abbrev pub Splits : ℕ → ℕ → Res (Istream S) (Istream S) → Type 0
  Splits slack left (done sub parent) = Shares slack left sub parent
  Splits slack left (failed t) = After slack 0 left t
  Splits slack left fault = ⊥

  Covers-split :
      (src : Source S) (slack left size : ℕ)
      → size ≤ left
      → Covers slack src left
      → Covers (slack + (left - size)) src size
  Covers-split (buf_read bytes) slack left size h c = (omega (arith, c.0), c.1)
  Covers-split (user f state) slack left size h c = c

  Covers-lower :
      (src : Source S) (slack left size : ℕ)
      → Covers slack src left
      → Covers slack src (left - size)
  Covers-lower (buf_read bytes) slack left size c = (omega (arith, c.0), c.1)
  Covers-lower (user f state) slack left size c = c

  Covers-rejoin :
      (src : Source S) (slack left k : ℕ)
      → k ≡ 0
      → Covers (slack + left) src k
      → Covers slack src left
  Covers-rejoin (buf_read bytes) slack left k z c = (omega (arith, c.0), c.1)
  Covers-rejoin (user f state) slack left k z c = c

  -- On a safe stream `pb_make_string_substream` ends and does not read outside the stream's array.
  -- When it succeeds, the substream is safe with the bytes of the parent behind its own, the parent is
  -- safe, and the `bytes_left` of both add up to less than what the stream had. When it fails, the stream is safe
  -- and its `bytes_left` not higher.
  pub make-Splits :
      (slack : ℕ) (s : Istream S)
      → IsSafe slack s
      → Splits slack s.bytes_left (pb_make_string_substream s)
  unfolding pb_make_string_substream
  make-Splits slack s safe =
      after_size (pb_decode_varint32 s) (Takes-pb_decode_varint32 slack s safe)
    where
      after_size :
          (r : Res (Istream S) ℕ)
          → Leaves (After slack 1 s.bytes_left) (After slack 0 s.bytes_left) r
          → Splits slack s.bytes_left (and_then r split_off)
      after_size (done size t) (safe_t, h) = elim (Bool-cases (ltb t.bytes_left size)) [
        | inl short ↦
            rw short (record { covers = safe_t.covers; small = safe_t.small }, omega arith)
        | inr enough ↦ rw enough (record {
          sub_safe = record {
            covers = Covers-split t.source slack t.bytes_left size (ground arith) safe_t.covers;
            small = ground (arith, safe_t.small);
          };
          parent_safe = record {
            covers = Covers-lower t.source slack t.bytes_left size safe_t.covers;
            small = omega (arith, safe_t.small);
          };
          fewer = ground arith;
        })
      ]
      after_size (failed t) h = h
      after_size fault h = h

  -- Where the stream reads an array, `t` reads what is behind the bytes that were left of `sub`.
  abbrev pub IsBehind : Istream S → Istream S → Type 0
  IsBehind sub t =
      (bytes : List ℕ)
      → sub.source ≡ buf_read bytes
      → t.source ≡ buf_read (drop sub.bytes_left bytes)

  -- A property of the stream behind a read that succeeds.
  abbrev Then : (Istream S → Type 0) → Res (Istream S) (List ℕ) → Type 0
  Then P (done bytes t) = P t
  Then P (failed t) = Unit
  Then P fault = Unit

  call-Then :
      (bytes : List ℕ) (count : ℕ) (s : Istream S)
      → Then
          (λ t. t.source ≡ buf_read (drop count bytes))
          (and_then (or_error io_error (call (buf_read bytes) count) s) (count_read count))
  call-Then bytes count s = elim (Bool-cases (leb count (length bytes))) [
    | inl e ↦ rw e refl
    | inr e ↦ rw e tt
  ]

  skip-Then :
      (src : Source S) (left count : ℕ) (bytes : List ℕ) (e : Option Errmsg)
      → src ≡ buf_read bytes
      → Then
          (λ t. t.source ≡ buf_read (drop count bytes))
          (pb_read null count (record { source = src; bytes_left = left; errmsg = e }))
  unfolding pb_read read_checked
  skip-Then (buf_read here) left count bytes e at = elim (Bool-cases (ltb left count)) [
    | inl short ↦ rw short tt
    | inr enough ↦
        let same : here ≡ bytes = cc in
        let start : Istream S = record { source = buf_read here; bytes_left = left; errmsg = e } in
        let skipped = or_error io_error (call (buf_read here) count) start in
        rw enough (
          subst
            (λ b.
              Then (λ t. t.source ≡ buf_read (drop count b)) (and_then skipped (count_read count)))
            same (call-Then here count start))
  ]
  skip-Then (user f state) left count bytes e at = absurd (ground arith)

  -- Closing any safe substream that has the bytes of its parent, fewer than 2 ^ 64, behind its own:
  -- it ends and reads nothing outside the array. When it succeeds the parent is safe and has the
  -- `bytes_left` that it had, and where the substream reads an array the parent goes on behind the
  -- bytes that were left of it. When it fails the parent is unchanged.
  pub close-Leaves :
      (slack : ℕ) (sub parent : Istream S)
      → IsSafe (slack + parent.bytes_left) sub
      → parent.bytes_left < 2 ^ 64
      → Leaves
          (λ t. IsSafe slack t × (t.bytes_left ≡ parent.bytes_left) × IsBehind sub t)
          (λ t. t ≡ parent)
          (pb_close_string_substream sub parent)
  unfolding pb_close_string_substream
  close-Leaves slack sub parent safe few = elim (Bool-cases (sub.bytes_left == 0)) [
    | inl none_left ↦ rw none_left (
      record {
        covers =
            Covers-rejoin sub.source slack parent.bytes_left sub.bytes_left
              (==→eq sub.bytes_left 0 none_left) safe.covers;
        small = few;
      },
      refl,
      λ bytes at. at ∙ ap (λ n. buf_read (drop n bytes)) (sym (==→eq sub.bytes_left 0 none_left)),
    )
    | inr some_left ↦ rw some_left (
        rest (pb_read null sub.bytes_left sub)
          (Takes-pb_read null sub.bytes_left (slack + parent.bytes_left) sub safe)
          (λ bytes at. skip-Then sub.source sub.bytes_left sub.bytes_left bytes sub.errmsg at))
  ]
    where
      rest :
          (r : Res (Istream S) (List ℕ))
          → Leaves
              (After (slack + parent.bytes_left) sub.bytes_left sub.bytes_left)
              (After (slack + parent.bytes_left) 0 sub.bytes_left)
              r
          → ((bytes : List ℕ)
              → sub.source ≡ buf_read bytes
              → Then (λ t. t.source ≡ buf_read (drop sub.bytes_left bytes)) r)
          → Leaves
              (λ t. IsSafe slack t × (t.bytes_left ≡ parent.bytes_left) × IsBehind sub t)
              (λ t. t ≡ parent)
              (rejoin r parent)
      rest (done bytes t) (safe_t, h) behind = (
        record {
          covers =
              Covers-rejoin t.source slack parent.bytes_left t.bytes_left (omega arith)
                safe_t.covers;
          small = few;
        },
        refl,
        behind,
      )
      rest (failed t) h behind = refl
      rest fault h behind = h
