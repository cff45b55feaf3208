-- ===== src/App/Login/First.antt =====
-- The login is the first run of characters other than `@` of the email without its dots.
use Prim.Native.Nat.{ℕ}
use solta.Base.{
  ◌≡◌, ◌≢◌, refl, sym, ap, subst, ◌∙◌, inl, inr, false, Option, none, some, List, [], ◌∷◌, ◌++◌,
  All, if◌then◌else◌, Bool-cases, arith, ◌==◌,
}
use solta.App.Trap.{get_elem?}
use solta.App.Login.{
  Text, dot, at_sign, without, parts_of, nonempty, get_login_from_email, first_with,
}

unfoldable pub run_of : ℕ → Text → Text
run_of c [] = []
run_of c (x ∷ xs) = let rest = run_of c xs in if x == c then [] else x ∷ rest

unfoldable pub skip : ℕ → Text → Text
skip c [] = []
skip c (x ∷ xs) = let rest = skip c xs in if x == c then rest else x ∷ xs

abbrev pub unless_empty : Text → Option Text
unless_empty [] = none
unless_empty (x ∷ xs) = some (x ∷ xs)

first_with-head :
    (x : ℕ) (l : List Text) (r : Text)
    → get_elem? l 0 ≡ some r
    → (get_elem? (first_with x l) 0 ≡ some (x ∷ r))
      × (get_elem? (nonempty (first_with x l)) 0 ≡ some (x ∷ r))
unfolding nonempty
first_with-head x [] r e = absurd (ground arith)
first_with-head x (part ∷ l) r e = (ground arith, ground arith)

-- `parts_of` begins with the run up to the separator.
parts_of-run : (c : ℕ) (s : Text) → get_elem? (parts_of c s) 0 ≡ some (run_of c s)
unfolding parts_of run_of
parts_of-run c [] = refl
parts_of-run c (x ∷ xs) = elim (Bool-cases (x == c)) [
  | inl e ↦ rw e refl
  | inr e ↦ rw e (first_with-head x _ _ (parts_of-run c xs)).0
]

nonempty-first :
    (c : ℕ) (s : Text) → get_elem? (nonempty (parts_of c s)) 0 ≡ unless_empty (run_of c (skip c s))
unfolding parts_of run_of skip nonempty
nonempty-first c [] = refl
nonempty-first c (x ∷ xs) = elim (Bool-cases (x == c)) [
  | inl e ↦ rw e (nonempty-first c xs)
  | inr e ↦ simp e ((first_with-head x _ _ (parts_of-run c xs)).1)
]

-- The login of any email: its dots are taken out, then any `@` in front, and the characters up to
-- the next `@` are the login. Where there are none the code traps, and nowhere else.
pub get_login_from_email-run :
    (email : Text)
    → get_login_from_email email ≡ unless_empty (run_of at_sign (skip at_sign (without dot email)))
unfolding get_login_from_email
get_login_from_email-run email = nonempty-first at_sign (without dot email)

-- The characters of a login are neither dots nor `@`.
abbrev pub IsPlain : ℕ → Type 0
IsPlain x = ((x == dot) ≡ false) × ((x == at_sign) ≡ false)

without-dots : (s : Text) → All (λ x. (x == dot) ≡ false) (without dot s)
unfolding without
without-dots [] = tt
without-dots (x ∷ xs) = elim (Bool-cases (x == dot)) [
  | inl e ↦ rw e (without-dots xs)
  | inr e ↦ rw e (e, without-dots xs)
]

skip-All : (P : ℕ → Type 0) (c : ℕ) (s : Text) → All P s → All P (skip c s)
unfolding skip
skip-All P c [] h = tt
skip-All P c (x ∷ xs) h = elim (Bool-cases (x == c)) [
  | inl e ↦ rw e (skip-All P c xs h.1)
  | inr e ↦ rw e h
]

run_of-IsPlain : (s : Text) → All (λ x. (x == dot) ≡ false) s → All IsPlain (run_of at_sign s)
unfolding run_of
run_of-IsPlain [] h = tt
run_of-IsPlain (x ∷ xs) h = elim (Bool-cases (x == at_sign)) [
  | inl e ↦ rw e tt
  | inr e ↦ rw e ((h.0, e), run_of-IsPlain xs h.1)
]

unless_empty-some : (s l : Text) → unless_empty s ≡ some l → (l ≡ s) × (l ≢ [])
unless_empty-some [] l e = absurd (ground arith)
unless_empty-some (x ∷ s) l e = (ground arith, λ n. ground arith)

-- A login is not empty, and has no dot and no `@`, so that it is one component of a path.
pub get_login_from_email-IsPlain :
    (email login : Text)
    → get_login_from_email email ≡ some login
    → (login ≢ []) × All IsPlain login
get_login_from_email-IsPlain email login e =
    let s = run_of at_sign (skip at_sign (without dot email)) in
    let r = unless_empty-some s login (sym (get_login_from_email-run email) ∙ e) in
    (
      r.1,
      subst (All IsPlain) (sym r.0) (run_of-IsPlain _ (skip-All _ at_sign _ (without-dots email))),
    )

run_of-append :
    (local domain : Text)
    → All (λ x. (x == at_sign) ≡ false) local
    → run_of at_sign (without dot (local ++ (at_sign ∷ domain))) ≡ without dot local
unfolding run_of without
run_of-append [] domain h = refl
run_of-append (x ∷ local) domain h = elim (Bool-cases (x == dot)) [
  | inl e ↦ rw e (run_of-append local domain h.1)
  | inr e ↦ rw (e, h.0) (ap (λ (l : Text). x ∷ l) (run_of-append local domain h.1))
]

skip-append :
    (local domain : Text)
    → All (λ x. (x == at_sign) ≡ false) local
    → without dot local ≢ []
    → skip at_sign (without dot (local ++ (at_sign ∷ domain)))
      ≡ without dot (local ++ (at_sign ∷ domain))
unfolding skip without
skip-append [] domain h n = absurd (n refl)
skip-append (x ∷ local) domain h n = elim (Bool-cases (x == dot)) [
  | inl e ↦ rw e (skip-append local domain h.1 (rw e at n))
  | inr e ↦ rw (e, h.0) refl
]

-- The login of `local@domain` is `local` without its dots, if a character is left; the domain does not
-- matter, so that the same name at two domains has one login.
pub get_login_from_email-local :
    (local domain : Text)
    → All (λ x. (x == at_sign) ≡ false) local
    → without dot local ≢ []
    → get_login_from_email (local ++ (at_sign ∷ domain)) ≡ some (without dot local)
get_login_from_email-local local domain h n =
    get_login_from_email-run (local ++ (at_sign ∷ domain))
    ∙ ap (λ t. unless_empty (run_of at_sign t)) (skip-append local domain h n)
    ∙ ap unless_empty (run_of-append local domain h)
    ∙ full (without dot local) n
  where
    full : (s : Text) → s ≢ [] → unless_empty s ≡ some s
    full [] k = absurd (k refl)
    full (x ∷ s) k = refl
