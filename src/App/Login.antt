-- ===== src/App/Login.antt =====
-- `getLoginFromEmail` of SOLTA/trial 3/FirebaseHelper.swift. A text is the list of its characters, by
-- their numbers; the call of `replacingOccurrences` is for one character, and `split` leaves out
-- empty parts.
use Prim.Native.Nat.{ℕ, zero, suc}
use solta.Base.{
  ◌≡◌, refl, ap, ◌∙◌, inl, inr, Bool, true, false, not, ◌&&◌, Option, none, some, List, [], ◌∷◌,
  ◌++◌, if◌then◌else◌, Bool-cases, arith, ◌==◌,
}
use solta.App.Trap.{◌>>=◌, get_elem?}
pub mod First

abbrev pub Text : Type 0
Text = List ℕ

abbrev pub dot : ℕ
dot = 46

abbrev pub at_sign : ℕ
at_sign = 64

-- `s.replacingOccurrences(of: c, with: "")`
unfoldable pub without : ℕ → Text → Text
without c [] = []
without c (x ∷ xs) = let rest = without c xs in if x == c then rest else x ∷ rest

abbrev first_with : ℕ → List Text → List Text
first_with x [] = (x ∷ []) ∷ []
first_with x (part ∷ parts) = (x ∷ part) ∷ parts

-- The parts between the separators, with those that are empty.
unfoldable pub parts_of : ℕ → Text → List Text
parts_of c [] = [] ∷ []
parts_of c (x ∷ xs) = let rest = parts_of c xs in if x == c then [] ∷ rest else first_with x rest

unfoldable pub nonempty : List Text → List Text
nonempty [] = []
nonempty ([] ∷ parts) = nonempty parts
nonempty ((x ∷ part) ∷ parts) = (x ∷ part) ∷ nonempty parts

-- `s.split(separator: c)`
abbrev pub split : ℕ → Text → List Text
split c s = nonempty (parts_of c s)

-- The static function; `parts[0]` traps where there is no part.
unfoldable pub get_login_from_email : Text → Option Text
get_login_from_email email = get_elem? (split at_sign (without dot email)) 0

-- The method of a Detection reads the email of the current user in place of its argument, and its
-- callers unwrap that email before.
unfoldable pub login_of_user : Option Text → Option Text
login_of_user email = email >>= get_login_from_email
