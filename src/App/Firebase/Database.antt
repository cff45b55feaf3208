-- ===== src/App/Firebase/Database.antt =====
-- The operations of the Firebase database that the application uses, below `users`: a parameter.
use solta.Base.{◌≡◌, Bool, true, false, ◌&&◌, Option, some, List, [], ◌∷◌, if◌then◌else◌, ◌==◌}
use solta.App.Login.{Text}

-- What the application stores at a child: a number or a text.
pub data Value (W : Type 0) : Type 0 where
  number : W → Value W
  text : Text → Value W

-- The children of a detection that the application names.
pub data Field : Type 0 where
  millis score school url : Field

unfoldable pub same_field : Field → Field → Bool
same_field millis millis = true
same_field score score = true
same_field school school = true
same_field url url = true
same_field _ _ = false

unfoldable pub same_text : Text → Text → Bool
same_text [] [] = true
same_text (x ∷ xs) (y ∷ ys) = let rest = same_text xs ys in if x == y then rest else false
same_text _ _ = false

-- users/<login>/<date>
pub record EventPath : Type 0 where
  pub login : Text
  pub date : Text

unfoldable pub same_path : EventPath → EventPath → Bool
same_path p q = same_text p.login q.login && same_text p.date q.date

pub record Database (W D : Type 0) : Type 0 where
  pub set_value : EventPath → Field → Value W → D → D
  pub value : D → EventPath → Field → Option (Value W)
  pub children : D → Text → List Text  -- of users/<login>

-- A child has the value that was set last.
pub record IsDatabase (W D : Type 0) ⦃b : Database W D⦄ : Type 0 where
  pub value-set_value :
      (p q : EventPath) (g k : Field) (v : Value W) (db : D)
      → b.value (b.set_value p g v db) q k
        ≡ (if same_path p q && same_field g k then some v else b.value db q k)
