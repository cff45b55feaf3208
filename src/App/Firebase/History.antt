-- ===== src/App/Firebase/History.antt =====
-- `class HistoryVC` of HistoryVC.swift, with `Detection(snapshot:)` of FirebaseHelper.swift.
use solta.Base.{Bool, true, false, Option, none, some, List, [], ◌∷◌, ◌++◌, if◌then◌else◌, ℕ}
use solta.App.Trap.{◌>>=◌, get_elem?}
use solta.App.Login.{Text}
use solta.App.Firebase.Database.{
  Database, EventPath, Value, number, text, millis, score, school, url,
}
use solta.App.Firebase.Detection.{Detection, Services}
use solta.App.Firebase.Helper.{Helper, get_image, get_user_ref}

-- What the table shows of the detections, and what the observer's closure has gathered.
pub record History (W I : Type 0) : Type 0 where
  pub detections : List (Detection W I)
  pub events_from_firebase : List (Detection W I)

module _ {W : Type 0} where
  -- `as!` on a value of a snapshot
  unfoldable pub as_number : Option (Value W) → Option W
  as_number (some (number x)) = some x
  as_number (some (text t)) = none
  as_number none = none

  unfoldable pub as_text : Option (Value W) → Option Text
  as_text (some (text t)) = some t
  as_text (some (number x)) = none
  as_text none = none

  unfoldable pub is_there : Option (Value W) → Bool
  is_there none = false
  is_there (some v) = true

module _ {W I : Type 0} where
  -- `tableView(_:cellForRowAt:)`: the score, the time and the image of a row.
  unfoldable pub row_at : History W I → ℕ → Option (W × W × Option I)
  row_at v row = get_elem? v.detections row >>= λ d. some (d.score, d.millis, d.image)

  -- `populateCells` begins to observe users/<login>, with nothing gathered; it returns what is
  -- gathered so far, which is nothing.
  unfoldable pub populate_cells :
      Services W I → History W I → Option (Text × History W I × List (Detection W I))
  populate_cells env v = get_user_ref env.user_email >>= λ login.
      some (login, record v { events_from_firebase = [] }, [])

abbrev pub Gathered : Type 0 → Type 0 → Type 0 → Type 0
Gathered W I D = List (Detection W I) × Helper W I D

abbrev pub path_at : Text → Text → EventPath
path_at login date = record { login = login; date = date }

-- `unset_format` formats with the formatter of such a detection, which has no format yet.
module _ {W I D : Type 0} ⦃b : Database W D⦄ (unset_format : W → Text) where
  -- `Detection(snapshot:)`
  unfoldable pub from_snapshot :
      D → EventPath → Helper W I D → Option (Detection W I × Helper W I D)
  from_snapshot db p h = do
    s ← as_number (b.value db p score)
    at ← as_text (b.value db p school)
    m ← as_number (b.value db p millis)
    address ← as_text (b.value db p url)
    let g = get_image address h
    some (
      record {
        login = [];
        date_string = unset_format m;
        millis = m;
        image = some (g.0);
        image_url_string = some address;
        score = s;
        school = at;
      },
      g.1,
    )

  unfoldable pub read_child : D → EventPath → Gathered W I D → Option (Gathered W I D)
  read_child db p r =
      if is_there (b.value db p url)
      then (from_snapshot db p r.1 >>= λ s. some (r.0 ++ (s.0 ∷ []), s.1))
      else some r

  -- The loop over the children of a snapshot; `hasChild("url")` filters them.
  unfoldable pub read_children : D → Text → List Text → Gathered W I D → Option (Gathered W I D)
  read_children db login [] r = some r
  read_children db login (date ∷ dates) r =
      read_child db (path_at login date) r >>= read_children db login dates

  -- The closure of `observe(.value)` for a snapshot of users/<login>; one without children does not
  -- exist.
  unfoldable pub on_children :
      D → Text → List Text → History W I × Helper W I D → Option (History W I × Helper W I D)
  on_children db login [] (v, h) = some (v, h)
  on_children db login (date ∷ dates) (v, h) =
      read_children db login (date ∷ dates) (v.events_from_firebase, h) >>= λ r.
      some (record { detections = r.0; events_from_firebase = r.0 }, r.1)

  unfoldable pub on_value :
      D → Text → History W I × Helper W I D → Option (History W I × Helper W I D)
  on_value db login r = on_children db login (b.children db login) r
