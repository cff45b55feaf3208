-- ===== src/App/Firebase/Helper.antt =====
-- `class FirebaseHelper` of FirebaseHelper.swift.
use solta.Base.{Bool, true, false, Option, none, some, List, [], ◌∷◌, ◌++◌, ℕ, zero, suc}
use solta.App.Trap.{◌>>=◌}
use solta.App.Login.{Text, get_login_from_email}
use solta.App.Firebase.Database.{Database, EventPath, number, text, millis, score, school, url}
use solta.App.Firebase.Detection.{Detection, Services, update_url}

-- A call of the storage that waits for its answer: where it stores, and what its closure captured.
pub record Upload (W I : Type 0) : Type 0 where
  pub path : EventPath
  pub name : Text
  pub bytes : List ℕ
  pub current_detection : Detection W I

-- `uploads` waits for the end of `putData`, `url_requests` for that of `downloadURL`, and `downloads`
-- has the addresses that `getData` was asked for.
pub record Helper (W I D : Type 0) : Type 0 where
  pub database : D
  pub user_ref : Text
  pub bytes : List ℕ  -- `data`
  pub detections : List (Detection W I)
  pub image : I
  pub uploads : List (Upload W I)
  pub url_requests : List (Upload W I)
  pub downloads : List Text

-- The answer at a place of the list of those that wait, and the others.
module _ {A : Type 0} where
  unfoldable pub take_out : ℕ → List A → Option (A × List A)
  take_out n [] = none
  take_out zero (x ∷ xs) = some (x, xs)
  take_out (suc n) (x ∷ xs) = take_out n xs >>= λ r. some (r.0, x ∷ r.1)

module _ {W I : Type 0} where
  -- `getDate()` formats the date of the detection again, with the formatter that made `date_string`.
  abbrev pub path_of : Detection W I → EventPath
  path_of d = record { login = d.login; date = d.date_string }

module _ {W I D : Type 0} ⦃b : Database W D⦄ (env : Services W I) where
  open b use {set_value}

  unfoldable pub start_upload : Detection W I → I → Helper W I D → Option (Helper W I D)
  start_upload d image h = do
    name ← env.int32_text d.score
    bytes ← env.jpeg image
    some (record h {
      bytes = bytes;
      uploads =
          h.uploads
          ++ (record { path = path_of d; name = name; bytes = bytes; current_detection = d } ∷ []);
    })

  unfoldable pub put_if_any : Option I → Detection W I → Helper W I D → Option (Helper W I D)
  put_if_any none d h = some h
  put_if_any (some image) d h = start_upload d image h

  unfoldable pub store_numbers : Detection W I → Helper W I D → Helper W I D
  store_numbers d h =
      let p = path_of d in
      record h {
        database =
            set_value p school (text d.school) (
              set_value p score (number d.score) (set_value p millis (number d.millis) h.database));
        detections = h.detections ++ (d ∷ []);
      }

  unfoldable pub add_detection : Detection W I → Helper W I D → Option (Helper W I D)
  add_detection d h =
      put_if_any d.image d (record h { user_ref = d.login }) >>= λ g. some (store_numbers d g)

module _ {W I D : Type 0} ⦃b : Database W D⦄ where
  open b use {set_value}

  -- The closure of `putData`; `stored` is whether there is metadata.
  unfoldable pub answer_put :
      Bool → Option (Upload W I × List (Upload W I)) → Helper W I D → Helper W I D
  answer_put stored none h = h
  answer_put true (some (u, rest)) h = record h {
    uploads = rest;
    url_requests = h.url_requests ++ (u ∷ []);
  }
  answer_put false (some (u, rest)) h = record h { uploads = rest }

  unfoldable pub put_completed : ℕ → Bool → Helper W I D → Helper W I D
  put_completed n stored h = answer_put stored (take_out n h.uploads) h

  -- `setValue(currentDetection.imageURLString)`, which is not nil behind `updateURL`.
  unfoldable pub set_url : Upload W I → Detection W I → D → Option D
  set_url u d db = d.image_url_string >>= λ t. some (set_value u.path url (text t) db)

  -- The closure of `downloadURL`, with its two optional arguments.
  unfoldable pub answer_url :
      Bool
      → Option Text
      → Option (Upload W I × List (Upload W I))
      → Helper W I D
      → Option (Helper W I D)
  answer_url error address none h = some h
  answer_url true address (some (u, rest)) h = some (record h { url_requests = rest })
  answer_url false address (some (u, rest)) h = address >>= λ t.
      set_url u (update_url t u.current_detection) h.database >>= λ db.
      some (record h { url_requests = rest; database = db })

  unfoldable pub url_completed : ℕ → Bool → Option Text → Helper W I D → Option (Helper W I D)
  url_completed n error address h = answer_url error address (take_out n h.url_requests) h

  -- `getImage(url:)` asks for the image and returns the one that the helper has.
  unfoldable pub get_image : Text → Helper W I D → I × Helper W I D
  get_image address h = (h.image, record h { downloads = h.downloads ++ (address ∷ []) })

  -- The closure of `getData`: `none` is an error, `some none` data that is no image.
  unfoldable pub answer_image :
      Option (Option I) → Option (Text × List Text) → Helper W I D → Option (Helper W I D)
  answer_image answer none h = some h
  answer_image none (some (_, rest)) h = some (record h { downloads = rest })
  answer_image (some img) (some (_, rest)) h =
      img >>= λ i. some (record h { downloads = rest; image = i })

  unfoldable pub image_loaded : ℕ → Option (Option I) → Helper W I D → Option (Helper W I D)
  image_loaded n answer h = answer_image answer (take_out n h.downloads) h

  unfoldable pub erase_detections : Helper W I D → Helper W I D
  erase_detections h = record h { detections = [] }

  -- The loop of `removeDetection` has no statement.
  unfoldable pub remove_detection : Detection W I → Helper W I D → Helper W I D
  remove_detection d h = h

  unfoldable pub put_image : Services W I → I → Helper W I D → Option (Helper W I D)
  put_image env image h = env.jpeg image >>= λ bytes. some (record h { bytes = bytes })

-- `getUserRef(user:)` and `getStorageRef(user:)`, of which each is below `users`.
unfoldable pub get_user_ref : Option Text → Option Text
get_user_ref email = email >>= get_login_from_email
