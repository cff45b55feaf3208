-- ===== src/App/Firebase/Address.antt =====
-- The address of one detection.
use solta.Base.{◌≡◌, Bool, true, false, not, ◌&&◌, some, List, [], ◌∷◌, ◌++◌, if◌then◌else◌, ℕ}
use solta.App.Trap.{Returns}
use solta.App.Login.{Text}
use solta.App.Firebase.Database.{
  Database, IsDatabase, EventPath, Value, number, text, millis, score, school, url, same_field,
}
use solta.App.Firebase.Detection.{Detection, Services, update_url}
use solta.App.Firebase.Helper.{
  Helper, Upload, take_out, path_of, start_upload, put_if_any, store_numbers, add_detection,
  answer_put, put_completed, set_url, answer_url, url_completed,
}
use solta.App.Firebase.History.{History}
use solta.App.Firebase.Calls.{add, put_answer, url_answer, serve, serve_all}
use solta.App.Firebase.Whole.{same_path_refl}

module _ {W I : Type 0} where
  abbrev upload_of : Detection W I → Text → List ℕ → Upload W I
  upload_of d name bytes = record {
    path = path_of d;
    name = name;
    bytes = bytes;
    current_detection = d;
  }

module _ {W D : Type 0} ⦃b : Database W D⦄ where
  open b use {set_value, value}

  set_url-hit :
      (laws : IsDatabase W D) (p : EventPath) (v : Value W) (db : D)
      → value (set_value p url v db) p url ≡ some v
  unfolding same_field
  set_url-hit laws p v db = simp (laws.value-set_value, same_path_refl p)

module _ {W I D : Type 0} ⦃b : Database W D⦄ where
  open b use {set_value, value}

  abbrev stored_at : Detection W I → D → D
  stored_at d db =
      let p = path_of d in
      set_value p school (text d.school)
        (set_value p score (number d.score) (set_value p millis (number d.millis) db))

  add_detection-upload :
      (env : Services W I) (d : Detection W I) (h : Helper W I D) (image : I) (name : Text)
      (bytes : List ℕ)
      → d.image ≡ some image
      → env.int32_text d.score ≡ some name
      → env.jpeg image ≡ some bytes
      → h.uploads ≡ []
      → add_detection env d h
        ≡ some (record h {
          user_ref = d.login;
          bytes = bytes;
          uploads = upload_of d name bytes ∷ [];
          database = stored_at d h.database;
          detections = h.detections ++ (d ∷ []);
        })
  unfolding add_detection put_if_any start_upload store_numbers
  add_detection-upload env d h image name bytes i n j u = simp (i, n, j, u)

  module _ (laws : IsDatabase W D) where
    stored_at-url :
        (d : Detection W I) (db : D)
        → value (stored_at d db) (path_of d) url ≡ value db (path_of d) url
    unfolding same_field
    stored_at-url d db = let p = path_of d in simp (laws.value-set_value, same_path_refl p)

    -- Where the database keeps what is set (`IsDatabase`), for a detection with an image that has
    -- JPEG data and a score with an Int32, and with no answer due: behind the end of `putData`
    -- and that of `downloadURL`, the child of the detection has the address if the image is
    -- stored and the storage has given the address. Where the storage refuses the image, or gives
    -- an error in place of the address, the child keeps what it had. The program is not stopped.
    pub add-put-url :
        (env : Services W I) (unset_format : W → Text) (d : Detection W I) (image : I) (name : Text)
        (bytes : List ℕ) (stored error : Bool) (address : Text) (q : History W I × Helper W I D)
        → d.image ≡ some image
        → env.int32_text d.score ≡ some name
        → env.jpeg image ≡ some bytes
        → q.1.uploads ≡ []
        → q.1.url_requests ≡ []
        → Returns
            (λ r. value r.1.database (path_of d) url ≡ (
              if stored && not error
              then some (text address)
              else value q.1.database (path_of d) url))
            (serve_all env unset_format
              (add d ∷ put_answer 0 stored ∷ url_answer 0 error (some address) ∷ [])
              q)
    unfolding serve_all serve put_completed answer_put url_completed answer_url take_out set_url
        update_url
    add-put-url env unset_format d image name bytes true true address q i n j u a =
        simp
          (add_detection-upload env d q.1 image name bytes i n j u, a, stored_at-url d q.1.database)
    add-put-url env unset_format d image name bytes true false address q i n j u a = simp (
      add_detection-upload env d q.1 image name bytes i n j u,
      a,
      set_url-hit laws (path_of d) (text address) (stored_at d q.1.database),
    )
    add-put-url env unset_format d image name bytes false error address q i n j u a =
        simp
          (add_detection-upload env d q.1 image name bytes i n j u, a, stored_at-url d q.1.database)
