-- ===== src/App/Firebase/Served.antt =====
-- What FirebaseHelper keeps: each detection that has an address is whole in the database, and so is
-- each detection that waits for an answer of the storage.
use solta.Base.{
  ◌≡◌, refl, sym, subst, ◌⊎◌, inl, inr, Bool, true, false, Option, none, some, List, [], ◌∷◌, All,
  All-append, ℕ, zero, suc,
}
use solta.App.Trap.{Yields, Yields-bind, Yields-some}
use solta.App.Login.{Text}
use solta.App.Firebase.Database.{
  Database, IsDatabase, EventPath, number, text, millis, score, school, url, same_field,
}
use solta.App.Firebase.Detection.{Detection, Services, update_url}
use solta.App.Firebase.Helper.{
  Helper, Upload, take_out, path_of, start_upload, put_if_any, store_numbers, add_detection,
  answer_put, put_completed, set_url, answer_url, url_completed, answer_image, image_loaded,
}
use solta.App.Firebase.Whole.{
  Whole, IsLinked, has_type, set_there, set-Has, set-Whole, set_other-IsLinked, set_url-IsLinked,
}

module _ {A : Type 0} where
  All-map : (P Q : A → Type 0) (l : List A) → ((x : A) → P x → Q x) → All P l → All Q l
  All-map P Q [] g h = tt
  All-map P Q (x ∷ l) g h = (g x h.0, All-map P Q l g h.1)

  take_out-All :
      (P : A → Type 0) (n : ℕ) (l : List A)
      → All P l
      → Yields (λ r. P r.0 × All P r.1) (take_out n l)
  unfolding take_out
  take_out-All P n [] h = tt
  take_out-All P zero (x ∷ l) h = h
  take_out-All P (suc n) (x ∷ l) h =
      Yields-bind _ (take_out n l) _ λ r e.
        let s = Yields-some _ (take_out n l) r e (take_out-All P n l h.1) in (s.0, (h.0, s.1))

module _ {W I D : Type 0} ⦃b : Database W D⦄ where
  open b use {set_value}

  abbrev pub Waits : D → Upload W I → Type 0
  Waits db u = Whole W db u.path

  pub record IsServed (h : Helper W I D) : Type 0 where
    pub linked : IsLinked W h.database
    pub waiting : All (Waits h.database) h.uploads
    pub asked : All (Waits h.database) h.url_requests

  module _ (laws : IsDatabase W D) where
    abbrev stored : EventPath → Detection W I → D → D
    stored p d db =
        set_value p school (text d.school)
          (set_value p score (number d.score) (set_value p millis (number d.millis) db))

    stored-Whole :
        (p q : EventPath) (d : Detection W I) (db : D) → Whole W db q → Whole W (stored p d db) q
    unfolding has_type
    stored-Whole p q d db w =
        set-Whole W laws p q school _ _ refl
          (set-Whole W laws p q score _ _ refl (set-Whole W laws p q millis _ db refl w))

    stored-IsLinked :
        (p : EventPath) (d : Detection W I) (db : D) → IsLinked W db → IsLinked W (stored p d db)
    unfolding has_type same_field
    stored-IsLinked p d db l = set_other-IsLinked W laws p school _ _ refl refl (
        set_other-IsLinked W laws p score _ _ refl refl
          (set_other-IsLinked W laws p millis _ db refl refl l))

    stored_there : (p : EventPath) (d : Detection W I) (db : D) → Whole W (stored p d db) p
    unfolding has_type
    stored_there p d db =
        let one = set_value p millis (number d.millis) db in
        let two = set_value p score (number d.score) one in
        record {
          has_millis =
              set-Has W laws p p school millis _ two refl
                (set-Has W laws p p score millis _ one refl (set_there W laws p millis _ db refl));
          has_score =
              set-Has W laws p p school score _ two refl (set_there W laws p score _ one refl);
          has_school = set_there W laws p school _ two refl;
        }

    module _ (env : Services W I) where
      abbrev Fresh : Detection W I → D → Upload W I → Type 0
      Fresh d db u = Waits db u ⊎ (u.path ≡ path_of d)

      -- Storing a detection makes it whole, and keeps what is whole or has an address so.
      store_numbers-IsServed :
          (d : Detection W I) (h : Helper W I D)
          → IsLinked W h.database
          → All (Fresh d h.database) h.uploads
          → All (Waits h.database) h.url_requests
          → IsServed (store_numbers env d h)
      unfolding store_numbers
      store_numbers-IsServed d h l waiting asked =
          let p = path_of d in
          let db = stored p d h.database in
          let keep =
            λ (u : Upload W I) (w : Waits h.database u). stored-Whole p u.path d h.database w in
          record {
            linked = stored-IsLinked p d h.database l;
            waiting =
                All-map (Fresh d h.database) (Waits db) h.uploads
                  (λ u w. elim w [
                    | inl old ↦ keep u old
                    | inr e ↦ subst (λ q. Whole W db q) (sym e) (stored_there p d h.database)
                  ])
                  waiting;
            asked = All-map (Waits h.database) (Waits db) h.url_requests keep asked;
          }

      put_if_any-Served :
          (o : Option I) (d : Detection W I) (h : Helper W I D)
          → IsServed h
          → Yields
              (λ g. IsServed (store_numbers env d g))
              (put_if_any env o d (record h { user_ref = d.login }))
      unfolding put_if_any start_upload
      put_if_any-Served none d h v =
          store_numbers-IsServed d (record h { user_ref = d.login }) v.linked
            (All-map _ (Fresh d h.database) h.uploads (λ u w. inl w) v.waiting) v.asked
      put_if_any-Served (some image) d h v = Yields-bind _ (env.int32_text d.score) _ λ name _.
          Yields-bind _ (env.jpeg image) _ λ bytes _.
            store_numbers-IsServed d _ v.linked
              (All-append (Fresh d h.database) h.uploads _
                (All-map _ (Fresh d h.database) h.uploads (λ u w. inl w) v.waiting) (inr refl, tt))
              v.asked

      pub add_detection-IsServed :
          (d : Detection W I) (h : Helper W I D)
          → IsServed h
          → Yields IsServed (add_detection env d h)
      unfolding add_detection
      add_detection-IsServed d h v =
          Yields-bind IsServed (put_if_any env d.image d (record h { user_ref = d.login })) _
            λ g e. Yields-some _ _ g e (put_if_any-Served d.image d h v)

    answer_put-IsServed :
        (ok : Bool) (o : Option (Upload W I × List (Upload W I))) (h : Helper W I D)
        → IsServed h
        → Yields (λ r. Waits h.database r.0 × All (Waits h.database) r.1) o
        → IsServed (answer_put ok o h)
    unfolding answer_put
    answer_put-IsServed ok none h v k = v
    answer_put-IsServed true (some (u, rest)) h v k = record {
      linked = v.linked;
      waiting = k.1;
      asked = All-append (Waits h.database) h.url_requests (u ∷ []) v.asked (k.0, tt);
    }
    answer_put-IsServed false (some (u, rest)) h v k = record {
      linked = v.linked;
      waiting = k.1;
      asked = v.asked;
    }

    pub put_completed-IsServed :
        (n : ℕ) (ok : Bool) (h : Helper W I D) → IsServed h → IsServed (put_completed n ok h)
    unfolding put_completed
    put_completed-IsServed n ok h v =
        answer_put-IsServed ok _ h v (take_out-All (Waits h.database) n h.uploads v.waiting)

    answer_url-IsServed :
        (error : Bool) (address : Option Text) (o : Option (Upload W I × List (Upload W I)))
        (h : Helper W I D)
        → IsServed h
        → Yields (λ r. Waits h.database r.0 × All (Waits h.database) r.1) o
        → Yields IsServed (answer_url error address o h)
    unfolding answer_url set_url update_url has_type
    answer_url-IsServed error address none h v k = v
    answer_url-IsServed true address (some (u, rest)) h v k = record {
      linked = v.linked;
      waiting = v.waiting;
      asked = k.1;
    }
    answer_url-IsServed false none (some (u, rest)) h v k = tt
    answer_url-IsServed false (some t) (some (u, rest)) h v k =
        let db = set_value u.path url (text t) h.database in
        let keep = λ (x : Upload W I) (w : Waits h.database x).
          set-Whole W laws u.path x.path url (text t) h.database refl w in
        record {
          linked = set_url-IsLinked W laws u.path t h.database k.0 v.linked;
          waiting = All-map (Waits h.database) (Waits db) h.uploads keep v.waiting;
          asked = All-map (Waits h.database) (Waits db) rest keep k.1;
        }

    pub url_completed-IsServed :
        (n : ℕ) (error : Bool) (address : Option Text) (h : Helper W I D)
        → IsServed h
        → Yields IsServed (url_completed n error address h)
    unfolding url_completed
    url_completed-IsServed n error address h v =
        answer_url-IsServed error address _ h v
          (take_out-All (Waits h.database) n h.url_requests v.asked)

    answer_image-IsServed :
        (answer : Option (Option I)) (o : Option (Text × List Text)) (h : Helper W I D)
        → IsServed h
        → Yields IsServed (answer_image answer o h)
    unfolding answer_image
    answer_image-IsServed answer none h v = v
    answer_image-IsServed none (some (_, rest)) h v = record {
      linked = v.linked;
      waiting = v.waiting;
      asked = v.asked;
    }
    answer_image-IsServed (some none) (some (_, rest)) h v = tt
    answer_image-IsServed (some (some i)) (some (_, rest)) h v = record {
      linked = v.linked;
      waiting = v.waiting;
      asked = v.asked;
    }

    pub image_loaded-IsServed :
        (n : ℕ) (answer : Option (Option I)) (h : Helper W I D)
        → IsServed h
        → Yields IsServed (image_loaded n answer h)
    unfolding image_loaded
    image_loaded-IsServed n answer h v = answer_image-IsServed answer _ h v
