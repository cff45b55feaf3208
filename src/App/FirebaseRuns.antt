-- ===== src/App/FirebaseRuns.antt =====
-- Runs of the login and of the detections in Firebase, and the theorems at concrete inputs.
use solta.Base.{
  ◌≡◌, refl, true, false, ◌&&◌, Option, none, some, List, [], ◌∷◌, ℕ, if◌then◌else◌, arith,
}
use solta.App.Trap.{Returns}
use solta.App.Login.{Text, get_login_from_email}
use solta.App.Login.First.{
  get_login_from_email-run, get_login_from_email-local, unless_empty, run_of, skip,
}
use solta.App.Firebase.Database.{
  Database, IsDatabase, EventPath, Value, text, Field, url, same_path, same_field,
}
use solta.App.Firebase.Detection.{Detection, Services, second_page, own_school}
use solta.App.Firebase.Helper.{Helper, path_of}
use solta.App.Firebase.History.{History}
use solta.App.Firebase.Calls.{Call, add, put_answer, url_answer, snapshot, serve, serve_all}
use solta.App.Firebase.Shown.{Shown, serve_all-Shown}
use solta.App.Firebase.Address.{add-put-url}

-- a.b@c
abbrev pub email : Text
email = 97 ∷ 46 ∷ 98 ∷ 64 ∷ 99 ∷ []

abbrev pub ab : Text
ab = 97 ∷ 98 ∷ []

get_login_from_email-run_example : get_login_from_email email ≡ unless_empty (97 ∷ 98 ∷ [])
unfolding run_of skip solta.App.Login.without
get_login_from_email-run_example = get_login_from_email-run email

get_login_from_email-local_example : get_login_from_email email ≡ some (97 ∷ 98 ∷ [])
unfolding solta.App.Login.without
get_login_from_email-local_example =
    get_login_from_email-local (97 ∷ 46 ∷ 98 ∷ []) (99 ∷ []) (refl, (refl, (refl, tt)))
      λ e. ground arith

-- A database that is the list of what was set, the last value first.
abbrev pub Log : Type 0
Log = List (EventPath × Field × Value ℕ)

abbrev pub look_up : Log → EventPath → Field → Option (Value ℕ)
look_up [] q k = none
look_up ((p, g, v) ∷ db) q k = if same_path p q && same_field g k then some v else look_up db q k

abbrev pub dates : Log → List Text
dates [] = []
dates ((p, _, _) ∷ db) = p.date ∷ dates db

instance abbrev pub log : Database ℕ Log
log = record {
  set_value = λ p g v db. (p, g, v) ∷ db;
  value = look_up;
  children = λ db login. dates db;
}

log-IsDatabase : IsDatabase ℕ Log
log-IsDatabase = record { value-set_value = λ p q g k v db. refl }

abbrev pub services : Services ℕ ℕ
services = record {
  format_date = λ now. now ∷ [];
  user_email = some email;
  jpeg = λ image. some (image ∷ []);
  int32_text = λ score. some (score ∷ []);
}

abbrev detection : Detection ℕ ℕ
detection = record {
  login = ab;
  date_string = 5 ∷ [];
  millis = 5;
  image = some 7;
  image_url_string = some second_page;
  score = 160;
  school = own_school;
}

abbrev pub initial : History ℕ ℕ × Helper ℕ ℕ Log
initial = (
  record { detections = []; events_from_firebase = [] },
  record {
    database = [];
    user_ref = [];
    bytes = [];
    detections = [];
    image = 0;
    uploads = [];
    url_requests = [];
    downloads = [];
  },
)

abbrev address : Text
address = 104 ∷ []

abbrev served : List (Call ℕ ℕ)
served = add detection ∷ put_answer 0 true ∷ url_answer 0 false (some address) ∷ []

abbrev or_initial : Option (History ℕ ℕ × Helper ℕ ℕ Log) → History ℕ ℕ × Helper ℕ ℕ Log
or_initial none = initial
or_initial (some r) = r

abbrev behind : History ℕ ℕ × Helper ℕ ℕ Log
behind = or_initial (serve_all services (λ m. m ∷ []) served initial)

serve_all-Shown_example :
    Returns (Shown behind.1.database ab behind) (serve services (λ m. m ∷ []) (snapshot ab) behind)
unfolding serve_all serve solta.App.Firebase.Helper.add_detection
    solta.App.Firebase.Helper.put_if_any solta.App.Firebase.Helper.start_upload
    solta.App.Firebase.Helper.store_numbers solta.App.Firebase.Helper.put_completed
    solta.App.Firebase.Helper.answer_put solta.App.Firebase.Helper.take_out
    solta.App.Firebase.Helper.url_completed solta.App.Firebase.Helper.answer_url
    solta.App.Firebase.Helper.set_url solta.App.Firebase.Detection.update_url
serve_all-Shown_example =
    serve_all-Shown log-IsDatabase services (λ m. m ∷ []) served initial behind ab (λ p. refl) refl
      refl refl

add-put-url_example :
    Returns
      (λ r. log.value r.1.database (path_of detection) url ≡ some (text address))
      (serve_all services (λ m. m ∷ []) served initial)
add-put-url_example =
    add-put-url log-IsDatabase services (λ m. m ∷ []) detection 7 (160 ∷ []) (7 ∷ []) true false
      address initial refl refl refl refl refl
