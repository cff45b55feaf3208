-- ===== src/App/Firebase/Calls.antt =====
-- The calls of FirebaseHelper and the answers of the SDKs to it and to HistoryVC, in an order.
use solta.Base.{ℕ, Bool, Option, some, List, [], ◌∷◌}
use solta.App.Trap.{◌>>=◌}
use solta.App.Login.{Text}
use solta.App.Firebase.Database.{Database}
use solta.App.Firebase.Detection.{Detection, Services}
use solta.App.Firebase.Helper.{
  Helper, add_detection, put_completed, url_completed, image_loaded, erase_detections,
}
use solta.App.Firebase.History.{History, on_value}

pub data Call (W I : Type 0) : Type 0 where
  add : Detection W I → Call W I
  put_answer : ℕ → Bool → Call W I
  url_answer : ℕ → Bool → Option Text → Call W I
  data_answer : ℕ → Option (Option I) → Call W I
  erase : Call W I
  snapshot : Text → Call W I  -- of users/<login>, as the database is

module _ {W I D : Type 0} ⦃b : Database W D⦄ (env : Services W I) (unset_format : W → Text) where
  abbrev on_helper : Option (Helper W I D) → History W I → Option (History W I × Helper W I D)
  on_helper o v = o >>= λ h. some (v, h)

  unfoldable pub serve : Call W I → History W I × Helper W I D → Option (History W I × Helper W I D)
  serve (add d) (v, h) = on_helper (add_detection env d h) v
  serve (put_answer n stored) (v, h) = some (v, put_completed n stored h)
  serve (url_answer n error address) (v, h) = on_helper (url_completed n error address h) v
  serve (data_answer n answer) (v, h) = on_helper (image_loaded n answer h) v
  serve erase (v, h) = some (v, erase_detections h)
  serve (snapshot login) (v, h) = on_value unset_format h.database login (v, h)

  unfoldable pub serve_all :
      List (Call W I) → History W I × Helper W I D → Option (History W I × Helper W I D)
  serve_all [] r = some r
  serve_all (c ∷ cs) r = serve c r >>= serve_all cs
