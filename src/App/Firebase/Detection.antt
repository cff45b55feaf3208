-- ===== src/App/Firebase/Detection.antt =====
-- `struct Detection` of FirebaseHelper.swift, without its location and its imageURL, which nothing
-- reads.
use solta.Base.{ℕ, Option, some, List, [], ◌∷◌}
use solta.App.Trap.{◌>>=◌}
use solta.App.Login.{Text, login_of_user}

abbrev pub second_page : Text
second_page = 50 ∷ 110 ∷ 100 ∷ 112 ∷ 97 ∷ 103 ∷ 101 ∷ 46 ∷ 112 ∷ 110 ∷ 103 ∷ []

abbrev pub own_school : Text
own_school =
    67 ∷ 114 ∷ 97 ∷ 105 ∷ 103 ∷ 32 ∷ 75 ∷ 105 ∷ 101 ∷ 108 ∷ 98 ∷ 117 ∷ 114 ∷ 103 ∷ 101 ∷ 114 ∷ 32
    ∷ 83 ∷ 101 ∷ 99 ∷ 111 ∷ 110 ∷ 100 ∷ 97 ∷ 114 ∷ 121 ∷ 32 ∷ 83 ∷ 99 ∷ 104 ∷ 111 ∷ 111 ∷ 108 ∷ []

pub record Detection (W I : Type 0) : Type 0 where
  pub login : Text
  pub date_string : Text
  pub millis : W
  pub image : Option I
  pub image_url_string : Option Text
  pub score : W
  pub school : Text

-- What the SDKs give: the formatted date of a time, the email of the user, the JPEG data of an image
-- and the decimal text of `Int32(score)`, which traps where the score has no Int32.
pub record Services (W I : Type 0) : Type 0 where
  pub format_date : W → Text
  pub user_email : Option Text
  pub jpeg : I → Option (List ℕ)
  pub int32_text : W → Option Text

module _ {W I : Type 0} (env : Services W I) where
  -- `init(image:score:)` at the time `now`
  unfoldable pub new_detection : W → Option I → W → Option (Detection W I)
  new_detection now image score = login_of_user env.user_email >>= λ login. some (record {
    login = login;
    date_string = env.format_date now;
    millis = now;
    image = image;
    image_url_string = some second_page;
    score = score;
    school = own_school;
  })

  -- `init()`; `first_image` is the image named 2ndpage.png.
  unfoldable pub empty_detection : Option I → W → W → Option (Detection W I)
  empty_detection first_image now zero_score = new_detection now first_image zero_score

module _ {W I : Type 0} where
  -- `updateURL(url:)`
  unfoldable pub update_url : Text → Detection W I → Detection W I
  update_url url d = record d { image_url_string = some url }
