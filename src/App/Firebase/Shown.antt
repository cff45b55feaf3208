-- ===== src/App/Firebase/Shown.antt =====
-- HistoryVC on what FirebaseHelper has written, and the address of one detection.
use solta.Base.{◌≡◌, refl, sym, subst, ◌∙◌, Option, none, some, List, [], ◌∷◌, ◌++◌, All, arith}
use solta.App.Trap.{◌>>=◌, Returns, Returns-bind, Returns-Yields, Yields, Yields-bind, Yields-some}
use solta.App.Login.{Text}
use solta.App.Firebase.Database.{Database, IsDatabase, EventPath, url}
use solta.App.Firebase.Detection.{Detection, Services}
use solta.App.Firebase.Helper.{Helper, erase_detections}
use solta.App.Firebase.History.{History, on_children, on_value, read_children}
use solta.App.Firebase.Calls.{
  Call, add, put_answer, url_answer, data_answer, erase, snapshot, serve, serve_all,
}
use solta.App.Firebase.Whole.{IsLinked}
use solta.App.Firebase.Served.{
  IsServed, add_detection-IsServed, put_completed-IsServed, url_completed-IsServed,
  image_loaded-IsServed,
}
use solta.App.Firebase.Rows.{Rows, read_children-Rows}

module _ {W I D : Type 0} ⦃b : Database W D⦄ where
  open b use {value, children}

  -- What a snapshot of users/<login> makes of the table.
  pub data Shown (db : D) (login : Text) (q r : History W I × Helper W I D) : Type 0 where
    not_there : children db login ≡ [] → r ≡ q → Shown db login q r
    shown :
        (ds : List (Detection W I))
        → Rows db login q.1.image (children db login) ds
        → r.0.detections ≡ q.0.events_from_firebase ++ ds
        → r.0.events_from_firebase ≡ r.0.detections
        → r.1 ≡ record q.1 { downloads = r.1.downloads }
        → Shown db login q r

  on_children-Shown :
      (unset_format : W → Text) (db : D) (login : Text) (dates : List Text)
      (q : History W I × Helper W I D)
      → children db login ≡ dates
      → IsLinked W db
      → Returns (Shown db login q) (on_children unset_format db login dates q)
  unfolding on_children
  on_children-Shown unset_format db login [] q e l = not_there e refl
  on_children-Shown unset_format db login (date ∷ dates) q e l =
      Returns-bind _ (Shown db login q)
        (read_children unset_format db login (date ∷ dates) (q.0.events_from_firebase, q.1)) _
        (read_children-Rows unset_format db login (date ∷ dates) (q.0.events_from_firebase, q.1) l)
        λ r (ds, rows, k).
          shown ds (subst (λ c. Rows db login q.1.image c ds) (sym e) rows) k.gathered refl k.kept

  pub on_value-Shown :
      (unset_format : W → Text) (db : D) (login : Text) (q : History W I × Helper W I D)
      → IsLinked W db
      → Returns (Shown db login q) (on_value unset_format db login q)
  unfolding on_value
  on_value-Shown unset_format db login q l =
      on_children-Shown unset_format db login (children db login) q refl l

  IsServed-Shown :
      (login : Text) (q r : History W I × Helper W I D)
      → IsServed q.1
      → Shown q.1.database login q r
      → IsServed r.1
  IsServed-Shown login q r v (not_there e same) =
      subst (λ (x : History W I × Helper W I D). IsServed x.1) (sym same) v
  IsServed-Shown login q r v (shown ds rows d e k) =
      subst IsServed (sym k) (record { linked = v.linked; waiting = v.waiting; asked = v.asked })

  pair-IsServed :
      (v : History W I) (o : Option (Helper W I D))
      → Yields (λ (h : Helper W I D). IsServed h) o
      → Yields (λ (r : History W I × Helper W I D). IsServed r.1) (o >>= λ h. some (v, h))
  pair-IsServed v o k =
      Yields-bind (λ (r : History W I × Helper W I D). IsServed r.1) o (λ h. some (v, h))
        λ h e. Yields-some (λ (g : Helper W I D). IsServed g) o h e k

  module _ (laws : IsDatabase W D) (env : Services W I) (unset_format : W → Text) where
    serve-IsServed :
        (c : Call W I) (q : History W I × Helper W I D)
        → IsServed q.1
        → Yields (λ r. IsServed r.1) (serve env unset_format c q)
    unfolding serve erase_detections
    serve-IsServed (add d) q v = pair-IsServed q.0 _ (add_detection-IsServed laws env d q.1 v)
    serve-IsServed (put_answer n stored) q v = put_completed-IsServed laws n stored q.1 v
    serve-IsServed (url_answer n error address) q v =
        pair-IsServed q.0 _ (url_completed-IsServed laws n error address q.1 v)
    serve-IsServed (data_answer n answer) q v =
        pair-IsServed q.0 _ (image_loaded-IsServed laws n answer q.1 v)
    serve-IsServed erase q v = record { linked = v.linked; waiting = v.waiting; asked = v.asked }
    serve-IsServed (snapshot login) q v =
        Returns-Yields (Shown q.1.database login q) (λ r. IsServed r.1) _
          (λ r k. IsServed-Shown login q r v k)
          (on_value-Shown unset_format q.1.database login q v.linked)

    serve_all-IsServed :
        (cs : List (Call W I)) (q : History W I × Helper W I D)
        → IsServed q.1
        → Yields (λ r. IsServed r.1) (serve_all env unset_format cs q)
    unfolding serve_all
    serve_all-IsServed [] q v = v
    serve_all-IsServed (c ∷ cs) q v =
        Yields-bind _ (serve env unset_format c q) _
          λ r e. serve_all-IsServed cs r (Yields-some _ _ r e (serve-IsServed c q v))

    -- Where the database keeps what is set (`IsDatabase`), and whatever FirebaseHelper was called
    -- for, with the answers of the storage in any order, errors or not there yet: from a database
    -- without addresses, and with no answer due, a snapshot behind calls that did not stop the
    -- program is read by HistoryVC without a failing cast. Its rows are those that were gathered
    -- from the snapshots before, and behind them one for each child that has an address, with the
    -- score, the time, the school and the address of the child, and with the one image that the
    -- helper has at that time. A snapshot without children changes nothing.
    pub serve_all-Shown :
        (cs : List (Call W I)) (q r : History W I × Helper W I D) (login : Text)
        → ((p : EventPath) → value q.1.database p url ≡ none)
        → q.1.uploads ≡ []
        → q.1.url_requests ≡ []
        → serve_all env unset_format cs q ≡ some r
        → Returns (Shown r.1.database login r) (serve env unset_format (snapshot login) r)
    unfolding serve
    serve_all-Shown cs q r login fresh u a e =
        let start : IsServed q.1 = record {
          linked = λ p v at. absurd (let no = sym (fresh p) ∙ at in ground arith);
          waiting = subst (All _) (sym u) tt;
          asked = subst (All _) (sym a) tt;
        } in
        let served = Yields-some _ _ r e (serve_all-IsServed cs q start) in
        on_value-Shown unset_format r.1.database login r served.linked
