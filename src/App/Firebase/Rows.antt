-- ===== src/App/Firebase/Rows.antt =====
-- What HistoryVC reads from a snapshot.
use solta.Base.{
  ◌≡◌, refl, sym, ap, subst, ◌∙◌, true, Option, none, some, List, [], ◌∷◌, ◌++◌, append-nil,
  append_assoc, arith,
}
use solta.App.Trap.{Returns, Returns-bind, Returns-weaken}
use solta.App.Login.{Text}
use solta.App.Firebase.Database.{
  Database, EventPath, Value, number, text, millis, score, school, url,
}
use solta.App.Firebase.Detection.{Detection}
use solta.App.Firebase.Helper.{Helper, get_image}
use solta.App.Firebase.History.{
  Gathered, path_at, as_number, as_text, is_there, from_snapshot, read_child, read_children,
}
use solta.App.Firebase.Whole.{Has, Whole, IsLinked, has_type}

module _ {W : Type 0} where
  as_text-Has :
      (o : Option (Value W)) (k : Value W)
      → o ≡ some k
      → has_type school k ≡ true
      → (t : Text) × (o ≡ some (text t))
  unfolding has_type
  as_text-Has o (text t) e h = (t, e)
  as_text-Has o (number x) e h = absurd (ground arith)

  as_number-Has :
      (o : Option (Value W)) (k : Value W)
      → o ≡ some k
      → has_type score k ≡ true
      → (x : W) × (o ≡ some (number x))
  unfolding has_type
  as_number-Has o (number x) e h = (x, e)
  as_number-Has o (text t) e h = absurd (ground arith)

module _ {W I D : Type 0} ⦃b : Database W D⦄ where
  open b use {value}

  -- `d` shows what the database has at `p`, with the image `shown`.
  pub record IsRow (db : D) (p : EventPath) (shown : I) (d : Detection W I) : Type 0 where
    pub address : Text
    pub has_url : value db p url ≡ some (text address)
    pub has_score : value db p score ≡ some (number d.score)
    pub has_millis : value db p millis ≡ some (number d.millis)
    pub has_school : value db p school ≡ some (text d.school)
    pub shows : d.image ≡ some shown
    pub address_shown : d.image_url_string ≡ some address

  -- The rows for the children `dates` of users/<login>: one for each child with an address, in order.
  pub data Rows (db : D) (login : Text) (shown : I)
      : List Text → List (Detection W I) → Type 0 where
    none_left : Rows db login shown [] []
    without_url :
        (date : Text) (dates : List Text) (ds : List (Detection W I))
        → value db (path_at login date) url ≡ none
        → Rows db login shown dates ds
        → Rows db login shown (date ∷ dates) ds
    with_url :
        (date : Text) (dates : List Text) (d : Detection W I) (ds : List (Detection W I))
        → IsRow db (path_at login date) shown d
        → Rows db login shown dates ds
        → Rows db login shown (date ∷ dates) (d ∷ ds)

  -- `s` is behind `r` by the rows `ds`, and the helper has only asked for images.
  pub record Reads (r s : Gathered W I D) (ds : List (Detection W I)) : Type 0 where
    pub gathered : s.0 ≡ r.0 ++ ds
    pub kept : s.1 ≡ record r.1 { downloads = s.1.downloads }

  data ReadsChild (db : D) (p : EventPath) (r s : Gathered W I D) : Type 0 where
    no_row : value db p url ≡ none → s ≡ r → ReadsChild db p r s
    row : (d : Detection W I) → IsRow db p r.1.image d → Reads r s (d ∷ []) → ReadsChild db p r s

  -- Rows of a child, then those of the children that follow.
  join :
      (db : D) (login date : Text) (dates : List Text) (r s t : Gathered W I D)
      (ds : List (Detection W I))
      → ReadsChild db (path_at login date) r s
      → Rows db login s.1.image dates ds
      → Reads s t ds
      → (es : List (Detection W I)) × Rows db login r.1.image (date ∷ dates) es × Reads r t es
  join db login date dates r s t ds (no_row e same) rows k =
      let kept : Reads r t ds = subst (λ x. Reads x t ds) same k in
      let shown : Rows db login r.1.image dates ds =
        subst (λ (x : Gathered W I D). Rows db login x.1.image dates ds) same rows in
      (ds, without_url date dates ds e shown, kept)
  join db login date dates r s t ds (row d is one) rows k =
      let image : s.1.image ≡ r.1.image = ap (λ (h : Helper W I D). h.image) one.kept in
      (
        d ∷ ds,
        with_url date dates d ds is (subst (λ i. Rows db login i dates ds) image rows),
        record {
          gathered = k.gathered ∙ ap (λ l. l ++ ds) one.gathered ∙ append_assoc r.0 (d ∷ []) ds;
          kept =
              k.kept ∙ ap (λ (h : Helper W I D). record h { downloads = t.1.downloads }) one.kept;
        },
      )

  module _ (unset_format : W → Text) (db : D) where
    -- A detection that is whole is read without a failing cast.
    from_snapshot-IsRow :
        (p : EventPath) (h : Helper W I D)
        → Has W db p url
        → Whole W db p
        → Returns
            (λ s. IsRow db p h.image s.0 × (s.1 ≡ record h { downloads = s.1.downloads }))
            (from_snapshot unset_format db p h)
    unfolding from_snapshot as_number as_text get_image has_type
    from_snapshot-IsRow p h u w =
        let (address, eu) = as_text-Has (value db p url) u.stored u.at_field u.typed in
        let (at, es) =
          as_text-Has (value db p school) w.has_school.stored w.has_school.at_field
            w.has_school.typed in
        let (s, ec) =
          as_number-Has (value db p score) w.has_score.stored w.has_score.at_field
            w.has_score.typed in
        let (m, em) =
          as_number-Has (value db p millis) w.has_millis.stored w.has_millis.at_field
            w.has_millis.typed in
        rw (ec, es, em, eu)
          (
            record {
              address = address;
              has_url = eu;
              has_score = ec;
              has_millis = em;
              has_school = es;
              shows = refl;
              address_shown = refl;
            },
            refl,
          )

    read_child-ReadsChild :
        (p : EventPath) (r : Gathered W I D) (o : Option (Value W))
        → IsLinked W db
        → value db p url ≡ o
        → Returns (ReadsChild db p r) (read_child unset_format db p r)
    unfolding read_child is_there
    read_child-ReadsChild p r none l e = rw e (no_row e refl)
    read_child-ReadsChild p r (some v) l e =
        let linked = l p v e in
        rw e (
          Returns-bind _ (ReadsChild db p r) (from_snapshot unset_format db p r.1) _
            (from_snapshot-IsRow p r.1 linked.0 linked.1)
            λ s one. row s.0 one.0 (record { gathered = refl; kept = one.1 }))

    pub read_children-Rows :
        (login : Text) (dates : List Text) (r : Gathered W I D)
        → IsLinked W db
        → Returns
            (λ s. (ds : List (Detection W I)) × Rows db login r.1.image dates ds × Reads r s ds)
            (read_children unset_format db login dates r)
    unfolding read_children
    read_children-Rows login [] r l =
        ([], none_left, record { gathered = sym (append-nil r.0); kept = refl })
    read_children-Rows login (date ∷ dates) r l =
        Returns-bind _ _ (read_child unset_format db (path_at login date) r)
          (read_children unset_format db login dates)
          (read_child-ReadsChild (path_at login date) r _ l refl)
          λ s one.
            Returns-weaken _ _ (read_children unset_format db login dates s)
              (λ t (ds, rows, k). join db login date dates r s t ds one rows k)
              (read_children-Rows login dates s l)
