-- ===== src/App/Firebase/Whole.antt =====
-- What FirebaseHelper has written when a detection has an address.
use solta.Base.{
  ◌≡◌, refl, sym, subst, ◌∙◌, inl, inr, Bool, true, false, ◌&&◌, some, [], ◌∷◌, if◌then◌else◌,
  Bool-cases, arith, ◌==◌, ==→eq,
}
use solta.App.Login.{Text}
use solta.App.Firebase.Database.{
  Database, IsDatabase, EventPath, Value, number, text, Field, millis, score, school, url,
  same_field, same_text, same_path,
}

and-right : (x y : Bool) → (x && y) ≡ true → y ≡ true
and-right true y e = e
and-right false y e = cc

and-left : (x y : Bool) → (x && y) ≡ true → x ≡ true
and-left true y e = refl
and-left false y e = cc

same_text_refl : (t : Text) → same_text t t ≡ true
unfolding same_text
same_text_refl [] = refl
same_text_refl (x ∷ t) = ground (arith, same_text_refl t)

pub same_path_refl : (p : EventPath) → same_path p p ≡ true
unfolding same_path
same_path_refl p = ground (arith, same_text_refl p.login, same_text_refl p.date)

same_text-eq : (s t : Text) → same_text s t ≡ true → s ≡ t
unfolding same_text
same_text-eq [] [] e = refl
same_text-eq [] (y ∷ t) e = cc
same_text-eq (x ∷ s) [] e = cc
same_text-eq (x ∷ s) (y ∷ t) e = elim (Bool-cases (x == y)) [
  | inl h ↦
      let rest : same_text s t ≡ true = rw h at e in λ i. ==→eq x y h i ∷ same_text-eq s t rest i
  | inr h ↦ let no : false ≡ true = rw h at e in cc
]

pub same_path-eq : (p q : EventPath) → same_path p q ≡ true → p ≡ q
unfolding same_path
same_path-eq p q e =
    let dates = same_text-eq p.date q.date (and-right (same_text p.login q.login) _ e) in
    let logins = same_text-eq p.login q.login (and-left (same_text p.login q.login) _ e) in
    λ i. record { login = logins i; date = dates i }

same_field-eq : (g k : Field) → same_field g k ≡ true → g ≡ k
unfolding same_field
same_field-eq g k e = ground arith

same_field_refl : (k : Field) → same_field k k ≡ true
unfolding same_field
same_field_refl millis = refl
same_field_refl score = refl
same_field_refl school = refl
same_field_refl url = refl

module _ {W : Type 0} where
  -- The types that HistoryVC casts to.
  unfoldable pub has_type : Field → Value W → Bool
  has_type millis (number x) = true
  has_type score (number x) = true
  has_type school (text t) = true
  has_type url (text t) = true
  has_type _ _ = false

module _ {D : Type 0} (W : Type 0) ⦃b : Database W D⦄ where
  open b use {set_value, value}

  pub record Has (db : D) (p : EventPath) (k : Field) : Type 0 where
    pub stored : Value W
    pub at_field : value db p k ≡ some stored
    pub typed : has_type k stored ≡ true

  pub record Whole (db : D) (p : EventPath) : Type 0 where
    pub has_millis : Has db p millis
    pub has_score : Has db p score
    pub has_school : Has db p school

  -- Each detection that has an address is whole, and its address is a text.
  abbrev pub IsLinked : D → Type 0
  IsLinked db = (p : EventPath) (v : Value W) → value db p url ≡ some v → Has db p url × Whole db p

  module _ (laws : IsDatabase W D) where
    pub set-Has :
        (p q : EventPath) (g k : Field) (v : Value W) (db : D)
        → has_type g v ≡ true
        → Has db q k
        → Has (set_value p g v db) q k
    set-Has p q g k v db t h = elim (Bool-cases (same_path p q && same_field g k)) [
      | inl e ↦ record {
        stored = v;
        at_field = laws.value-set_value p q g k v db ∙ rw e refl;
        typed =
            subst (λ x. has_type x v ≡ true) (same_field-eq g k (and-right (same_path p q) _ e)) t;
      }
      | inr e ↦ record {
        stored = h.stored;
        at_field = laws.value-set_value p q g k v db ∙ rw e (h.at_field);
        typed = h.typed;
      }
    ]

    pub set_there :
        (p : EventPath) (k : Field) (v : Value W) (db : D)
        → has_type k v ≡ true
        → Has (set_value p k v db) p k
    set_there p k v db t = record {
      stored = v;
      at_field = laws.value-set_value p p k k v db ∙ rw (same_path_refl p, same_field_refl k) refl;
      typed = t;
    }

    pub set-Whole :
        (p q : EventPath) (g : Field) (v : Value W) (db : D)
        → has_type g v ≡ true
        → Whole db q
        → Whole (set_value p g v db) q
    set-Whole p q g v db t w = record {
      has_millis = set-Has p q g millis v db t w.has_millis;
      has_score = set-Has p q g score v db t w.has_score;
      has_school = set-Has p q g school v db t w.has_school;
    }

    -- Setting a child other than the address leaves every address as it is.
    pub set_other-IsLinked :
        (p : EventPath) (g : Field) (v : Value W) (db : D)
        → has_type g v ≡ true
        → same_field g url ≡ false
        → IsLinked db
        → IsLinked (set_value p g v db)
    set_other-IsLinked p g v db t n l q u e =
        let same : value db q url ≡ some u =
          sym (laws.value-set_value p q g url v db ∙ missed (same_path p q)) ∙ e in
        let r = l q u same in (set-Has p q g url v db t r.0, set-Whole p q g v db t r.1)
      where
        missed :
            (c : Bool) → (if c && same_field g url then some v else value db q url) ≡ value db q url
        missed true = rw n refl
        missed false = refl

    pub set_url-IsLinked :
        (p : EventPath) (a : Text) (db : D)
        → Whole db p
        → IsLinked db
        → IsLinked (set_value p url (text a) db)
    unfolding has_type
    set_url-IsLinked p a db w l q u e = elim (Bool-cases (same_path p q)) [
      | inl s ↦
          subst
            (λ r. Has (set_value p url (text a) db) r url × Whole (set_value p url (text a) db) r)
            (same_path-eq p q s)
            (set_there p url (text a) db refl, set-Whole p p url (text a) db refl w)
      | inr s ↦
          let same : value db q url ≡ some u =
            sym (laws.value-set_value p q url url (text a) db ∙ rw s refl) ∙ e in
          let r = l q u same in
          (set-Has p q url url (text a) db refl r.0, set-Whole p q url (text a) db refl r.1)
    ]
