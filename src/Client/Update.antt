-- ===== src/Client/Update.antt =====
-- client/client.go: what `UpdateFromJSON` lets through.
use goiardi.Base.{
  ◌≡◌, refl, ap, sym, ◌∙◌, subst, Bool, true, false, not, ◌&&◌, Option, none, some, ◌==◌, ==_iff,
  nat_eq, list_eq, if◌then◌else◌, arith, >>=-eq-some, ◌⊎◌, inl, inr, List, contains, list_beq,
}
use goiardi.Base.Text.{Text, codes}
use goiardi.Datastore.{Gob, DataStore}
use goiardi.Datastore.NilArrays.{Reflect, Members, none_left, member, Value, null, boolean, string}
use goiardi.Objects.{Client, Object, Result, ok, err, Gerror}
use goiardi.Util.Members.{find_member, get_member}
use goiardi.Util.Validations.{validate_as_string, validate_as_bool}
use goiardi.Client.{
  update_from_json, and_also, invalid_key, valid_elements, class_field, admin_field,
  validator_field, is_last_admin,
}

and_also-inv :
    {A B : Type 0} (m : Result A) (f : A → Option (Result B)) {x : B}
    → and_also m f ≡ some (ok x)
    → (a : A) × (m ≡ ok a) × (f a ≡ some (ok x))
and_also-inv (err e) f h = ground (arith, h)
and_also-inv (ok a) f h = (a, refl, h)

if-inv :
    {B : Type 0} (t : Bool) (e : Gerror) (m : Option (Result B)) {x : B}
    → (if t then some (err e) else m) ≡ some (ok x)
    → (t ≡ false) × (m ≡ some (ok x))
if-inv true e m h = ground (arith, h)
if-inv false e m h = (refl, h)

none-inv :
    {B : Type 0} (o : Option Gerror) (m : Option (Result B)) {x : B}
    → (elim o as (λ _. Option (Result B)) [ some e ↦ some (err e) | none ↦ m ]) ≡ some (ok x)
    → (o ≡ none) × (m ≡ some (ok x))
none-inv none m h = (refl, h)
none-inv (some e) m h = ground (arith, h)

-- The last test, on the two values.
last-inv :
    {B : Type 0} (t : Bool) (e : Gerror) (c : B) {x : B}
    → some (if t then err e else ok c) ≡ some (ok x)
    → (t ≡ false) × (c ≡ x)
last-inv true e c h = ground (arith, h)
last-inv false e c h = (refl, ground (arith, h))

-- A class that is sent is the one wanted, and where none is sent the client keeps its own.
abbrev pub IsClass : (wanted own : Text) → Value → Text → Type 0
IsClass wanted own sent got =
    ((sent ≡ string wanted) × (got ≡ wanted)) ⊎ ((sent ≡ null) × (got ≡ own))

-- A flag that is sent is the one that is set, and one that is not sent is off.
abbrev pub IsFlag : Option Value → Bool → Type 0
IsFlag sent got = ((sent ≡ none) × (got ≡ false)) ⊎ (sent ≡ some (boolean got))

ok_inj : {A : Type 0} {x y : A} → ok x ≡ ok y → x ≡ y
ok_inj h = ground (arith, h)

some_inj : {A : Type 0} {x y : A} → some x ≡ some y → x ≡ y
some_inj h = ground (arith, h)

if-ok :
    {A : Type 0} (t : Bool) (x : A) (e : Gerror) {y : A}
    → (if t then ok x else err e) ≡ ok y
    → (t ≡ true) × (x ≡ y)
if-ok true x e h = (refl, ok_inj h)
if-ok false x e h = ground (arith, h)

class_field-IsClass :
    (field wanted own : Text) (v : Value) {got : Text}
    → class_field field wanted own v ≡ ok got
    → IsClass wanted own v got
unfolding class_field list_eq list_beq
class_field-IsClass field wanted own (string s) h =
    let (e, made) = if-ok (s == wanted) s _ h in
    let same = (==_iff s wanted).0 e in inl (ap string same, sym made ∙ same)
class_field-IsClass field wanted own null h = inr (refl, sym (ok_inj h))
class_field-IsClass field wanted own _ h = ground (arith, h)

validator_field-IsFlag : (v : Option Value) {got : Bool} → validator_field v ≡ ok got → IsFlag v got
unfolding validator_field validate_as_bool
validator_field-IsFlag none h = inl (refl, ground (arith, h))
validator_field-IsFlag (some (boolean b)) h = inr (ap (λ x. some (boolean x)) (ok_inj h))
validator_field-IsFlag (some _) h = ground (arith, h)

-- The value of "admin" that is let through.
admin_field_lem :
    (was : Bool) (last : Option Bool) (v : Option Value) (ab : Bool)
    → admin_field was last v ≡ some (ok ab)
    → IsFlag v ab × (was ≡ true → v ≡ some (boolean false) → last ≡ some false)
unfolding admin_field validate_as_bool
admin_field_lem was last none ab h = (inl (refl, ground (arith, h)), λ a e. ground (arith, e))
admin_field_lem true last (some (boolean true)) ab h =
    (inr (ap (λ x. some (boolean x)) (ok_inj (some_inj h))), λ a e. ground (arith, e))
admin_field_lem false last (some (boolean true)) ab h =
    (inr (ap (λ x. some (boolean x)) (ok_inj (some_inj h))), λ a e. ground (arith, e))
admin_field_lem true none (some (boolean false)) ab h = ground (arith, h)
admin_field_lem true (some true) (some (boolean false)) ab h = ground (arith, h)
admin_field_lem true (some false) (some (boolean false)) ab h =
    (inr (ap (λ x. some (boolean x)) (ok_inj (some_inj h))), λ a e. refl)
admin_field_lem false last (some (boolean false)) ab h =
    (inr (ap (λ x. some (boolean x)) (ok_inj (some_inj h))), λ a e. ground (arith, a))
admin_field_lem was last (some _) ab h = ground (arith, h)

invalid_key-valid :
    (valid : List Text) (json : Members) (k : Text) (v : Value)
    → invalid_key valid json ≡ none
    → find_member k json ≡ some v
    → contains valid k ≡ true
unfolding invalid_key find_member
invalid_key-valid valid none_left k v h e = ground (arith, e)
invalid_key-valid valid (member j w m) k v h e =
    ground (arith, ==_iff j k, λ (p : j ≡ k). ap (contains valid) p, invalid_key-valid valid m k v)

validate_as_string-ok : (v : Value) {s : Text} → validate_as_string v ≡ ok s → v ≡ string s
unfolding validate_as_string
validate_as_string-ok (string t) h = ap string (ok_inj h)
validate_as_string-ok _ h = ground (arith, h)

module _ ⦃r : Reflect Object⦄ (g : Gob Object) where
  open g use {Bytes}

  -- What an update that is accepted has checked and set.
  pub record IsUpdate (ds : DataStore Bytes) (c : Client) (json : Members) (c' : Client)
      : Type 0 where
    pub named : get_member (codes "name") json ≡ string c.name
    pub known :
        (k : Text) (v : Value) → find_member k json ≡ some v → contains valid_elements k ≡ true
    pub classed :
        IsClass
          (codes "Chef::ApiClient")
          c.json_class
          (get_member (codes "json_class") json)
          c'.json_class
    pub typed :
        IsClass (codes "client") c.chef_type (get_member (codes "chef_type") json) c'.chef_type
    pub admin_sent : IsFlag (find_member (codes "admin") json) c'.admin
    pub validator_sent : IsFlag (find_member (codes "validator") json) c'.validator
    pub exclusive : (c'.admin && c'.validator) ≡ false
    pub same : c' ≡ record c {
      admin = c'.admin;
      validator = c'.validator;
      chef_type = c'.chef_type;
      json_class = c'.json_class;
    }
    pub guarded :
        c.admin ≡ true
        → find_member (codes "admin") json ≡ some (boolean false)
        → is_last_admin g ds c ≡ some false

  -- What `UpdateFromJSON` lets through: the object names the client and has known keys only, each
  -- of the two classes is the one wanted or nil, and "admin" and "validator" are Booleans where they
  -- are sent and not both true. Then the two flags are as sent, or off where they are not sent, a
  -- class that is nil stays the client's own, and nothing else is changed. Where "admin" is sent as
  -- false, an admin is not the last one. Where it is not sent, the client is no admin any more, the
  -- last one included.
  pub update_from_json_lem :
      (ds : DataStore Bytes) (c c' : Client) (json : Members)
      → update_from_json g ds c json ≡ some (ok c')
      → IsUpdate ds c json c'
  unfolding update_from_json
  update_from_json_lem ds c c' json h =
      let (name, named, h1) =
        and_also-inv (validate_as_string (get_member (codes "name") json)) _ h in
      let (own, h2) = if-inv (not (c.name == name)) _ _ h1 in
      let (known, h3) = none-inv (invalid_key valid_elements json) _ h2 in
      let (json_class, is_class, h4) =
        and_also-inv
          (class_field (codes "json_class") (codes "Chef::ApiClient") c.json_class
            (get_member (codes "json_class") json))
          _ h3 in
      let (chef_type, is_type, h5) =
        and_also-inv
          (class_field (codes "chef_type") (codes "client") c.chef_type
            (get_member (codes "chef_type") json))
          _ h4 in
      let (ab', tested, h6) =
        >>=-eq-some (admin_field c.admin (is_last_admin g ds c) (find_member (codes "admin") json))
          _ h5 in
      let (ab, e, h7) = and_also-inv ab' _ h6 in
      let (vb, is_validator, h8) =
        and_also-inv (validator_field (find_member (codes "validator") json)) _ h7 in
      let (apart, made) = last-inv (ab && vb) _ _ h8 in
      let (is_admin, kept) =
        admin_field_lem c.admin (is_last_admin g ds c) (find_member (codes "admin") json) ab
          (tested ∙ ap some e) in
      subst (IsUpdate ds c json) made (record {
        named =
            validate_as_string-ok _ named
            ∙ ap string (sym ((==_iff c.name name).0 (not_not (c.name == name) own)));
        known = λ k v. invalid_key-valid valid_elements json k v known;
        classed = class_field-IsClass (codes "json_class") _ _ _ is_class;
        typed = class_field-IsClass (codes "chef_type") _ _ _ is_type;
        admin_sent = is_admin;
        validator_sent = validator_field-IsFlag _ is_validator;
        exclusive = apart;
        same = refl;
        guarded = kept;
      })
    where
      not_not : (t : Bool) → not t ≡ false → t ≡ true
      not_not t h = ground (arith, h)
