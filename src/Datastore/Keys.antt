-- ===== src/Datastore/Keys.antt =====
-- datastore/datastore.go: `makeKey` keeps the keys of two types apart if the types hold no colon.
use goiardi.Base.{◌≡◌, false, ◌&&◌, [], ◌∷◌, arith, contains, ◌==◌, nat_eq, list_eq}
use goiardi.Base.Text.{Text}
use goiardi.Datastore.{make_key}

abbrev pub LacksColon : Text → Type 0
LacksColon t = contains t b':' ≡ false

-- Two keys are equal exactly if their types and their names are, if both types hold no colon.
pub ==_make_key :
    (t k t' k' : Text)
    → LacksColon t
    → LacksColon t'
    → (make_key t k == make_key t' k') ≡ ((t == t') && (k == k'))
unfolding make_key list_eq
==_make_key [] k [] k' h h' = ground arith
==_make_key [] k (y ∷ t') k' h h' = ground arith
==_make_key (x ∷ t) k [] k' h h' = ground arith
==_make_key (x ∷ t) k (y ∷ t') k' h h' = ground (arith, ==_make_key t k t' k')
