-- ===== src/Datastore/GetList.antt =====
-- datastore/datastore.go: `GetList`, alone and with a writer between its two reads.
use goiardi.Base.{
  ℕ, zero, suc, ◌<◌, ◌≡◌, ◌↔◌, refl, ap, ◌∙◌, none, some, List, [], ◌∷◌, arith, nat_eq, list_eq,
  length, contains, IsNodup,
}
use goiardi.Base.Text.{Text, text_ltb, text_ltb-asymm, text_ltb-nless_trans}
use goiardi.Base.Sort.{sort, IsSorted, sort-IsSorted, contains-sort, sort-IsNodup}
use goiardi.Base.Dict.{lookup, keys, is_some}
use goiardi.Datastore.{DataStore, make_key, or_nil, fill, get_list_between, get_list}
use goiardi.Datastore.Listing.{listed, IsObjectType, IsConsistent}

fill_exact : (ks : List Text) → fill (length ks) ks ≡ some ks
unfolding fill
fill_exact [] = refl
fill_exact (k ∷ ks) = ground (arith, fill_exact ks)

length-keys : {V : Type 0} (d : List (Text × V)) → length d ≡ length (keys d)
length-keys [] = refl
length-keys ((k, v) ∷ d) = ap suc (length-keys d)

get_list-eq-sort :
    {B : Type 0} (ds : DataStore B) (t : Text) → get_list ds t ≡ some (sort text_ltb (listed ds t))
unfolding get_list
get_list-eq-sort ds t =
    ground (arith, length-keys (or_nil (lookup t ds.obj_list)), fill_exact (listed ds t))

-- What a caller of `GetList` relies on.
pub record ListsType {B : Type 0} (ds : DataStore B) (t : Text) (ks : List Text) : Type 0 where
  pub exact : (k : Text) → contains ks k ≡ is_some (lookup (make_key t k) ds.dsc)
  pub sorted : IsSorted text_ltb ks
  pub once : IsNodup ks

pub get_list_lem :
    {B : Type 0} (ds : DataStore B) (t : Text)
    → IsObjectType t
    → IsConsistent ds
    → (ks : List Text) × (get_list ds t ≡ some ks) × ListsType ds t ks
get_list_lem ds t o h = (
  sort text_ltb (listed ds t),
  get_list-eq-sort ds t,
  record {
    exact = λ k. contains-sort text_ltb (listed ds t) k ∙ h.listed_iff t k o;
    sorted = sort-IsSorted text_ltb text_ltb-asymm text_ltb-nless_trans (listed ds t);
    once = sort-IsNodup text_ltb (listed ds t) (h.nodup t);
  },
)

fill-none : (n : ℕ) (ks : List Text) → (fill n ks ≡ none) ↔ (n < length ks)
unfolding fill
fill-none zero [] = ground arith
fill-none zero (k ∷ ks) = ground arith
fill-none (suc n) [] = ground (arith, fill-none n [])
fill-none (suc n) (k ∷ ks) = ground (arith, fill-none n ks)

-- `GetList` panics exactly if its type has more names when it reads them than when it took the
-- length, before it had the lock.
pub get_list_between-none :
    {B : Type 0} (before ds : DataStore B) (t : Text)
    → (get_list_between before ds t ≡ none) ↔ (length (listed before t) < length (listed ds t))
unfolding get_list_between
get_list_between-none before ds t = ground (
  arith,
  length-keys (or_nil (lookup t before.obj_list)),
  fill-none (length (or_nil (lookup t before.obj_list))) (listed ds t),
)
