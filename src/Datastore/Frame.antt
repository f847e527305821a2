-- ===== src/Datastore/Frame.antt =====
-- datastore/datastore.go: the functions on node statuses and log events leave the objects and
-- their lists alone.
use goiardi.Base.{
  ℕ, ◌≡◌, refl, ap, ◌∙◌, true, false, List, [], arith, ◌==◌, ==_iff, nat_eq, list_eq, contains,
}
use goiardi.Base.Text.{Text, codes}
use goiardi.Base.Dict.{Dict, lookup, insert, lookup-insert}
use goiardi.Datastore.{DataStore, Entry, statuses, status_lists, make_key}
use goiardi.Datastore.Keys.{LacksColon, ==_make_key}
use goiardi.Datastore.Listing.{IsObjectType, reserved}
use goiardi.Datastore.NodeStatus.{
  Outcome, panicked, failed, returned, StatusError, no_statuses, no_status_list, Held, held, absent,
  wrong_type, ns_key, ns_list_key, put_maps, touch, or_made, or_fail, made, present, as_statuses,
  as_status_lists,
}

-- The lists are the same, and so is what is stored under the types of objects.
pub record Frame {B : Type 0} (ds ds' : DataStore B) : Type 0 where
  pub lists : ds'.obj_list ≡ ds.obj_list
  pub objects :
      (t k : Text) → IsObjectType t → lookup (make_key t k) ds'.dsc ≡ lookup (make_key t k) ds.dsc

reserved_ne :
    (t t' : Text) → contains reserved t ≡ true → contains reserved t' ≡ false → (t == t') ≡ false
reserved_ne t t' h h' = ground (arith, ==_iff t t', ap (contains reserved) {x = t} {y = t'})

module _ {B : Type 0} where
  pub Frame-refl : (ds : DataStore B) → Frame ds ds
  Frame-refl ds = record { lists = refl; objects = λ t k o. refl }

  pub Frame-trans : (a b c : DataStore B) → Frame a b → Frame b c → Frame a c
  Frame-trans a b c h k = record {
    lists = k.lists ∙ h.lists;
    objects = λ t n o. k.objects t n o ∙ h.objects t n o;
  }

  pub Frame-touch : (ds : DataStore B) → Frame ds (touch ds)
  Frame-touch ds = record { lists = refl; objects = λ t k o. refl }

  -- a write under a reserved type
  pub Frame-put :
      (ds : DataStore B) (t k : Text) (x : Entry B)
      → LacksColon t
      → contains reserved t ≡ true
      → Frame ds (record ds { dsc = insert (make_key t k) x ds.dsc })
  Frame-put ds t k x c r = record {
    lists = refl;
    objects = λ t' k' o.
        simp (lookup-insert, ==_make_key t k t' k' c o.lacks_colon)
          (ground (arith, reserved_ne t t' r o.unreserved));
  }

  pub Frame-put_maps :
      (ds : DataStore B) (ns : Dict ℕ B) (nslist : Dict Text (List ℕ))
      → Frame ds (put_maps ds ns nslist)
  unfolding put_maps list_eq
  Frame-put_maps ds ns nslist =
      let ds1 : DataStore B = record ds { dsc = insert ns_key (statuses ns) ds.dsc } in
      Frame-trans ds ds1 _
        (Frame-put ds (codes "nodestatus") (codes "nodestatuses") (statuses ns) refl refl)
        (Frame-put ds1 (codes "nodestatuslist") (codes "nodestatuslists") (status_lists nslist) refl
          refl)

  -- What holds of every store that a call leaves, also beside an error.
  abbrev LeavesAt : {A : Type 0} → (DataStore B → Type 0) → Outcome (DataStore B) A → Type 0
  LeavesAt P panicked = Unit
  LeavesAt P (failed e ds) = P ds
  LeavesAt P (returned a ds) = P ds

  pub record Leaves {A : Type 0} (P : DataStore B → Type 0) (o : Outcome (DataStore B) A)
      : Type 0 where
    pub at : LeavesAt P o

module _ {B A : Type 0} (P : DataStore B → Type 0) where
  Leaves-made :
      {M : Type 0} (h : Held M) (new : M) (f : M → Outcome (DataStore B) A)
      → ((m : M) → Leaves P (f m))
      → Leaves P (made h new f)
  unfolding made
  Leaves-made wrong_type new f k = record { at = tt }
  Leaves-made absent new f k = k new
  Leaves-made (held m) new f k = k m

  Leaves-present :
      {M : Type 0} (h : Held M) (e : StatusError) (ds : DataStore B)
      (f : M → Outcome (DataStore B) A)
      → P ds
      → ((m : M) → Leaves P (f m))
      → Leaves P (present h e ds f)
  unfolding present
  Leaves-present wrong_type e ds f p k = record { at = tt }
  Leaves-present absent e ds f p k = record { at = p }
  Leaves-present (held m) e ds f p k = k m

  pub Leaves-or_made :
      (ds : DataStore B) (f : Dict ℕ B → Dict Text (List ℕ) → Outcome (DataStore B) A)
      → ((ns : Dict ℕ B) (nslist : Dict Text (List ℕ)) → Leaves P (f ns nslist))
      → Leaves P (or_made ds f)
  unfolding or_made
  Leaves-or_made ds f k =
      Leaves-made (as_statuses (lookup ns_key ds.dsc)) [] _
        λ ns. Leaves-made (as_status_lists (lookup ns_list_key ds.dsc)) [] (f ns) (k ns)

  pub Leaves-or_fail :
      (ds : DataStore B) (f : Dict ℕ B → Dict Text (List ℕ) → Outcome (DataStore B) A)
      → P ds
      → ((ns : Dict ℕ B) (nslist : Dict Text (List ℕ)) → Leaves P (f ns nslist))
      → Leaves P (or_fail ds f)
  unfolding or_fail
  Leaves-or_fail ds f p k =
      Leaves-present (as_statuses (lookup ns_key ds.dsc)) no_statuses ds _ p λ ns.
        Leaves-present (as_status_lists (lookup ns_list_key ds.dsc)) no_status_list ds (f ns) p
          (k ns)
