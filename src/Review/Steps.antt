-- ===== src/Review/Steps.antt =====
-- review-service.ts: the calls as steps of the store.
use hrp_crm.Base.{◌≡◌, sym, subst, some, Text}
use hrp_crm.Review.{Entry, ActorClaim}
use hrp_crm.Review.Store.{ReviewState, find_by_id_any_org, NewEntry}
use hrp_crm.Review.Service.{
  Readings, DecisionInput, submit_decision, LinkInput, link_target, unlink_target,
  create_from_intake,
}
use hrp_crm.Review.Keys.{WellKeyed}
use hrp_crm.Review.History.{Grows, Grows-refl, Grows-trans, Change, Change-WellKeyed, Change-Grows}
use hrp_crm.Review.Calls.{
  submit_decision-Change, link_target-Change, unlink_target-Change, create_from_intake-Change,
}

-- One call that can change the store.
pub data Step (s : ReviewState) : ReviewState → Type 0 where
  submits :
      {t : ReviewState} (actor : ActorClaim) (org id : Text) (input : DecisionInput) (r : Readings)
      → t ≡ (submit_decision actor org id input r s).1
      → Step s t
  links :
      {t : ReviewState} (actor : ActorClaim) (org id : Text) (input : LinkInput) (r : Readings)
      → t ≡ (link_target actor org id input r s).1
      → Step s t
  unlinks :
      {t : ReviewState} (actor : ActorClaim) (org id link_id : Text) (r : Readings)
      → t ≡ (unlink_target actor org id link_id r s).1
      → Step s t
  creates :
      {t : ReviewState} (args : NewEntry) (r : Readings)
      → t ≡ (create_from_intake args r s).1
      → Step s t

pub data Reach (s : ReviewState) : ReviewState → Type 0 where
  here : Reach s s
  next : {t u : ReviewState} → Reach s t → Step t u → Reach s u

Step-Change : {s t : ReviewState} → Step s t → Change s.entries t.entries
Step-Change {s} (submits actor org id input r e) =
    subst (λ x. Change s.entries x.entries) (sym e) (submit_decision-Change actor org id input r s)
Step-Change {s} (links actor org id input r e) =
    subst (λ x. Change s.entries x.entries) (sym e) (link_target-Change actor org id input r s)
Step-Change {s} (unlinks actor org id link_id r e) =
    subst (λ x. Change s.entries x.entries) (sym e) (unlink_target-Change actor org id link_id r s)
Step-Change {s} (creates args r e) =
    subst (λ x. Change s.entries x.entries) (sym e) (create_from_intake-Change args r s)

pub Reach-WellKeyed : {s t : ReviewState} → Reach s t → WellKeyed s.entries → WellKeyed t.entries
Reach-WellKeyed here h = h
Reach-WellKeyed (next path step) h = Change-WellKeyed (Step-Change step) (Reach-WellKeyed path h)

-- Whatever is called, an entry keeps the ids, the revision, the canonical record, the draft and the time
-- that it was created with, and its audit log, to which entries are only appended; and once it is decided
-- it stays decided, with its decision and the version that the decision was made on.
pub Reach-Grows :
    {s t : ReviewState} (id : Text) (e : Entry)
    → WellKeyed s.entries
    → find_by_id_any_org id s.entries ≡ some e
    → Reach s t
    → (e' : Entry) × (find_by_id_any_org id t.entries ≡ some e') × Grows e e'
Reach-Grows id e keyed f here = (e, f, Grows-refl e)
Reach-Grows id e keyed f (next path step) =
    let (e', f', g) = Reach-Grows id e keyed f path in
    let (e'', f'', h) = Change-Grows id e' (Reach-WellKeyed path keyed) f' (Step-Change step) in
    (e'', f'', Grows-trans e e' e'' g h)
