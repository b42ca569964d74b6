-- ===== src/Review/Scope.antt =====
-- review-service.ts: a call for another organization than the entry's.
use hrp_crm.Base.{◌≡◌, ◌≢◌, refl, sym, ap, ◌∙◌, inl, inr, some, Text, codes}
use hrp_crm.Base.Maps.{ne-text_eq}
use hrp_crm.Review.{
  PermissionContext, Entry, ActorClaim, ReviewError, forbidden, Answer, done, raises,
  build_permission_context, parse_reviewer_capability, can_get_review_detail,
}
use hrp_crm.Review.Store.{ReviewState, find_by_id_any_org}
use hrp_crm.Review.Service.{
  Readings, admitted, find_entry_or_throw, get_review_detail, DecisionInput, submit_decision,
  LinkInput, link_target, unlink_target,
}
use hrp_crm.Review.Calls.{Answer-cases}

not_admitted :
    (actor : ActorClaim) (org id : Text) (s : ReviewState) (e : Entry)
    → find_by_id_any_org id s.entries ≡ some e
    → e.organization_id ≢ org
    → (err : ReviewError) × (admitted actor org id s ≡ raises err)
unfolding admitted find_entry_or_throw
not_admitted actor org id s e f other = elim (Answer-cases (build_permission_context actor org)) [
  | inl (err, b) ↦ (err, rw (admitted, b) refl)
  | inr (c, b) ↦ (
    forbidden (codes "SCOPE_MISMATCH: entry belongs to a different organization"),
    rw (admitted, b, find_entry_or_throw, f, ne-text_eq e.organization_id org other) refl,
  )
]

context_organization :
    (actor : ActorClaim) (org : Text) (c : PermissionContext)
    → build_permission_context actor org ≡ done c
    → c.organization_id ≡ org
unfolding build_permission_context
context_organization actor org c b = elim (Answer-cases (parse_reviewer_capability actor org)) [
  | inl (err, p) ↦ cc (rw (build_permission_context, p) at b)
  | inr (cap, p) ↦ sym (ap (λ x. organization_in org x) (rw (build_permission_context, p) at b))
]
  where
    organization_in : Text → Answer PermissionContext → Text
    organization_in fallback (raises e) = fallback
    organization_in fallback (done x) = x.organization_id

-- Whoever calls for another organization than the entry's is refused: a decision, a link, an unlink
-- and a read, and nothing changes.
pub other_organization_refused :
    (actor : ActorClaim) (org id link_id : Text) (input : DecisionInput) (input' : LinkInput)
    (r : Readings) (s : ReviewState) (e : Entry)
    → find_by_id_any_org id s.entries ≡ some e
    → e.organization_id ≢ org
    → (err : ReviewError) × (submit_decision actor org id input r s ≡ (raises err, s))
      × (link_target actor org id input' r s ≡ (raises err, s))
      × (unlink_target actor org id link_id r s ≡ (raises err, s))
      × ((err' : ReviewError) × (get_review_detail actor org id s ≡ raises err'))
unfolding submit_decision link_target unlink_target get_review_detail can_get_review_detail
other_organization_refused actor org id link_id input input' r s e f other =
    let (err, a) = not_admitted actor org id s e f other in
    (
      err,
      rw (submit_decision, a) refl,
      rw (link_target, a) refl,
      rw (unlink_target, a) refl,
      elim (Answer-cases (build_permission_context actor org)) [
        | inl (err', b) ↦ (err', rw (get_review_detail, b) refl)
        | inr (c, b) ↦ (
          forbidden (codes "SCOPE_MISMATCH: reviewer org does not match entry org"),
          rw
              (
                get_review_detail,
                b,
                f,
                can_get_review_detail,
                ne-text_eq c.organization_id e.organization_id
                    (λ q. other (sym q ∙ context_organization actor org c b)),
              )
              refl,
        )
      ],
    )
