-- ===== src/Review/Stale.antt =====
-- review-service.ts: a decision on an entry that has changed since it was read.
use hrp_crm.Base.{
  ◌+◌, ◌≤◌, ◌==◌, ◌≡◌, ◌≢◌, refl, sym, ap, subst, ◌∙◌, ◌⊎◌, inl, inr, Option, some, List, [], ◌∷◌,
  ◌++◌, length, Text, codes, Bool-cases, Option-cases, arith, ==_iff,
}
use hrp_crm.Base.Maps.{get}
use hrp_crm.Review.{
  TargetKind, decided, AuditEntry, Entry, ActorClaim, ReviewError, done, raises, can_decide,
  can_link, forbidden, validation_error, version_conflict,
}
use hrp_crm.Review.Store.{ReviewState, key_of, find_by_id_any_org, update, apply_decision, add_link}
use hrp_crm.Review.Service.{
  EntryOutput, Readings, commit, admitted, DecisionInput, decided_entry, decide, read_kind,
  submit_decision, LinkInput, linked_entry, link, read_target, link_target,
}
use hrp_crm.Review.Keys.{WellKeyed, found_id, found_put, found_get}
use hrp_crm.Review.Calls.{Answer-cases, admitted_lem, undecided}
use hrp_crm.Review.Steps.{Reach, here, next, submits, links, Reach-WellKeyed, Reach-Grows}

-- A decision on a decided entry, or one that expects another version, is refused.
refused :
    (actor : ActorClaim) (org id : Text) (input : DecisionInput) (r : Readings) (s : ReviewState)
    (e : Entry)
    → find_by_id_any_org id s.entries ≡ some e
    → (e.status ≡ decided) ⊎ (length e.audit_log ≢ input.expected_entry_version)
    → (err : ReviewError) × (submit_decision actor org id input r s ≡ (raises err, s))
unfolding submit_decision can_decide
refused actor org id input r s e f late = elim (Answer-cases (admitted actor org id s)) [
  | inl (err, a) ↦ (err, rw (submit_decision, a) refl)
  | inr ((ctx, w), a) ↦
      let one : ◌≡◌ {A = Option Entry} (some w) (some e) =
        sym (admitted_lem actor org id s ctx w a).0 ∙ f in
      let same : w ≡ e = cc one in
      elim (Option-cases (can_decide ctx w.organization_id w.status)) [
        | inr (reason, p) ↦ (forbidden reason, rw (submit_decision, a, decide, p) refl)
        | inl p ↦ elim (Option-cases (read_kind input.kind)) [
          | inl k ↦ (
            validation_error (codes "Invalid decision kind: " ++ input.kind),
            rw (submit_decision, a, decide, p, k) refl,
          )
          | inr (kind, k) ↦ elim (Bool-cases (length w.audit_log == input.expected_entry_version)) [
            | inr v ↦ (
              version_conflict (length w.audit_log) input.expected_entry_version,
              rw (submit_decision, a, decide, p, k, v) refl,
            )
            | inl v ↦ elim late [
              | inl d ↦ absurd (
                  undecided ctx w.organization_id w.status p
                    (subst (λ x. x.status ≡ decided) (sym same) d))
              | inr off ↦ absurd (
                  off (
                    subst (λ x. length x.audit_log ≡ input.expected_entry_version) same
                      ((==_iff _ _).0 v)))
            ]
          ]
        ]
      ]
]

commit_found :
    (now id : Text) (e updated : Entry) (s : ReviewState)
    → WellKeyed s.entries
    → find_by_id_any_org id s.entries ≡ some e
    → updated.review_entry_id ≡ id
    → key_of updated ≡ key_of e
    → find_by_id_any_org id (commit now updated s).1.entries
      ≡ some (record updated { updated_at = now })
unfolding commit update
commit_found now id e updated s keyed f named placed =
    let at_key : get (key_of updated) s.entries ≡ some e =
      subst (λ k. get k s.entries ≡ some e) (sym placed) (found_get id e s.entries keyed f) in
    rw (commit, update, at_key)
      (found_put id e (record updated { updated_at = now }) s.entries keyed f named placed)

-- After a decision that is accepted the entry is decided.
accepted_decides :
    (actor : ActorClaim) (org id : Text) (input : DecisionInput) (r : Readings) (s : ReviewState)
    (out : EntryOutput)
    → WellKeyed s.entries
    → (submit_decision actor org id input r s).0 ≡ done out
    → (e' : Entry) × (find_by_id_any_org id (submit_decision actor org id input r s).1.entries
        ≡ some e')
      × (e'.status ≡ decided)
unfolding submit_decision apply_decision
accepted_decides actor org id input r s out keyed h =
    elim (Answer-cases (admitted actor org id s)) [
      | inl (err, a) ↦ cc (rw (submit_decision, a) at h)
      | inr ((ctx, e), a) ↦
          let f : find_by_id_any_org id s.entries ≡ some e =
            (admitted_lem actor org id s ctx e a).0 in
          elim (Option-cases (can_decide ctx e.organization_id e.status)) [
            | inr (reason, p) ↦ cc (rw (submit_decision, a, decide, p) at h)
            | inl p ↦ elim (Option-cases (read_kind input.kind)) [
              | inl k ↦ cc (rw (submit_decision, a, decide, p, k) at h)
              | inr (kind, k) ↦
                  elim (Bool-cases (length e.audit_log == input.expected_entry_version)) [
                    | inr v ↦ cc (rw (submit_decision, a, decide, p, k, v) at h)
                    | inl v ↦
                        rw (submit_decision, a, decide, p, k, v)
                          (
                            _,
                            commit_found r.updated_at id e
                                (decided_entry s r ctx.capability kind input e)
                                (record s { ids = s.ids + 1; decisions = s.decisions + 1 }) keyed f
                                (found_id id e s.entries f) refl,
                            refl,
                          )
                  ]
            ]
          ]
    ]

-- Of two decisions on one entry at most one is accepted: once one is, every later one is refused, by
-- whomever and for whatever version, and changes nothing.
pub decided_once :
    (first second : ActorClaim) (org org' id : Text) (input input' : DecisionInput)
    (r r' : Readings) (s u : ReviewState) (out : EntryOutput)
    → WellKeyed s.entries
    → (submit_decision first org id input r s).0 ≡ done out
    → Reach (submit_decision first org id input r s).1 u
    → (err : ReviewError) × (submit_decision second org' id input' r' u ≡ (raises err, u))
decided_once first second org org' id input input' r r' s u out keyed accepted path =
    let (e, f, d) = accepted_decides first org id input r s out keyed accepted in
    let keyed' = Reach-WellKeyed (next here (submits first org id input r refl)) keyed in
    let (e', f', g) = Reach-Grows id e keyed' f path in
    refused second org' id input' r' u e' f' (inl (g.final d).0)

linked_log :
    (s : ReviewState) (r : Readings) (actor : Text) (kind : TargetKind) (input : LinkInput)
    (e : Entry)
    → (a : AuditEntry) × ((linked_entry s r actor kind input e).audit_log ≡ e.audit_log ++ a ∷ [])
unfolding add_link
linked_log s r actor kind input e = (_, refl)

-- A link that is accepted adds one entry to the audit log.
accepted_links :
    (actor : ActorClaim) (org id : Text) (input : LinkInput) (r : Readings) (s : ReviewState)
    (e : Entry) (out : EntryOutput)
    → WellKeyed s.entries
    → find_by_id_any_org id s.entries ≡ some e
    → (link_target actor org id input r s).0 ≡ done out
    → (e' : Entry) × (find_by_id_any_org id (link_target actor org id input r s).1.entries
        ≡ some e')
      × ((a : AuditEntry) × (e'.audit_log ≡ e.audit_log ++ a ∷ []))
unfolding link_target add_link
accepted_links actor org id input r s e out keyed held h =
    elim (Answer-cases (admitted actor org id s)) [
      | inl (err, a) ↦ cc (rw (link_target, a) at h)
      | inr ((ctx, w), a) ↦
          let f : find_by_id_any_org id s.entries ≡ some w =
            (admitted_lem actor org id s ctx w a).0 in
          let one : ◌≡◌ {A = Option Entry} (some w) (some e) = sym f ∙ held in
          let same : w ≡ e = cc one in
          elim (Option-cases (can_link ctx w.organization_id w.status)) [
            | inr (reason, p) ↦ cc (rw (link_target, a, link, p) at h)
            | inl p ↦ elim (Option-cases (read_target input.target_kind)) [
              | inl k ↦ cc (rw (link_target, a, link, p, k) at h)
              | inr (kind, k) ↦
                  rw (link_target, a, link, p, k)
                    (
                      _,
                      commit_found r.updated_at id w (linked_entry s r ctx.actor kind input w)
                          (record s { ids = s.ids + 1; links = s.links + 1 }) keyed f
                          (found_id id w s.entries f) refl,
                      let (added, grew) = linked_log s r ctx.actor kind input w in
                          (added, grew ∙ ap (λ x. x.audit_log ++ added ∷ []) same),
                    )
            ]
          ]
    ]

length-append : {A : Type 0} (xs ys : List A) → length (xs ++ ys) ≡ length xs + length ys
length-append [] ys = omega arith
length-append (x ∷ xs) ys = omega (arith, length-append xs ys)

-- A reviewer who has not seen a link that was accepted since is refused: the version that a decision
-- expects is then too low, whatever else is called in between.
pub link_overtakes :
    (linker reviewer : ActorClaim) (org org' id : Text) (input : LinkInput) (input' : DecisionInput)
    (r r' : Readings) (s u : ReviewState) (e : Entry) (out : EntryOutput)
    → WellKeyed s.entries
    → find_by_id_any_org id s.entries ≡ some e
    → (link_target linker org id input r s).0 ≡ done out
    → Reach (link_target linker org id input r s).1 u
    → input'.expected_entry_version ≤ length e.audit_log
    → (err : ReviewError) × (submit_decision reviewer org' id input' r' u ≡ (raises err, u))
link_overtakes linker reviewer org org' id input input' r r' s u e out keyed held accepted path
      old =
    let (e', f, (a, grown)) = accepted_links linker org id input r s e out keyed held accepted in
    let keyed' = Reach-WellKeyed (next here (links linker org id input r refl)) keyed in
    let (e'', f'', g) = Reach-Grows id e' keyed' f path in
    let (more, later) = g.appended in
    let first : length e'.audit_log ≡ length e.audit_log + 1 =
      ap length grown ∙ length-append e.audit_log (a ∷ []) in
    let second : length e''.audit_log ≡ length e'.audit_log + length more =
      ap length later ∙ length-append e'.audit_log more in
    refused reviewer org' id input' r' u e'' f'' (inr (λ q. omega (arith, q, first, second, old)))
