-- ===== src/Media/Evidence/Lifecycle.antt =====
-- evidence-store.ts: the calls as steps of the store, and what no call undoes.
use hrp_crm.Base.{
  ◌≡◌, ◌≢◌, refl, sym, ap, subst, ◌∙◌, ◌⊎◌, inl, inr, Bool, true, false, Option, none, some, ◌++◌,
  Text, codes, text_eq, text_eq_iff, Bool-cases, Option-cases, arith,
}
use hrp_crm.Base.Maps.{get, put, get-put, get-put_other, get-put_cases}
use hrp_crm.Media.Evidence.{
  revoked, EvidenceRecord, ScanDecision, Bytes, UploadRequest, UploadResult, EvidenceStore,
  EvidenceError, Attempt, done, raises, Upload, evidence_not_ready, cross_org, upload, revoke,
  require_org_scope, require_ready, is_ready, new_record, scan_of, initial_state,
}

some-injective : {A : Type 0} {x y : A} → ◌≡◌ {A = Option A} (some x) (some y) → x ≡ y
some-injective e = cc

pub done-injective : {A : Type 0} {x y : A} → ◌≡◌ {A = Attempt A} (done x) (done y) → x ≡ y
done-injective e = cc

-- What a revocation makes of a record.
abbrev pub Revokes : EvidenceRecord → EvidenceRecord → Type 0
Revokes r r' =
    (is_ready r.state ≡ true)
    × ((reason : Text) × (r' ≡ record r { state = revoked; state_reason = some reason }))

abbrev pub Later : EvidenceRecord → EvidenceRecord → Type 0
Later r r' = (r' ≡ r) ⊎ Revokes r r'

module _ (digest : Bytes → Text) (valid_organization : Text → Bool)
    (installed : Option (Bytes → ScanDecision)) where
  -- One call that changes the store; the ids that are drawn are new.
  pub data Step (s : EvidenceStore) : EvidenceStore → Type 0 where
    uploads :
        {t : EvidenceStore} (u : Upload) (req : UploadRequest) (result : UploadResult)
        → get (codes "ev-" ++ u.uuid) s.records ≡ none
        → upload digest valid_organization installed u req s ≡ done (result, t)
        → Step s t
    revokes :
        {t : EvidenceStore} (id reason : Text) (r : Option EvidenceRecord)
        → revoke id reason s ≡ done (r, t)
        → Step s t

  pub data Reach (s : EvidenceStore) : EvidenceStore → Type 0 where
    here : Reach s s
    next : {t u : EvidenceStore} → Reach s t → Step t u → Reach s u

  upload_lem :
      (u : Upload) (req : UploadRequest) (s t : EvidenceStore) (result : UploadResult)
      → upload digest valid_organization installed u req s ≡ done (result, t)
      → (t.records
          ≡ put
              (codes "ev-" ++ u.uuid)
              (new_record digest valid_organization installed u req
                (scan_of digest valid_organization installed req))
              s.records)
        × (result.evidence_id ≡ codes "ev-" ++ u.uuid)
  unfolding upload
  upload_lem u req s t result e = elim (Bool-cases (valid_organization req.organization_id)) [
    | inl v ↦
        let same = done-injective (rw (upload, v) at e) in
        (ap (λ p. p.1.records) (sym same), ap (λ p. p.0.evidence_id) (sym same))
    | inr v ↦ cc (rw (upload, v) at e)
  ]

  revoke_lem :
      (id reason : Text) (s t : EvidenceStore) (o : Option EvidenceRecord)
      → revoke id reason s ≡ done (o, t)
      → (t ≡ s)
        ⊎ ((rec : EvidenceRecord) × (get id s.records ≡ some rec)
            × (is_ready rec.state ≡ true)
            × (t.records
                ≡ put id (record rec { state = revoked; state_reason = some reason }) s.records))
  unfolding revoke
  revoke_lem id reason s t o e = elim (Option-cases (get id s.records)) [
    | inl n ↦ let same = done-injective (rw (revoke, n) at e) in inl (ap (λ p. p.1) (sym same))
    | inr (rec, n) ↦ elim (Bool-cases (is_ready rec.state)) [
      | inl v ↦
          let same = done-injective (rw (revoke, n, v) at e) in
          inr (rec, n, v, ap (λ p. p.1.records) (sym same))
      | inr v ↦ cc (rw (revoke, n, v) at e)
    ]
  ]

  Step-Later :
      {s t : EvidenceStore} (id : Text) (r : EvidenceRecord)
      → get id s.records ≡ some r
      → Step s t
      → (r' : EvidenceRecord) × (get id t.records ≡ some r') × Later r r'
  Step-Later {s} {t} id r held (uploads u req result new e) =
      let apart : codes "ev-" ++ u.uuid ≢ id =
        λ same. cc (subst (λ k. get k s.records ≡ none) same new, held) in
      (
        r,
        ap (get id) (upload_lem u req s t result e).0 ∙ get-put_other _ id _ s.records apart ∙ held,
        inl refl,
      )
  Step-Later {s} {t} id r held (revokes k reason o e) = elim (revoke_lem k reason s t o e) [
    | inl same ↦ (r, subst (λ x. get id x.records ≡ some r) (sym same) held, inl refl)
    | inr (rec, n, v, w) ↦
        elim (get-put_cases k id (record rec { state = revoked; state_reason = some reason })
          s.records) [
            | inl (same, f) ↦
                let one : rec ≡ r =
                  some-injective (sym n ∙ subst (λ i. get i s.records ≡ some r) (sym same) held) in
                (
                  record r { state = revoked; state_reason = some reason },
                  ap (get id) w
                      ∙ f
                      ∙ ap {A = EvidenceRecord}
                          (λ x. some (record x { state = revoked; state_reason = some reason }))
                          one,
                  inr (subst (λ x. is_ready x.state ≡ true) one v, (reason, refl)),
                )
            | inr (apart, f) ↦ (r, ap (get id) w ∙ f ∙ held, inl refl)
          ]
  ]

  then_Later : (r r' r'' : EvidenceRecord) → Later r r' → Later r' r'' → Later r r''
  then_Later r r' r'' (inl e) h = subst (λ x. Later x r'') e h
  then_Later r r' r'' (inr h) (inl e) = inr (subst (Revokes r) (sym e) h)
  then_Later r r' r'' (inr (_, (reason, e))) (inr (open_, _)) =
      absurd (cc (ap (λ x. is_ready x.state) e, open_))

  -- No call loses a record or changes it, but for a revocation of one that is ready.
  pub get-Reach :
      {s t : EvidenceStore} (id : Text) (r : EvidenceRecord)
      → get id s.records ≡ some r
      → Reach s t
      → (r' : EvidenceRecord) × (get id t.records ≡ some r') × Later r r'
  get-Reach id r held here = (r, held, inl refl)
  get-Reach id r held (next path step) =
      let (r', held', later) = get-Reach id r held path in
      let (r'', held'', later') = Step-Later id r' held' step in
      (r'', held'', then_Later r r' r'' later later')

  require_ready_lem :
      (id org : Text) (s : EvidenceStore) (r : EvidenceRecord)
      → require_ready id org s ≡ done r
      → (get id s.records ≡ some r) × (r.organization_id ≡ org) × (is_ready r.state ≡ true)
  unfolding require_ready require_org_scope
  require_ready_lem id org s r e = elim (Option-cases (get id s.records)) [
    | inl n ↦ cc (rw (require_ready, require_org_scope, n) at e)
    | inr (rec, n) ↦ elim (Bool-cases (text_eq rec.organization_id org)) [
      | inr v ↦ cc (rw (require_ready, require_org_scope, n, v) at e)
      | inl v ↦ elim (Bool-cases (is_ready rec.state)) [
        | inr w ↦ cc (rw (require_ready, require_org_scope, n, v, w) at e)
        | inl w ↦
            let same : rec ≡ r =
              done-injective (rw (require_ready, require_org_scope, n, v, w) at e) in
            (
              n ∙ ap (λ x. some x) same,
              subst (λ x. x.organization_id ≡ org) same ((text_eq_iff _ _).0 v),
              subst (λ x. is_ready x.state ≡ true) same w,
            )
      ]
    ]
  ]

  -- Evidence that passes the gate, however much later, was uploaded by the organization that asks for
  -- it and passed its scan, and is the record of that upload.
  pub require_ready-upload :
      (up : Upload) (req : UploadRequest) (result : UploadResult) (org : Text) (r : EvidenceRecord)
      (s t u : EvidenceStore)
      → upload digest valid_organization installed up req s ≡ done (result, t)
      → Reach t u
      → require_ready result.evidence_id org u ≡ done r
      → (req.organization_id ≡ org)
        × ((scan_of digest valid_organization installed req).pass ≡ true)
        × (r
            ≡ new_record digest valid_organization installed up req
                (scan_of digest valid_organization installed req))
  require_ready-upload up req result org r s t u e path passed =
      let scan = scan_of digest valid_organization installed req in
      let first = new_record digest valid_organization installed up req scan in
      let (written, named) = upload_lem up req s t result e in
      let held : get result.evidence_id t.records ≡ some first =
        ap (λ k. get k t.records) named
        ∙ ap (get (codes "ev-" ++ up.uuid)) written
        ∙ get-put _ first s.records in
      let (r', held', later) = get-Reach result.evidence_id first held path in
      let (found, owned, open_) = require_ready_lem result.evidence_id org u r passed in
      let one : r' ≡ r = some-injective (sym held' ∙ found) in
      let unchanged : r ≡ first = elim later [
        | inl same ↦ sym one ∙ same
        | inr (_, (reason, same)) ↦ absurd (cc (ap (λ x. is_ready x.state) (sym one ∙ same), open_))
      ] in
      (
        sym (ap (λ x. x.organization_id) unchanged) ∙ owned,
        passes scan (subst (λ x. is_ready x.state ≡ true) unchanged open_),
        unchanged,
      )
    where
      passes :
          (scan : ScanDecision)
          → is_ready (initial_state digest valid_organization installed scan) ≡ true
          → scan.pass ≡ true
      passes scan h = ground arith

  -- Evidence that is revoked or rejected never passes the gate again, and its record stays as it is.
  pub closed_evidence :
      (id org : Text) (r : EvidenceRecord) (s t : EvidenceStore)
      → get id s.records ≡ some r
      → is_ready r.state ≡ false
      → Reach s t
      → (get id t.records ≡ some r) × ((e : EvidenceError) × (require_ready id org t ≡ raises e))
  unfolding require_ready require_org_scope
  closed_evidence id org r s t held closed path =
      let (r', held', later) = get-Reach id r held path in
      let same : r' ≡ r = elim later [ inl e ↦ e | inr (open_, _) ↦ cc (open_, closed) ] in
      let still : get id t.records ≡ some r = held' ∙ ap (λ x. some x) same in
      (
        still,
        elim (Bool-cases (text_eq r.organization_id org)) [
          | inl v ↦ (
            evidence_not_ready id r.state,
            rw (require_ready, require_org_scope, still, v, closed) refl,
          )
          | inr v ↦ (
            cross_org id r.organization_id org,
            rw (require_ready, require_org_scope, still, v) refl,
          )
        ],
      )
