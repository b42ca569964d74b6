-- ===== src/Store/Links/Faithful.antt =====
-- adapters.ts: what is written of a contact link is what is read back.
use hrp_crm.Base.{
  ◌≡◌, refl, subst, ℕ, inl, inr, false, Option, none, some, Text, is_empty, Option-cases,
}
use hrp_crm.Base.Json.{Json, Items}
use hrp_crm.Store.{ok, ok-injective}
use hrp_crm.Store.Links.{
  LinkState, exact_match, possible_match, unresolved, MatchedTarget, talent, client,
  CandidateReference, ContactLink, ContactLinkRow, write_error, text_or_none, map_option, attempted,
  items_of, link_columns, contact_link_contract_to_write, contact_link_row_to_contract,
}

-- A text that is there is not empty.
abbrev pub IsFilled : Option Text → Type 0
IsFilled none = Unit
IsFilled (some t) = is_empty t ≡ false

abbrev pub HasId : Option MatchedTarget → Type 0
HasId none = Unit
HasId (some (talent id v)) = is_empty id ≡ false
HasId (some (client id v)) = is_empty id ≡ false

-- The state has no place for a candidate beside an exact match.
abbrev pub HasPlace : LinkState → Option CandidateReference → Type 0
HasPlace exact_match c = c ≡ none
HasPlace _ c = Unit

module _ (parse_date : Text → ℕ) (iso : ℕ → Text) where
  abbrev pub IsReadable : Option CandidateReference → Type 0
  IsReadable none = Unit
  IsReadable (some c) =
      (is_empty c.review_queue_entry_id ≡ false) × (iso (parse_date c.recorded_at) ≡ c.recorded_at)

  -- A time that is there is the text of its date.
  abbrev pub IsDate : Option Text → Type 0
  IsDate none = Unit
  IsDate (some t) = (is_empty t ≡ false) × (iso (parse_date t) ≡ t)

  text_or_none-IsFilled : (t : Option Text) → IsFilled t → text_or_none t ≡ t
  text_or_none-IsFilled none h = refl
  text_or_none-IsFilled (some t) h = rw h

  attempted-IsDate : (t : Option Text) → IsDate t → map_option iso (attempted parse_date t) ≡ t
  attempted-IsDate none h = refl
  attempted-IsDate (some t) (h, e) = rw (h, e)

  items_of-arr : (ev : Option Items) → items_of (map_option Json.arr ev) ≡ ev
  items_of-arr none = refl
  items_of-arr (some xs) = refl

  abbrev parts :
      Text
      → Text
      → Text
      → Text
      → Text
      → Option Text
      → LinkState
      → Option MatchedTarget
      → Option CandidateReference
      → ℕ
      → Option Text
      → Option Items
      → ContactLink
  parts sv org p c acc contact state target cand ver last ev = record {
    schema_version = sv;
    organization_id = org;
    provider = p;
    connection_id = c;
    external_account_id = acc;
    external_contact_id = contact;
    state = state;
    matched_target = target;
    candidate_reference = cand;
    aggregate_version = ver;
    last_attempted_at = last;
    evidence_refs = ev;
  }

  -- Of a link by its parts, as it is written when nothing is refused.
  parts_read :
      (sv org p c acc : Text) (contact : Option Text) (state : LinkState)
      (target : Option MatchedTarget) (cand : Option CandidateReference) (ver : ℕ)
      (last : Option Text) (ev : Option Items)
      → IsFilled contact
      → HasId target
      → HasPlace state cand
      → IsReadable cand
      → IsDate last
      → write_error state target cand ≡ none
      → contact_link_row_to_contract iso
          (link_columns parse_date (parts sv org p c acc contact state target cand ver last ev))
        ≡ ok (parts sv org p c acc contact state target cand ver last ev)
  unfolding contact_link_row_to_contract
  parts_read sv org p c acc contact exact_match (some (talent id v)) cand ver last ev filled i place
        readable date e =
      rw (
        i,
        place,
        text_or_none-IsFilled contact filled,
        attempted-IsDate last date,
        items_of-arr ev,
      )
  parts_read sv org p c acc contact exact_match (some (client id v)) cand ver last ev filled i place
        readable date e =
      rw (
        i,
        place,
        text_or_none-IsFilled contact filled,
        attempted-IsDate last date,
        items_of-arr ev,
      )
  parts_read sv org p c acc contact exact_match none cand ver last ev filled i place readable date
        e =
      cc e
  parts_read sv org p c acc contact possible_match none (some cand) ver last ev filled i place
        (k, at) date e =
      rw (k, at, text_or_none-IsFilled contact filled, attempted-IsDate last date, items_of-arr ev)
  parts_read sv org p c acc contact possible_match (some t) (some cand) ver last ev filled i place
        readable date e =
      cc e
  parts_read sv org p c acc contact possible_match none none ver last ev filled i place readable
        date e =
      cc e
  parts_read sv org p c acc contact possible_match (some t) none ver last ev filled i place readable
        date e =
      cc e
  parts_read sv org p c acc contact unresolved none none ver last ev filled i place readable date
        e =
      rw (text_or_none-IsFilled contact filled, attempted-IsDate last date, items_of-arr ev)
  parts_read sv org p c acc contact unresolved (some t) cand ver last ev filled i place readable
        date e =
      cc e
  parts_read sv org p c acc contact unresolved none (some cand) ver last ev filled i place readable
        date e =
      cc e

  -- The row that is written of a contact link is read back as that link, if its ids and its times are not
  -- empty, its times are the texts of their dates, and it is no exact match with a candidate.
  pub contact_link_row_to_contract-contact_link_contract_to_write :
      (l : ContactLink) (r : ContactLinkRow)
      → IsFilled l.external_contact_id
      → HasId l.matched_target
      → HasPlace l.state l.candidate_reference
      → IsReadable l.candidate_reference
      → IsDate l.last_attempted_at
      → contact_link_contract_to_write parse_date l ≡ ok r
      → contact_link_row_to_contract iso r ≡ ok l
  unfolding contact_link_contract_to_write
  contact_link_row_to_contract-contact_link_contract_to_write l r filled id place readable date e =
      elim (Option-cases (write_error l.state l.matched_target l.candidate_reference)) [
        | inr (err, v) ↦ cc (rw (contact_link_contract_to_write, v) at e)
        | inl v ↦
            let same : ◌≡◌ {A = ContactLinkRow} (link_columns parse_date l) r =
              ok-injective (rw (contact_link_contract_to_write, v) at e) in
            subst (λ x. contact_link_row_to_contract iso x ≡ ok l) same
              (parts_read l.schema_version l.organization_id l.provider l.connection_id
                l.external_account_id l.external_contact_id l.state l.matched_target
                l.candidate_reference l.aggregate_version l.last_attempted_at l.evidence_refs filled
                id place readable date v)
      ]
