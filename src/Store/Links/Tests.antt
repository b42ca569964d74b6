-- ===== src/Store/Links/Tests.antt =====
-- adapters.ts, on links of each state, with a date for each character.
use hrp_crm.Base.{ℕ, ◌≡◌, refl, some, none, Text, [], ◌∷◌, codes}
use hrp_crm.Base.Json.{Items}
use hrp_crm.Store.{ok}
use hrp_crm.Store.Links.{
  exact_match, possible_match, client, CandidateReference, ContactLink, link_columns,
  contact_link_contract_to_write, contact_link_row_to_contract,
}
use hrp_crm.Store.Links.Faithful.{contact_link_row_to_contract-contact_link_contract_to_write}

iso : ℕ → Text
iso n = n ∷ []

parse_date : Text → ℕ
parse_date [] = 0
parse_date (n ∷ _) = n

abbrev reference : CandidateReference
reference = record { review_queue_entry_id = codes "rq-1"; recorded_at = codes "m" }

abbrev possible : ContactLink
possible = record {
  schema_version = codes "1";
  organization_id = codes "org";
  provider = codes "zalo";
  connection_id = codes "c1";
  external_account_id = codes "a1";
  external_contact_id = none;
  state = possible_match;
  matched_target = none;
  candidate_reference = some reference;
  aggregate_version = 3;
  last_attempted_at = some (codes "n");
  evidence_refs = some Items.nil;
}

possible_written :
    contact_link_contract_to_write parse_date possible ≡ ok (link_columns parse_date possible)
unfolding contact_link_contract_to_write
possible_written = refl

-- An exact match keeps its reference in the row, and loses it when it is read.
candidate_lost :
    contact_link_row_to_contract iso (
      link_columns parse_date
        (record possible { state = exact_match; matched_target = some (client (codes "cc-1") 2) }))
    ≡ ok (record possible {
      state = exact_match;
      matched_target = some (client (codes "cc-1") 2);
      candidate_reference = none;
    })
unfolding contact_link_row_to_contract parse_date iso
candidate_lost = refl

contact_link_row_to_contract-contact_link_contract_to_write_example :
    contact_link_row_to_contract iso (link_columns parse_date possible) ≡ ok possible
unfolding parse_date iso
contact_link_row_to_contract-contact_link_contract_to_write_example =
    contact_link_row_to_contract-contact_link_contract_to_write parse_date iso possible
      (link_columns parse_date possible) tt tt tt (refl, refl) (refl, refl) possible_written
