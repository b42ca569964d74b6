-- ===== src/Media/Evidence/Tests.antt =====
-- evidence-store.ts: an upload, its revocation, and the theorems on them.
use hrp_crm.Base.{◌≡◌, refl, Bool, true, false, none, some, [], ◌∷◌, Text, codes, text_eq}
use hrp_crm.Base.Maps.{get, put}
use hrp_crm.Media.Evidence.{
  revoked, cccd_front, EvidenceRecord, ScanDecision, Bytes, UploadRequest, UploadResult,
  EvidenceStore, EvidenceError, done, raises, Upload, upload, require_org_scope, require_ready,
  new_record, scan_of, empty_store, default_scan,
}
use hrp_crm.Media.Evidence.Lifecycle.{here, require_ready-upload, closed_evidence}

abbrev no_digest : Bytes → Text
no_digest _ = codes "0"

abbrev any_organization : Text → Bool
any_organization _ = true

abbrev drawn : Upload
drawn = record { uuid = codes "1"; stored_at = codes "2026-01-01" }

abbrev request : UploadRequest
request = record {
  organization_id = codes "org";
  kind = cccd_front;
  bytes = 1 ∷ 2 ∷ [];
  simulate_malware = false;
}

abbrev scanned : ScanDecision
scanned = scan_of no_digest any_organization none request

abbrev stored : EvidenceRecord
stored = new_record no_digest any_organization none drawn request scanned

abbrev result : UploadResult
result = record {
  evidence_id = codes "ev-1";
  content_digest = codes "0";
  stored_at = codes "2026-01-01";
  initial_state = stored.state;
  scan = scanned;
}

abbrev one_record : EvidenceStore
one_record = record {
  records = (codes "ev-1", stored) ∷ [];
  org_index = (codes "org", codes "ev-1" ∷ []) ∷ [];
}

uploaded :
    upload no_digest any_organization none drawn request empty_store ≡ done (result, one_record)
unfolding upload get put
uploaded = refl

passes : require_ready (codes "ev-1") (codes "org") one_record ≡ done stored
unfolding require_ready require_org_scope get scan_of default_scan text_eq
passes = refl

require_ready-upload_example :
    (codes "org" ≡ codes "org") × (scanned.pass ≡ true) × (stored ≡ stored)
require_ready-upload_example =
    require_ready-upload no_digest any_organization none drawn request result (codes "org") stored
      empty_store one_record one_record uploaded here passes

abbrev withdrawn : EvidenceRecord
withdrawn = record stored { state = revoked; state_reason = some (codes "dsr") }

abbrev after : EvidenceStore
after = record one_record { records = (codes "ev-1", withdrawn) ∷ [] }

withdrawn_held : get (codes "ev-1") after.records ≡ some withdrawn
unfolding get text_eq
withdrawn_held = refl

closed_evidence_example :
    (get (codes "ev-1") after.records ≡ some withdrawn)
    × ((e : EvidenceError) × (require_ready (codes "ev-1") (codes "org") after ≡ raises e))
closed_evidence_example =
    closed_evidence no_digest any_organization none (codes "ev-1") (codes "org") withdrawn after
      after withdrawn_held refl here
