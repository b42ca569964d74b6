-- ===== src/Media/Tests.antt =====
-- url-policy.ts: the theorems at inputs that meet their hypotheses.
use hrp_crm.Base.{
  ◌≡◌, refl, false, not, Option, none, some, Text, codes, text_eq, arith, if◌then◌else◌,
}
use hrp_crm.Media.Url.{ParsedUrl, evaluate_url}
use hrp_crm.Media.Address.{ipv4_text, address, is_reserved}
use hrp_crm.Media.Access.{evaluate_url-is_reserved}

-- A parser that knows one URL.
abbrev metadata_url : Text
metadata_url = codes "https://169.254.169.254/latest"

abbrev metadata : ParsedUrl
metadata = record { protocol = codes "https:"; hostname = ipv4_text 169 254 169 254 }

parse_known : Text → Option ParsedUrl
parse_known raw = if text_eq raw metadata_url then some metadata else none

evaluate_url-is_reserved_example :
    (evaluate_url parse_known none metadata_url).allow ≡ not (is_reserved (address 169 254 169 254))
unfolding parse_known text_eq
evaluate_url-is_reserved_example =
    evaluate_url-is_reserved parse_known none metadata_url metadata 169 254 169 254 (omega arith)
      (omega arith) (omega arith) (omega arith) refl refl refl refl

metadata_denied : (evaluate_url parse_known none metadata_url).allow ≡ false
metadata_denied = evaluate_url-is_reserved_example
