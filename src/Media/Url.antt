-- ===== src/Media/Url.antt =====
-- apps/core-1.10-media/src/url-policy.ts. The parser of URLs is an argument.
use mathlib.Core.Option.{get_or}
use hrp_crm.Base.{
  ℕ, ◌==◌, leb, Bool, true, false, not, ◌&&◌, ◌||◌, if◌then◌else◌, Option, none, some, List, [],
  ◌∷◌, ◌++◌, map, Text, codes, text_eq, starts_with,
}
use hrp_crm.Base.Characters.{
  is_digit, to_lower_case, split, ends_with, inner_slice, ParsedInt, not_a_number, below_zero,
  number, parse_int,
}

pub record PolicyDecision : Type 0 where
  pub allow : Bool
  pub reason : Text
  pub rules : List Text

-- The parts of a URL that are looked at.
pub record ParsedUrl : Type 0 where
  pub protocol : Text
  pub hostname : Text

abbrev is_malformed : ParsedInt → Bool
is_malformed not_a_number = true
is_malformed below_zero = true
is_malformed (number n) = not (leb n 255)

abbrev octet : ParsedInt → ℕ
octet not_a_number = 0
octet below_zero = 0
octet (number n) = n

unfoldable pub in_private_range : ℕ → ℕ → Bool
in_private_range a b =
    if a == 127
    then true
    else if a == 10
    then true
    else if a == 172 && leb 16 b && leb b 31
    then true
    else if a == 192 && b == 168
    then true
    else if a == 169 && b == 254
    then true
    else if a == 0
    then true
    else false

abbrev pub are_private : List ParsedInt → Bool
are_private (a ∷ b ∷ c ∷ d ∷ []) =
    if is_malformed a || is_malformed b || is_malformed c || is_malformed d
    then true
    else in_private_range (octet a) (octet b)
are_private _ = true

unfoldable pub is_private_ipv4 : Text → Bool
is_private_ipv4 ip = are_private (map parse_int (split 46 ip))

-- `ip.replace(/:/g, '')`
abbrev pub without_colons : Text → Text
without_colons [] = []
without_colons (c ∷ s) = let rest = without_colons s in if c == 58 then rest else c ∷ rest

unfoldable pub is_private_ipv6 : Text → Bool
unfolding starts_with
is_private_ipv6 ip =
    let hex = to_lower_case (without_colons ip) in
    if text_eq ip (codes "::1")
    then true
    else if starts_with (codes "fc") hex || starts_with (codes "fd") hex
    then true
    else if starts_with (codes "fe80") hex
        || starts_with (codes "fe90") hex
        || starts_with (codes "fea0") hex
        || starts_with (codes "feb0") hex
    then true
    else false

abbrev pub is_group : Text → Bool
is_group (a ∷ []) = is_digit a
is_group (a ∷ b ∷ []) = is_digit a && is_digit b
is_group (a ∷ b ∷ c ∷ []) = is_digit a && is_digit b && is_digit c
is_group _ = false

abbrev pub are_four_groups : List Text → Bool
are_four_groups (a ∷ b ∷ c ∷ d ∷ []) = is_group a && is_group b && is_group c && is_group d
are_four_groups _ = false

-- `/^\d{1,3}(\.\d{1,3}){3}$/u`
unfoldable pub looks_like_ipv4 : Text → Bool
looks_like_ipv4 h = are_four_groups (split 46 h)

abbrev is_local_name : Text → Bool
is_local_name h =
    if text_eq h (codes "localhost") || ends_with (codes ".localhost") h
    then true
    else if ends_with (codes ".local") h || ends_with (codes ".internal") h
    then true
    else false

unfoldable pub is_private_host : Text → Bool
unfolding is_private_ipv4 is_private_ipv6 looks_like_ipv4 starts_with ends_with
is_private_host host =
    let h = to_lower_case host in
    if starts_with (codes "[") h && ends_with (codes "]") h
    then is_private_ipv6 (inner_slice h)
    else if looks_like_ipv4 h
    then is_private_ipv4 h
    else is_local_name h

-- `list.includes(host)`
abbrev pub is_listed : Text → List Text → Bool
is_listed host [] = false
is_listed host (h ∷ hs) = text_eq h host || is_listed host hs

abbrev denied_by : Text → Text → List Text → PolicyDecision
denied_by label detail rules = record { allow = false; reason = label ++ detail; rules = rules }

module _ (parse_url : Text → Option ParsedUrl) where
  -- `denyListOverride` is `none` when no list is installed; the list that is built in is empty.
  abbrev evaluate_parsed : Option (List Text) → ParsedUrl → PolicyDecision
  evaluate_parsed override parsed =
      let host = to_lower_case parsed.hostname in
      let scheme_ok = codes "parsed" ∷ codes "scheme_ok" ∷ [] in
      if not (text_eq parsed.protocol (codes "https:"))
      then denied_by (codes "BAD_SCHEME: scheme=") parsed.protocol
          (codes "parsed" ∷ codes "scheme_check" ∷ [])
      else if is_listed host (get_or override [])
      then denied_by (codes "DENY_LISTED_HOST: host=") host
          (scheme_ok ++ codes "deny_list_check" ∷ [])
      else if is_private_host host
      then denied_by (codes "PRIVATE_HOST: host=") host
          (scheme_ok ++ codes "deny_list_ok" ∷ codes "private_check" ∷ [])
      else record {
        allow = true;
        reason = codes "public https allowed";
        rules = scheme_ok ++ codes "deny_list_ok" ∷ codes "public" ∷ [];
      }

  unfoldable pub evaluate_url : Option (List Text) → Text → PolicyDecision
  unfolding is_private_host
  evaluate_url override raw_url = elim (parse_url raw_url) [
    | none ↦ denied_by (codes "INVALID_URL") [] (codes "parse_failed" ∷ [])
    | some parsed ↦ evaluate_parsed override parsed
  ]

  pub record BatchResult : Type 0 where
    pub allowed : List Text
    pub denied : List (Text × Text)

  -- The loop of `evaluateBatch` on what it has pushed so far.
  unfoldable pub evaluate_each : Option (List Text) → List Text → BatchResult → BatchResult
  unfolding evaluate_url
  evaluate_each override [] r = r
  evaluate_each override (u ∷ us) r =
      let d = evaluate_url override u in
      evaluate_each override us (
        if d.allow
        then record r { allowed = r.allowed ++ u ∷ [] }
        else record r { denied = r.denied ++ (u, d.reason) ∷ [] })

  unfoldable pub evaluate_batch : Option (List Text) → List Text → BatchResult
  unfolding evaluate_each
  evaluate_batch override urls = evaluate_each override urls (record { allowed = []; denied = [] })
