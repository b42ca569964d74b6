-- ===== src/Media/Access.antt =====
-- url-policy.ts: which URLs are allowed.
use mathlib.Core.Option.{get_or}
use hrp_crm.Base.{
  ℕ, ◌≤◌, ◌≡◌, ◌≢◌, ◌==◌, leb, refl, ◌∙◌, Bool, true, false, not, ◌&&◌, ◌||◌, Option, some, List,
  [], ◌∷◌, Text, codes, text_eq, starts_with, arith,
}
use hrp_crm.Base.Characters.{to_lower_case, lower_code}
use hrp_crm.Media.Url.{ParsedUrl, is_listed, is_private_host, evaluate_url, is_private_ipv6}
use hrp_crm.Media.Address.{
  ipv4_text, address, is_reserved, is_private_host-is_reserved, lower-ipv4_text,
}

module _ (parse_url : Text → Option ParsedUrl) where
  allowed_url :
      (override : Option (List Text)) (raw : Text) (u : ParsedUrl)
      → parse_url raw ≡ some u
      → (evaluate_url parse_url override raw).allow ≡ (
          text_eq u.protocol (codes "https:")
          && not (is_listed (to_lower_case u.hostname) (get_or override []))
          && not (is_private_host (to_lower_case u.hostname)))
  unfolding evaluate_url
  allowed_url override raw u e = rw (e, evaluate_url) (ground arith)

  -- An https URL whose host is a dotted address, and not on the deny list, is allowed exactly if the
  -- address lies in none of the reserved blocks.
  pub evaluate_url-is_reserved :
      (override : Option (List Text)) (raw : Text) (u : ParsedUrl) (a b c d : ℕ)
      → a ≤ 255
      → b ≤ 255
      → c ≤ 255
      → d ≤ 255
      → parse_url raw ≡ some u
      → u.protocol ≡ codes "https:"
      → u.hostname ≡ ipv4_text a b c d
      → is_listed (ipv4_text a b c d) (get_or override []) ≡ false
      → (evaluate_url parse_url override raw).allow ≡ not (is_reserved (address a b c d))
  unfolding text_eq
  evaluate_url-is_reserved override raw u a b c d ha hb hc hd parsed https host unlisted =
      allowed_url override raw u parsed
      ∙ rw
          (
            https,
            host,
            lower-ipv4_text a b c d ha hb hc hd,
            unlisted,
            is_private_host-is_reserved a b c d ha hb hc hd,
          )
          refl

-- A hexadecimal digit as `toLowerCase` leaves it, with the four that `fe80::/10` allows third.
abbrev pub is_hex : ℕ → Bool
is_hex c = (leb 48 c && leb c 57) || (leb 97 c && leb c 102)

abbrev pub is_third : ℕ → Bool
is_third c = c == 56 || c == 57 || c == 97 || c == 98

third_hex : (c : ℕ) → is_third c ≡ true → is_hex c ≡ true
third_hex c h = ground arith

not_colon : (c : ℕ) → is_hex c ≡ true → (c == 58) ≡ false
not_colon c h = ground arith

lower_hex : (c : ℕ) → is_hex c ≡ true → lower_code c ≡ c
lower_hex c h = ground arith

not_zero : (c : ℕ) → c ≢ 48 → (48 == c) ≡ false
not_zero c h = ground arith

-- A link-local address whose first group does not end in the digit 0 passes as public.
pub link_local_passes :
    (third fourth : ℕ) (rest : Text)
    → is_third third ≡ true
    → is_hex fourth ≡ true
    → fourth ≢ 48
    → is_private_ipv6 (102 ∷ 101 ∷ third ∷ fourth ∷ rest) ≡ false
unfolding is_private_ipv6 starts_with text_eq
link_local_passes third fourth rest h h' other =
    rw
      (
        not_colon third (third_hex third h),
        not_colon fourth h',
        lower_hex third (third_hex third h),
        lower_hex fourth h',
        not_zero fourth other,
      )
      (ground arith)
