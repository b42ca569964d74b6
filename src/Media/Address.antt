-- ===== src/Media/Address.antt =====
-- url-policy.ts: the dotted addresses, against the five IPv4 ranges that the file's header lists and
-- 0.0.0.0/8, which only its code has.
use hrp_crm.Base.{
  ltb→lt, ℕ, ◌+◌, ◌-◌, ◌*◌, ◌/◌, ◌%◌, ◌^◌, ◌≤◌, ◌==◌, leb, ltb, ◌≡◌, refl, sym, ap, subst, ◌∙◌, inl,
  inr, Bool, true, false, ◌&&◌, ◌||◌, if◌then◌else◌, [], ◌∷◌, ◌++◌, map, Text, codes, arith,
  Bool-cases, starts_with,
}
use hrp_crm.Base.Characters.{to_lower_case, split, number, parse_int}
use hrp_crm.Media.Url.{
  in_private_range, are_private, is_private_ipv4, looks_like_ipv4, is_private_host, is_group,
}

-- The decimal numeral of an octet.
unfoldable pub octet_text : ℕ → Text
octet_text n =
    if ltb n 10
    then (48 + n) ∷ []
    else if ltb n 100
    then (48 + n / 10) ∷ (48 + n % 10) ∷ []
    else (48 + n / 100) ∷ (48 + n / 10 % 10) ∷ (48 + n % 10) ∷ []

abbrev pub dotted : Text → Text → Text
dotted s t = s ++ (46 ∷ t)

abbrev pub ipv4_text : ℕ → ℕ → ℕ → ℕ → Text
ipv4_text a b c d =
    dotted (octet_text a) (dotted (octet_text b) (dotted (octet_text c) (octet_text d)))

abbrev pub address : ℕ → ℕ → ℕ → ℕ → ℕ
address a b c d = a * 16777216 + b * 65536 + c * 256 + d

-- An address is in `base/length` if it lies in the block of `2 ^ (32 - length)` addresses from `base`.
abbrev in_block : ℕ → ℕ → ℕ → Bool
in_block base length n = leb base n && ltb n (base + 2 ^ (32 - length))

abbrev pub is_reserved : ℕ → Bool
is_reserved n =
    in_block (address 127 0 0 0) 8 n
    || in_block (address 10 0 0 0) 8 n
    || in_block (address 172 16 0 0) 12 n
    || in_block (address 192 168 0 0) 16 n
    || in_block (address 169 254 0 0) 16 n
    || in_block (address 0 0 0 0) 8 n

pub in_private_range-is_reserved :
    (a b c d : ℕ)
    → b ≤ 255
    → c ≤ 255
    → d ≤ 255
    → in_private_range a b ≡ is_reserved (address a b c d)
unfolding in_private_range
in_private_range-is_reserved a b c d hb hc hd = ground arith

data Numeral : ℕ → Text → Type 0 where
  one : (x : ℕ) → x ≤ 9 → Numeral x ((48 + x) ∷ [])
  two : (x y : ℕ) → x ≤ 9 → y ≤ 9 → Numeral (x * 10 + y) ((48 + x) ∷ (48 + y) ∷ [])
  three :
      (x y z : ℕ)
      → x ≤ 9
      → y ≤ 9
      → z ≤ 9
      → Numeral ((x * 10 + y) * 10 + z) ((48 + x) ∷ (48 + y) ∷ (48 + z) ∷ [])

octet_text-Numeral : (n : ℕ) → n ≤ 255 → Numeral n (octet_text n)
unfolding octet_text
octet_text-Numeral n h = elim (Bool-cases (ltb n 10)) [
  | inl e ↦ rw e (one n (omega (arith, ltb→lt n 10 e)))
  | inr e ↦ elim (Bool-cases (ltb n 100)) [
    | inl f ↦
        rw (e, f)
          (subst (λ m. Numeral m ((48 + n / 10) ∷ (48 + n % 10) ∷ [])) (omega arith)
            (two (n / 10) (n % 10) (omega (arith, ltb→lt n 100 f)) (omega arith)))
    | inr f ↦
        rw (e, f)
          (subst (λ m. Numeral m ((48 + n / 100) ∷ (48 + n / 10 % 10) ∷ (48 + n % 10) ∷ []))
            (omega arith)
            (three (n / 100) (n / 10 % 10) (n % 10) (omega arith) (omega arith) (omega arith)))
  ]
]

parse_int-Numeral : (n : ℕ) (t : Text) → Numeral n t → parse_int t ≡ number n
unfolding parse_int
parse_int-Numeral _ _ (one x h) = ground arith
parse_int-Numeral _ _ (two x y h h') = ground arith
parse_int-Numeral _ _ (three x y z h h' h'') = ground arith

not_dot : (x : ℕ) → ((48 + x) == 46) ≡ false
not_dot x = ground arith

split-Numeral : (n : ℕ) (t s : Text) → Numeral n t → split 46 (dotted t s) ≡ t ∷ split 46 s
unfolding split
split-Numeral _ _ s (one x h) = rw (not_dot x) refl
split-Numeral _ _ s (two x y h h') = rw (not_dot x, not_dot y) refl
split-Numeral _ _ s (three x y z h h' h'') = rw (not_dot x, not_dot y, not_dot z) refl

split-last : (n : ℕ) (t : Text) → Numeral n t → split 46 t ≡ t ∷ []
unfolding split
split-last _ _ (one x h) = ground arith
split-last _ _ (two x y h h') = ground arith
split-last _ _ (three x y z h h' h'') = ground arith

is_group-Numeral : (n : ℕ) (t : Text) → Numeral n t → is_group t ≡ true
is_group-Numeral _ _ (one x h) = ground arith
is_group-Numeral _ _ (two x y h h') = ground arith
is_group-Numeral _ _ (three x y z h h' h'') = ground arith

lower-Numeral : (n : ℕ) (t s : Text) → Numeral n t → to_lower_case (t ++ s) ≡ t ++ to_lower_case s
lower-Numeral _ _ s (one x h) = ground arith
lower-Numeral _ _ s (two x y h h') = ground arith
lower-Numeral _ _ s (three x y z h h' h'') = ground arith

lower-last : (n : ℕ) (t : Text) → Numeral n t → to_lower_case t ≡ t
lower-last _ _ (one x h) = ground arith
lower-last _ _ (two x y h h') = ground arith
lower-last _ _ (three x y z h h' h'') = ground arith

plain-Numeral : (n : ℕ) (t s : Text) → Numeral n t → starts_with (codes "[") (t ++ s) ≡ false
unfolding starts_with
plain-Numeral _ _ s (one x h) = ground arith
plain-Numeral _ _ s (two x y h h') = ground arith
plain-Numeral _ _ s (three x y z h h' h'') = ground arith

module _ (a b c d : ℕ) (ha : a ≤ 255) (hb : b ≤ 255) (hc : c ≤ 255) (hd : d ≤ 255) where
  split-ipv4_text :
      split 46 (ipv4_text a b c d) ≡ octet_text a ∷ octet_text b ∷ octet_text c ∷ octet_text d ∷ []
  split-ipv4_text =
      rw
        (
          split-Numeral a (octet_text a)
              (dotted (octet_text b) (dotted (octet_text c) (octet_text d)))
              (octet_text-Numeral a ha),
          split-Numeral b (octet_text b) (dotted (octet_text c) (octet_text d))
              (octet_text-Numeral b hb),
          split-Numeral c (octet_text c) (octet_text d) (octet_text-Numeral c hc),
          split-last d (octet_text d) (octet_text-Numeral d hd),
        )
        refl

  -- The text of an address is read back as its four octets.
  pub parse_int-ipv4_text :
      map parse_int (split 46 (ipv4_text a b c d)) ≡ number a ∷ number b ∷ number c ∷ number d ∷ []
  parse_int-ipv4_text =
      rw
        (
          split-ipv4_text,
          parse_int-Numeral a (octet_text a) (octet_text-Numeral a ha),
          parse_int-Numeral b (octet_text b) (octet_text-Numeral b hb),
          parse_int-Numeral c (octet_text c) (octet_text-Numeral c hc),
          parse_int-Numeral d (octet_text d) (octet_text-Numeral d hd),
        )
        refl

  are_private_lem :
      are_private (number a ∷ number b ∷ number c ∷ number d ∷ []) ≡ in_private_range a b
  are_private_lem = ground arith

  pub is_private_ipv4-is_reserved :
      is_private_ipv4 (ipv4_text a b c d) ≡ is_reserved (address a b c d)
  unfolding is_private_ipv4
  is_private_ipv4-is_reserved =
      ap are_private parse_int-ipv4_text
      ∙ are_private_lem
      ∙ in_private_range-is_reserved a b c d hb hc hd

  pub lower-ipv4_text : to_lower_case (ipv4_text a b c d) ≡ ipv4_text a b c d
  lower-ipv4_text =
      rw
        (
          lower-Numeral a (octet_text a)
              (46 ∷ dotted (octet_text b) (dotted (octet_text c) (octet_text d)))
              (octet_text-Numeral a ha),
          lower-Numeral b (octet_text b) (46 ∷ dotted (octet_text c) (octet_text d))
              (octet_text-Numeral b hb),
          lower-Numeral c (octet_text c) (46 ∷ octet_text d) (octet_text-Numeral c hc),
          lower-last d (octet_text d) (octet_text-Numeral d hd),
        )
        refl

  pub is_private_host-is_reserved :
      is_private_host (ipv4_text a b c d) ≡ is_reserved (address a b c d)
  unfolding is_private_host is_private_ipv4 looks_like_ipv4
  is_private_host-is_reserved =
      rw
        (
          lower-ipv4_text,
          plain-Numeral a (octet_text a)
              (46 ∷ dotted (octet_text b) (dotted (octet_text c) (octet_text d)))
              (octet_text-Numeral a ha),
          split-ipv4_text,
          is_group-Numeral a (octet_text a) (octet_text-Numeral a ha),
          is_group-Numeral b (octet_text b) (octet_text-Numeral b hb),
          is_group-Numeral c (octet_text c) (octet_text-Numeral c hc),
          is_group-Numeral d (octet_text d) (octet_text-Numeral d hd),
        )
        (sym (ap (λ parts. are_private (map parse_int parts)) split-ipv4_text)
          ∙ is_private_ipv4-is_reserved)
