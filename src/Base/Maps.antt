-- ===== src/Base/Maps.antt =====
-- A JavaScript `Map` from strings: its entries in the order in which their keys were first set.
use mathlib.Core.Path.{◌≡◌, refl, sym, ap, subst, ◌∙◌}
use mathlib.Core.Logic.{◌≢◌, ◌⊎◌, inl, inr}
use mathlib.Core.Bool.{false}
use mathlib.Core.Option.{Option, none, some}
use mathlib.Core.List.{List, [], ◌∷◌}
use hrp_crm.Base.Tests.{if◌then◌else◌, Bool-cases}
use hrp_crm.Base.Strings.{Text, text_eq, text_eq_iff, text_eq_refl}

abbrev pub Map : Type 0 → Type 0
Map V = List (Text × V)

unfoldable pub get : {V : Type 0} → Text → Map V → Option V
get k [] = none
get k ((j, v) ∷ es) = if text_eq j k then some v else get k es

unfoldable pub put : {V : Type 0} → Text → V → Map V → Map V
put k v [] = (k, v) ∷ []
put k v ((j, w) ∷ es) = if text_eq j k then (j, v) ∷ es else (j, w) ∷ put k v es

pub ne-text_eq : (j k : Text) → j ≢ k → text_eq j k ≡ false
ne-text_eq j k apart = elim (Bool-cases (text_eq j k)) [
  | inl e ↦ absurd (apart ((text_eq_iff j k).0 e))
  | inr e ↦ e
]

module _ {V : Type 0} where
  pub get-put : (k : Text) (v : V) (m : Map V) → get k (put k v m) ≡ some v
  unfolding get put
  get-put k v [] = rw (text_eq_refl k) refl
  get-put k v ((j, w) ∷ es) = elim (Bool-cases (text_eq j k)) [
    | inl e ↦ rw (put, e, get, e) refl
    | inr e ↦ rw (put, e, get, e) (get-put k v es)
  ]

  pub get-put_other : (k j : Text) (v : V) (m : Map V) → k ≢ j → get j (put k v m) ≡ get j m
  unfolding get put
  get-put_other k j v [] apart = rw (ne-text_eq k j apart) refl
  get-put_other k j v ((i, w) ∷ es) apart = elim (Bool-cases (text_eq i k)) [
    | inl e ↦
        rw (put, e, get) (rw (ne-text_eq i j (λ f. apart (sym ((text_eq_iff i k).0 e) ∙ f))) refl)
    | inr e ↦
        rw (put, e, get)
          (ap (λ o. if text_eq i j then some w else o) (get-put_other k j v es apart))
  ]

  -- What a key reads after a write.
  pub get-put_cases :
      (k j : Text) (v : V) (m : Map V)
      → ((k ≡ j) × (get j (put k v m) ≡ some v)) ⊎ ((k ≢ j) × (get j (put k v m) ≡ get j m))
  get-put_cases k j v m = elim (Bool-cases (text_eq k j)) [
    | inl e ↦
        let same = (text_eq_iff k j).0 e in
        inl (same, subst (λ i. get i (put k v m) ≡ some v) same (get-put k v m))
    | inr e ↦
        let apart : k ≢ j = λ same. cc (e, (text_eq_iff k j).1 same) in
        inr (apart, get-put_other k j v m apart)
  ]
