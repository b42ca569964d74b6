-- ===== src/Base/Related.antt =====
-- Lists related position by position, and lists without repetition.
use mathlib.Core.Path.{◌≡◌, refl, sym}
use mathlib.Core.Logic.{◌⊎◌, inl, inr, ◌≢◌}
use mathlib.Core.Bool.{Bool, true, false}
use mathlib.Core.List.{List, [], ◌∷◌, map}
use hrp_crm.Base.Tests.{if◌then◌else◌, Bool-cases}
use hrp_crm.Base.Lists.{In, All, All-In, Distinct, update_where, In-map}

abbrev pub Forall₂ : {A : Type 0} → (A → A → Type 0) → List A → List A → Type 0
Forall₂ R [] [] = Unit {0}
Forall₂ R (x ∷ xs) (y ∷ ys) = R x y × Forall₂ R xs ys
Forall₂ R _ _ = ⊥

pub Distinct-inj :
    {A : Type 0} {B : Type 0} (f : A → B) (xs : List A) (x y : A)
    → Distinct (map f xs)
    → In x xs
    → In y xs
    → f x ≡ f y
    → x ≡ y
Distinct-inj f [] x y d m n e = absurd m
Distinct-inj f (z ∷ zs) x y d (inl p) (inl q) e = rw (p, q)
Distinct-inj f (z ∷ zs) x y d (inl p) (inr n) e =
    absurd (All-In (λ b. f z ≢ b) (map f zs) d.0 (In-map f y zs n) (rw (← p) e))
Distinct-inj f (z ∷ zs) x y d (inr m) (inl q) e =
    absurd (All-In (λ b. f z ≢ b) (map f zs) d.0 (In-map f x zs m) (rw (← q) (sym e)))
Distinct-inj f (z ∷ zs) x y d (inr m) (inr n) e = Distinct-inj f zs x y d.1 m n e

module _ {A : Type 0} (R : A → A → Type 0) where
  pub Forall₂-refl : ((x : A) → R x x) → (xs : List A) → Forall₂ R xs xs
  Forall₂-refl h [] = tt
  Forall₂-refl h (x ∷ xs) = (h x, Forall₂-refl h xs)

  pub Forall₂-update_where :
      (p : A → Bool) (f : A → A) (xs : List A)
      → ((x : A) → R x x)
      → ((x : A) → In x xs → p x ≡ true → R x (f x))
      → Forall₂ R xs (update_where p f xs)
  Forall₂-update_where p f [] stay move = tt
  Forall₂-update_where p f (x ∷ xs) stay move =
      (here (Bool-cases (p x)), Forall₂-update_where p f xs stay (λ y m. move y (inr m)))
    where
      here : (p x ≡ true) ⊎ (p x ≡ false) → R x (if p x then f x else x)
      here (inl e) = rw e (move x (inl refl) e)
      here (inr e) = rw e (stay x)

  pub All-Forall₂ :
      (P : A → Type 0) (xs ys : List A)
      → ((x y : A) → R x y → P x → P y)
      → Forall₂ R xs ys
      → All P xs
      → All P ys
  All-Forall₂ P [] [] keep r h = tt
  All-Forall₂ P (x ∷ xs) (y ∷ ys) keep r h = (keep x y r.0 h.0, All-Forall₂ P xs ys keep r.1 h.1)
  All-Forall₂ P [] (y ∷ ys) keep r h = absurd r
  All-Forall₂ P (x ∷ xs) [] keep r h = absurd r

  -- Every element of the first list is related to one of the second.
  pub In-Forall₂ : (xs ys : List A) (x : A) → Forall₂ R xs ys → In x xs → (y : A) × In y ys × R x y
  In-Forall₂ [] ys x r m = absurd m
  In-Forall₂ (z ∷ zs) [] x r m = absurd r
  In-Forall₂ (z ∷ zs) (y ∷ ys) x r (inl e) = (y, inl refl, rw e r.0)
  In-Forall₂ (z ∷ zs) (y ∷ ys) x r (inr m) =
      let (w, n, q) = In-Forall₂ zs ys x r.1 m in (w, inr n, q)

  pub map-Forall₂ :
      {B : Type 0} (f : A → B) (xs ys : List A)
      → ((x y : A) → R x y → f x ≡ f y)
      → Forall₂ R xs ys
      → map f xs ≡ map f ys
  map-Forall₂ f [] [] h r = refl
  map-Forall₂ f (x ∷ xs) (y ∷ ys) h r = rw (h x y r.0, map-Forall₂ f xs ys h r.1)
  map-Forall₂ f [] (y ∷ ys) h r = absurd r
  map-Forall₂ f (x ∷ xs) [] h r = absurd r
