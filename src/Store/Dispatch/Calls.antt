-- ===== src/Store/Dispatch/Calls.antt =====
-- lease.ts: calls on the intents in a row. No call changes which intents there are.
use mathlib.Core.Option.{get_or}
use hrp_crm.Base.{
  ℕ, ◌≡◌, refl, sym, ap, subst, ◌∙◌, inl, inr, Bool, Option, some, List, [], ◌∷◌, Text, In,
  update_where, map, Distinct, Bool-cases, Option-cases, List-cases,
}
use hrp_crm.Store.Table.{Table}
use hrp_crm.Store.{Intent, ok, bind-ok, ok-injective}
use hrp_crm.Store.Dispatch.{
  ClaimIntentArgs, ClaimedIntent, intent_available, unlease_intent, extend_intent, lease_intent,
  holds_intent, IntentOutcome, CompleteIntentResult, claim_next_intent, extend_intent_lease,
  release_intent_lease, complete_intent, reclaim_expired_intents, release_intents_of_worker,
}
use hrp_crm.Store.Dispatch.Closed.{
  IsClosed, found_row, IntentCall, claims, extends, releases, completes, reclaims, releases_all,
  IntentCall-IsClosed,
}

abbrev pub ids : List Intent → List Text
ids = map (λ i. i.intent_id)

ids-update_where :
    (p : Intent → Bool) (f : Intent → Intent) (is : List Intent)
    → ((i : Intent) → (f i).intent_id ≡ i.intent_id)
    → ids (update_where p f is) ≡ ids is
ids-update_where p f [] keep = refl
ids-update_where p f (i ∷ is) keep =
    rw (ids-update_where p f is keep)
      (ap (λ x. x ∷ ids is) (elim (Bool-cases (p i)) [ inl e ↦ rw e (keep i) | inr e ↦ rw e refl ]))

module _ (T : Table Intent) where
  update-ids :
      (p : Intent → Bool) (f : Intent → Intent) (s t : T.State) (u : Intent)
      → ((i : Intent) → (f i).intent_id ≡ i.intent_id)
      → T.update p f s ≡ some (u, t)
      → ids (T.rows t) ≡ ids (T.rows s)
  update-ids p f s t u keep e =
      rw (T.update-some p f s u t e).1 (ids-update_where p f (T.rows s) keep)

  update_many-ids :
      (p : Intent → Bool) (f : Intent → Intent) (s : T.State)
      → ((i : Intent) → (f i).intent_id ≡ i.intent_id)
      → ids (T.rows (T.update_many p f s).0) ≡ ids (T.rows s)
  update_many-ids p f s keep = rw (T.rows-update_many p f s) (ids-update_where p f (T.rows s) keep)

  claim_next_intent-ids :
      (args : ClaimIntentArgs) (locked : Text → Bool) (now : ℕ) (token : Text)
      (c : Option ClaimedIntent) (s t : T.State)
      → claim_next_intent T args locked now token s ≡ ok (c, t)
      → ids (T.rows t) ≡ ids (T.rows s)
  unfolding claim_next_intent lease_intent
  claim_next_intent-ids args locked now token c s t e =
      let p =
        intent_available now (get_or args.organization_id []) (get_or args.receipt_id []) locked in
      elim (List-cases (T.select_oldest p (λ j. j.created_at) 1 s)) [
        | inl f ↦
            let same = ok-injective (rw (f, claim_next_intent) at e) in
            sym (ap (λ v. ids (T.rows v.1)) same)
        | inr (row, rest, f) ↦
            let ((u, v), g, h) = bind-ok _ _ (c, t) (rw (f, claim_next_intent) at e) in
            let same = ok-injective h in
            sym (ap (λ z. ids (T.rows z.1)) same)
            ∙ update-ids _ _ s v u (λ i. refl) (found_row _ (u, v) g)
      ]

  pub complete_intent-ids :
      (token owner : Text) (outcome : IntentOutcome) (r : CompleteIntentResult) (s t : T.State)
      → complete_intent T token owner outcome s ≡ ok (r, t)
      → ids (T.rows t) ≡ ids (T.rows s)
  unfolding complete_intent unlease_intent
  complete_intent-ids token owner outcome r s t e =
      elim (Option-cases (T.find_first (holds_intent token owner) s)) [
        | inl f ↦
            let same = ok-injective (rw (f, complete_intent) at e) in
            sym (ap (λ v. ids (T.rows v.1)) same)
        | inr (row, f) ↦
            let ((u, v), g, h) = bind-ok _ _ (r, t) (rw (f, complete_intent) at e) in
            let same = ok-injective h in
            sym (ap (λ z. ids (T.rows z.1)) same)
            ∙ update-ids _ _ s v u (λ i. refl) (found_row _ (u, v) g)
      ]

  pub IntentCall-ids : {s t : T.State} → IntentCall T s t → ids (T.rows t) ≡ ids (T.rows s)
  unfolding extend_intent_lease extend_intent release_intent_lease reclaim_expired_intents
      release_intents_of_worker unlease_intent
  IntentCall-ids (claims args locked now token c e) =
      claim_next_intent-ids args locked now token c _ _ e
  IntentCall-ids (completes token owner outcome r e) =
      complete_intent-ids token owner outcome r _ _ e
  IntentCall-ids (extends token owner duration now e) = rw e (update_many-ids _ _ _ (λ i. refl))
  IntentCall-ids (releases token owner e) = rw e (update_many-ids _ _ _ (λ i. refl))
  IntentCall-ids (reclaims now e) = rw e (update_many-ids _ _ _ (λ i. refl))
  IntentCall-ids (releases_all worker now e) = rw e (update_many-ids _ _ _ (λ i. refl))

  -- The calls of the module on the intents, in any order.
  pub data IntentCalls (s : T.State) : T.State → Type 0 where
    here : IntentCalls s s
    next : {t u : T.State} → IntentCalls s t → IntentCall T t u → IntentCalls s u

  IntentCalls-ids : {s t : T.State} → IntentCalls s t → ids (T.rows t) ≡ ids (T.rows s)
  IntentCalls-ids here = refl
  IntentCalls-ids (next path call) = IntentCall-ids call ∙ IntentCalls-ids path

  pub IntentCalls-IsClosed :
      {s t : T.State} (i : Intent)
      → Distinct (ids (T.rows s))
      → IntentCalls s t
      → In i (T.rows s)
      → IsClosed i
      → In i (T.rows t)
  IntentCalls-IsClosed i d here m closed = m
  IntentCalls-IsClosed i d (next path call) m closed =
      IntentCall-IsClosed T i (subst Distinct (sym (IntentCalls-ids path)) d) call
        (IntentCalls-IsClosed i d path m closed) closed
