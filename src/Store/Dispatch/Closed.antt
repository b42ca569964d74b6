-- ===== src/Store/Dispatch/Closed.antt =====
-- lease.ts: an intent that waits for no worker stays as it is.
use hrp_crm.Base.{
  ℕ, ◌≡◌, refl, ap, subst, inl, inr, Bool, true, false, ◌||◌, Option, none, some, List, [], ◌∷◌,
  Text, text_eq_iff, In, update_where, map, Distinct, Distinct-inj, Bool-cases, Option-cases,
  List-cases, arith,
}
use mathlib.Core.Option.{get_or}
use hrp_crm.Store.Table.{Table}
use hrp_crm.Store.{Intent, IntentStatus, ok, or_row_not_found, bind-ok, ok-injective}
use hrp_crm.Store.Dispatch.{
  ClaimIntentArgs, ClaimedIntent, is_pending, is_leased, intent_available, by_intent_id,
  unlease_intent, extend_intent, holds_intent, intent_expired, intent_owned, IntentOutcome,
  CompleteIntentResult, claim_next_intent, extend_intent_lease, release_intent_lease,
  complete_intent, reclaim_expired_intents, release_intents_of_worker,
}

In-update_where :
    (p : Intent → Bool) (f : Intent → Intent) (i : Intent) (is : List Intent)
    → In i is
    → p i ≡ false
    → In i (update_where p f is)
In-update_where p f i [] m e = m
In-update_where p f i (x ∷ xs) (inl q) e = inl (rw (← q, e) refl)
In-update_where p f i (x ∷ xs) (inr m) e = inr (In-update_where p f i xs m e)

pub found_row : {A : Type 0} (o : Option A) (a : A) → or_row_not_found o ≡ ok a → o ≡ some a
found_row none a e = cc
found_row (some x) a e = ap some (ok-injective e)

pub In-update_where_hit :
    (p : Intent → Bool) (f : Intent → Intent) (i : Intent) (is : List Intent)
    → In i is
    → p i ≡ true
    → In (f i) (update_where p f is)
In-update_where_hit p f i [] m e = m
In-update_where_hit p f i (x ∷ xs) (inl q) e = inl (rw (← q, e) refl)
In-update_where_hit p f i (x ∷ xs) (inr m) e = inr (In-update_where_hit p f i xs m e)

-- Neither pending nor leased: delivered, failed, terminal and the states that only others write.
abbrev pub IsClosed : Intent → Type 0
IsClosed i = (is_pending i.status || is_leased i.status) ≡ false

module _ (T : Table Intent) where
  -- One call on the intents, by any worker, at any time.
  pub data IntentCall (s : T.State) : T.State → Type 0 where
    claims :
        {t : T.State} (args : ClaimIntentArgs) (locked : Text → Bool) (now : ℕ) (token : Text)
        (c : Option ClaimedIntent)
        → claim_next_intent T args locked now token s ≡ ok (c, t)
        → IntentCall s t
    extends :
        {t : T.State} (token owner : Text) (duration now : ℕ)
        → t ≡ (extend_intent_lease T token owner duration now s).1
        → IntentCall s t
    releases :
        {t : T.State} (token owner : Text)
        → t ≡ (release_intent_lease T token owner s).1
        → IntentCall s t
    completes :
        {t : T.State} (token owner : Text) (outcome : IntentOutcome) (r : CompleteIntentResult)
        → complete_intent T token owner outcome s ≡ ok (r, t)
        → IntentCall s t
    reclaims : {t : T.State} (now : ℕ) → t ≡ (reclaim_expired_intents T now s).1 → IntentCall s t
    releases_all :
        {t : T.State} (worker : Text) (now : ℕ)
        → t ≡ (release_intents_of_worker T worker now s).1
        → IntentCall s t

  module _ (s : T.State) (i : Intent) (m : In i (T.rows s)) (closed : IsClosed i) where
    swept :
        (p : Intent → Bool) (f : Intent → Intent)
        → p i ≡ false
        → In i (T.rows (T.update_many p f s).0)
    swept p f e = rw (T.rows-update_many p f s) (In-update_where p f i (T.rows s) m e)

    -- An update by the id of another, open row.
    other_updated :
        (row : Intent) (f : Intent → Intent) (u : Intent) (t : T.State)
        → Distinct (map (λ j. j.intent_id) (T.rows s))
        → In row (T.rows s)
        → (is_pending row.status || is_leased row.status) ≡ true
        → T.update (by_intent_id row.intent_id) f s ≡ some (u, t)
        → In i (T.rows t)
    other_updated row f u t d held opened e = elim (Bool-cases (by_intent_id row.intent_id i)) [
      | inl same ↦
          let one =
            Distinct-inj (λ j. j.intent_id) (T.rows s) i row d m held
              ((text_eq_iff i.intent_id row.intent_id).0 same) in
          absurd (cc (one, closed, opened))
      | inr differs ↦
          rw (T.update-some _ f s u t e).1
            (In-update_where (by_intent_id row.intent_id) f i (T.rows s) m differs)
    ]

    claimed_other :
        (args : ClaimIntentArgs) (locked : Text → Bool) (now : ℕ) (token : Text)
        (c : Option ClaimedIntent) (t : T.State)
        → Distinct (map (λ j. j.intent_id) (T.rows s))
        → claim_next_intent T args locked now token s ≡ ok (c, t)
        → In i (T.rows t)
    unfolding claim_next_intent intent_available
    claimed_other args locked now token c t d e =
        let p =
          intent_available now (get_or args.organization_id []) (get_or args.receipt_id [])
            locked in
        elim (List-cases (T.select_oldest p (λ j. j.created_at) 1 s)) [
          | inl f ↦
              let same = ok-injective (rw (f, claim_next_intent) at e) in
              subst (λ u. In i (T.rows u)) (ap (λ v. v.1) same) m
          | inr (row, rest, f) ↦
              let (held, free, _) = T.select_oldest-cons p (λ j. j.created_at) 1 s row rest f in
              let opened : (is_pending row.status || is_leased row.status) ≡ true = ground arith in
              let ((u, v), g, h) = bind-ok _ _ (c, t) (rw (f, claim_next_intent) at e) in
              let same = ok-injective h in
              subst (λ w. In i (T.rows w)) (ap (λ z. z.1) same)
                (other_updated row _ u v d held opened (found_row _ (u, v) g))
        ]

    completed_other :
        (token owner : Text) (outcome : IntentOutcome) (r : CompleteIntentResult) (t : T.State)
        → Distinct (map (λ j. j.intent_id) (T.rows s))
        → complete_intent T token owner outcome s ≡ ok (r, t)
        → In i (T.rows t)
    unfolding complete_intent holds_intent
    completed_other token owner outcome r t d e =
        elim (Option-cases (T.find_first (holds_intent token owner) s)) [
          | inl f ↦
              let same = ok-injective (rw (f, complete_intent) at e) in
              subst (λ u. In i (T.rows u)) (ap (λ v. v.1) same) m
          | inr (row, f) ↦
              let (held, holds) = T.find_first-some _ s row f in
              let opened : (is_pending row.status || is_leased row.status) ≡ true = ground arith in
              let ((u, v), g, h) = bind-ok _ _ (r, t) (rw (f, complete_intent) at e) in
              let same = ok-injective h in
              subst (λ w. In i (T.rows w)) (ap (λ z. z.1) same)
                (other_updated row _ u v d held opened (found_row _ (u, v) g))
        ]

  -- An intent that is neither pending nor leased is in the table unchanged after any call of the
  -- module on the intents (their ids are distinct).
  pub IntentCall-IsClosed :
      {s t : T.State} (i : Intent)
      → Distinct (map (λ j. j.intent_id) (T.rows s))
      → IntentCall s t
      → In i (T.rows s)
      → IsClosed i
      → In i (T.rows t)
  unfolding extend_intent_lease release_intent_lease reclaim_expired_intents
      release_intents_of_worker holds_intent intent_expired intent_owned
  IntentCall-IsClosed i d (claims args locked now token c e) m closed =
      claimed_other _ i m closed args locked now token c _ d e
  IntentCall-IsClosed i d (completes token owner outcome r e) m closed =
      completed_other _ i m closed token owner outcome r _ d e
  IntentCall-IsClosed i d (extends token owner duration now e) m closed =
      rw e
        (swept _ i m closed (holds_intent token owner) (extend_intent now duration) (ground arith))
  IntentCall-IsClosed i d (releases token owner e) m closed = rw e (
      swept _ i m closed (holds_intent token owner) (unlease_intent IntentStatus.pending none)
        (ground arith))
  IntentCall-IsClosed i d (reclaims now e) m closed = rw e (
      swept _ i m closed (intent_expired now) (unlease_intent IntentStatus.pending none)
        (ground arith))
  IntentCall-IsClosed i d (releases_all worker now e) m closed = rw e (
      swept _ i m closed (intent_owned worker) (unlease_intent IntentStatus.pending (some now))
        (ground arith))
