-- ===== src/Store/Dispatch/Settled.antt =====
-- lease.ts: what the completion of an intent makes of it for good.
use mathlib.Core.Path.{fun_ext}
use hrp_crm.Base.{
  ◌≡◌, refl, sym, ap, subst, ◌∙◌, inl, inr, true, false, Option, none, some, Text, text_eq_iff,
  text_eq_refl, In, update_where, Distinct, Option-cases, All, All-In, All-mono, ◌⊎◌, arith,
}
use hrp_crm.Store.Table.{Table}
use hrp_crm.Store.{Intent, IntentStatus, ok}
use hrp_crm.Store.Lease.{column_is}
use hrp_crm.Store.Dispatch.{
  is_leased, by_intent_id, unlease_intent, holds_intent, IntentOutcome, success, retry, fail,
  status_after, complete_intent,
}
use hrp_crm.Store.Dispatch.Closed.{IsClosed, In-update_where_hit}
use hrp_crm.Store.Dispatch.Calls.{ids, complete_intent-ids, IntentCalls, IntentCalls-IsClosed}

-- The lease that a completion asks for.
abbrev pub IsLeasedBy : Text → Text → Intent → Type 0
IsLeasedBy token owner i =
    (i.fencing_token ≡ some token) × (i.lease_owner ≡ some owner) × (i.status ≡ IntentStatus.leased)

-- An intent as a completion is to leave it.
abbrev pub settled : IntentOutcome → Intent → Intent
settled success i = record i {
  status = IntentStatus.delivered;
  lease_owner = none;
  lease_expires_at = none;
  fencing_token = none;
  lease_fenced_at = none;
}
settled retry i = record i {
  status = IntentStatus.failed;
  lease_owner = none;
  lease_expires_at = none;
  fencing_token = none;
  lease_fenced_at = none;
}
settled fail i = record i {
  status = IntentStatus.terminal;
  lease_owner = none;
  lease_expires_at = none;
  fencing_token = none;
  lease_fenced_at = none;
}

settled-IsClosed : (o : IntentOutcome) (i : Intent) → IsClosed (settled o i)
settled-IsClosed success i = refl
settled-IsClosed retry i = refl
settled-IsClosed fail i = refl

unlease_intent-settled :
    (o : IntentOutcome) (i : Intent) → unlease_intent (status_after o) none i ≡ settled o i
unfolding unlease_intent
unlease_intent-settled success i = refl
unlease_intent-settled retry i = refl
unlease_intent-settled fail i = refl

status_after-settled : (o : IntentOutcome) (i : Intent) → status_after o ≡ (settled o i).status
status_after-settled success i = refl
status_after-settled retry i = refl
status_after-settled fail i = refl

column_is-some : (c : Option Text) (v : Text) → column_is c v ≡ true → c ≡ some v
column_is-some none v e = cc e
column_is-some (some t) v e = ap some ((text_eq_iff t v).0 e)

is_leased-leased : (x : IntentStatus) → is_leased x ≡ true → x ≡ IntentStatus.leased
is_leased-leased IntentStatus.leased e = refl
is_leased-leased IntentStatus.pending e = cc e
is_leased-leased IntentStatus.dispatched e = cc e
is_leased-leased IntentStatus.ack_received e = cc e
is_leased-leased IntentStatus.delivered e = cc e
is_leased-leased IntentStatus.failed e = cc e
is_leased-leased IntentStatus.terminal e = cc e
is_leased-leased IntentStatus.investigation_pending e = cc e

holds_intent-IsLeasedBy :
    (token owner : Text) (i : Intent) → holds_intent token owner i ≡ true → IsLeasedBy token owner i
unfolding holds_intent
holds_intent-IsLeasedBy token owner i e = (
  column_is-some i.fencing_token token (ground arith),
  column_is-some i.lease_owner owner (ground arith),
  is_leased-leased i.status (ground arith),
)

IsLeasedBy-holds_intent :
    (token owner : Text) (i : Intent) → IsLeasedBy token owner i → holds_intent token owner i ≡ true
unfolding holds_intent
IsLeasedBy-holds_intent token owner i (t, o, l) =
    rw (t, o, l, text_eq_refl token, text_eq_refl owner)

module _ (T : Table Intent) (token owner : Text) (outcome : IntentOutcome) (s : T.State) where
  -- The completion that is accepted, on the intent `i` and with the table `t` after it.
  abbrev pub Settles : Intent → T.State → Type 0
  Settles i t =
      In i (T.rows s)
      × IsLeasedBy token owner i
      × (complete_intent T token owner outcome s
          ≡ ok (record { status = (settled outcome i).status; fenced_rejected = false }, t))
      × (T.rows t ≡ update_where (by_intent_id i.intent_id) (settled outcome) (T.rows s))

  found-Settles :
      (row : Intent)
      → T.find_first (holds_intent token owner) s ≡ some row
      → (t : T.State) × Settles row t
  unfolding complete_intent
  found-Settles row f =
      let (held, holds) = T.find_first-some (holds_intent token owner) s row f in
      let after = unlease_intent (status_after outcome) none in
      elim (Option-cases (T.update (by_intent_id row.intent_id) after s)) [
        | inl n ↦ cc (
          text_eq_refl row.intent_id,
          All-In _ _ (T.update-none (by_intent_id row.intent_id) after s n) held,
        )
        | inr ((w, t), g) ↦ (
          t,
          (
            held,
            holds_intent-IsLeasedBy token owner row holds,
            rw (complete_intent, f, g, status_after-settled outcome row) refl,
            (T.update-some _ after s w t g).1
                ∙ ap (λ k. update_where (by_intent_id row.intent_id) k (T.rows s))
                    (fun_ext (unlease_intent-settled outcome)),
          ),
        )
      ]

  Settles-for_good :
      (i : Intent) (t u : T.State)
      → Distinct (ids (T.rows s))
      → Settles i t
      → IntentCalls T t u
      → In (settled outcome i) (T.rows u)
  Settles-for_good i t u d (held, leased, done, written) later =
      IntentCalls-IsClosed T (settled outcome i)
        (subst Distinct (sym (complete_intent-ids T token owner outcome _ s t done)) d) later
        (subst (In (settled outcome i)) (sym written) (
          In-update_where_hit (by_intent_id i.intent_id) (settled outcome) i (T.rows s) held
            (text_eq_refl i.intent_id)))
        (settled-IsClosed outcome i)

  -- On a table with distinct ids a completion always comes to a result. Either no intent is leased by the
  -- owner under the token, and it is fenced off and changes nothing; or one is, and it settles that one
  -- and no other: with no lease left, it is delivered after a success, failed after a retry and terminal
  -- after a failure. It stays in the table like that after any further calls of the module on the
  -- intents, so a retry is never tried again.
  pub complete_intent-Settles :
      Distinct (ids (T.rows s))
      → (All (λ i. ¬ IsLeasedBy token owner i) (T.rows s)
          × (complete_intent T token owner outcome s
              ≡ ok (record { status = IntentStatus.delivered; fenced_rejected = true }, s)))
        ⊎ ((i : Intent) × (t : T.State) × Settles i t
            × ((u : T.State) → IntentCalls T t u → In (settled outcome i) (T.rows u)))
  unfolding complete_intent
  complete_intent-Settles d = elim (Option-cases (T.find_first (holds_intent token owner) s)) [
    | inl f ↦ inl (
      All-mono (λ i. holds_intent token owner i ≡ false) _ (T.rows s)
          (λ i n l. cc (n, IsLeasedBy-holds_intent token owner i l))
          (T.find_first-none (holds_intent token owner) s f),
      rw (complete_intent, f) refl,
    )
    | inr (row, f) ↦
        let (t, settles) = found-Settles row f in
        inr (row, t, settles, λ u later. Settles-for_good row t u d settles later)
  ]
