-- ===== src/Worker/Drain.antt =====
-- durable-worker.ts: `stop`.
use hrp_crm.Base.{
  ℕ, ◌≡◌, refl, sym, subst, inl, inr, true, false, if◌then◌else◌, some, List, [], ◌∷◌, Text, In,
  All, All-In, update_where, arith, In-map,
}
use hrp_crm.Store.Table.{Table}
use hrp_crm.Store.{Receipt, Intent, ok}
use hrp_crm.Store.Lease.{ClaimedReceipt, release_data, holds_lease, Moment, CompleteReceiptArgs}
use hrp_crm.Store.Lease.Ops.{complete_receipt, is_owned, release_all_for_worker, fenced_rejection}
use hrp_crm.Store.Lease.Results.{complete_receipt-Completes}
use hrp_crm.Worker.{Work, WorkerConfig, WorkerState, drain}

released_unheld :
    (worker token : Text) (now : ℕ) (rs : List Receipt)
    → All
        (λ r. holds_lease token worker r ≡ false)
        (update_where (is_owned worker) (release_data (some now)) rs)
unfolding release_data is_owned holds_lease
released_unheld worker token now [] = tt
released_unheld worker token now (r ∷ rs) = (ground arith, released_unheld worker token now rs)

released_held :
    (worker : Text) (now : ℕ) (r : Receipt) (rs : List Receipt)
    → In r rs
    → is_owned worker r ≡ true
    → In (release_data (some now) r) (update_where (is_owned worker) (release_data (some now)) rs)
released_held worker now r rs m e =
    subst (λ x. In x (update_where (is_owned worker) (release_data (some now)) rs)) (rw e refl)
      (In-map (λ q. if is_owned worker q then release_data (some now) q else q) r rs m)

module _ (R : Table Receipt) (I : Table Intent) (execute : ClaimedReceipt → Work) where
  -- Once a running worker is stopped, each receipt that it had leased is pending again, and
  -- whatever completion its work still makes is fenced off and changes nothing.
  pub drain_fences_off :
      (c : WorkerConfig) (now : ℕ) (w : WorkerState) (s : R.State) (i : I.State)
      (args : CompleteReceiptArgs) (m : Moment)
      → w.running ≡ true
      → args.lease_owner ≡ c.worker_id
      → let (w', (s', _)) = drain R I execute c now (w, (s, i)) in
        (w'.running ≡ false)
        × ((r : Receipt)
            → In r (R.rows s)
            → is_owned c.worker_id r ≡ true
            → In (release_data (some now) r) (R.rows s'))
        × (complete_receipt R args m s' ≡ ok (fenced_rejection, s'))
  unfolding drain release_all_for_worker
  drain_fences_off c now w s i args m up own = rw up (refl, kept, fenced)
    where
      s' : R.State
      s' = (R.update_many (is_owned c.worker_id) (release_data (some now)) s).0

      written : R.rows s' ≡ update_where (is_owned c.worker_id) (release_data (some now)) (R.rows s)
      written = R.rows-update_many _ _ s

      kept :
          (r : Receipt)
          → In r (R.rows s)
          → is_owned c.worker_id r ≡ true
          → In (release_data (some now) r) (R.rows s')
      kept r m' e = subst (In _) (sym written) (released_held c.worker_id now r (R.rows s) m' e)

      unheld : All (λ r. holds_lease args.fencing_token c.worker_id r ≡ false) (R.rows s')
      unheld =
          subst (All _) (sym written)
            (released_unheld c.worker_id args.fencing_token now (R.rows s))

      fenced : complete_receipt R args m s' ≡ ok (fenced_rejection, s')
      fenced = elim (complete_receipt-Completes R args m s') [
        | inl (_, e) ↦ e
        | inr (row, t, settled, _) ↦
            let free : holds_lease args.fencing_token args.lease_owner row ≡ false =
              subst (λ o. holds_lease args.fencing_token o row ≡ false) (sym own)
                (All-In _ (R.rows s') unheld settled.held) in
            cc (free, settled.owned)
      ]
