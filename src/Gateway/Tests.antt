-- ===== src/Gateway/Tests.antt =====
-- ledger.ts on a ring of two places.
use hrp_crm.Base.{ℕ, ◌-◌, ◌≡◌, [], ◌∷◌, length, min, arith}
use hrp_crm.Gateway.{new_ledger, append_each}
use hrp_crm.Gateway.Ring.{drop, in_order, append_each-in_order}

append_each-in_order_example :
    let l = append_each {Entry = ℕ} {Cached = ℕ} (1 ∷ 2 ∷ 3 ∷ []) (new_ledger 2) in
    (in_order l.next_index l.entries ≡ drop (length {A = ℕ} (1 ∷ 2 ∷ 3 ∷ []) - 2) (1 ∷ 2 ∷ 3 ∷ []))
    × (length l.entries ≡ min (length {A = ℕ} (1 ∷ 2 ∷ 3 ∷ [])) 2)
    × (l.count ≡ length {A = ℕ} (1 ∷ 2 ∷ 3 ∷ []))
append_each-in_order_example = append_each-in_order ℕ 2 (1 ∷ 2 ∷ 3 ∷ []) (omega arith)
