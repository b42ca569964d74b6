-- ===== src/Gateway.antt =====
-- apps/integration-api/src/gateway/ledger.ts: the bounded log of the calls and the cached results.
pub mod Ring
mod Tests
use hrp_crm.Base.{
  ℕ, zero, suc, ◌+◌, ◌%◌, Bool, true, false, if◌then◌else◌, ltb, Option, none, some, List, [], ◌∷◌,
  ◌++◌, length, Text, codes, text_eq,
}

-- A list with `e` at the index, if it has one: `entries[index] = e`.
unfoldable pub set_at : {A : Type 0} → ℕ → A → List A → List A
set_at i e [] = []
set_at zero e (x ∷ xs) = e ∷ xs
set_at (suc i) e (x ∷ xs) = x ∷ set_at i e xs

-- `Cached` is the value type of the result cache, with the digest, the result, the tier and the method.
pub record CallLedger (Entry Cached : Type 0) : Type 0 where
  pub max_entries : ℕ
  pub entries : List Entry
  pub next_index : ℕ
  pub count : ℕ
  pub result_cache : List (Text × Cached)

pub record LedgerSize : Type 0 where
  pub count : ℕ
  pub max : ℕ
  pub cache : ℕ
  pub total_appends : ℕ

-- `${organizationId}:${commandName}:${idempotencyKey}`
pub cache_key : Text → Text → Text → Text
cache_key organization_id command_name idempotency_key =
    organization_id ++ codes ":" ++ command_name ++ codes ":" ++ idempotency_key

unfoldable pub read_in : {Cached : Type 0} → Text → List (Text × Cached) → Option Cached
read_in k [] = none
read_in k ((j, v) ∷ es) = if text_eq j k then some v else read_in k es

unfoldable pub write_in :
    {Cached : Type 0} → Text → Cached → List (Text × Cached) → List (Text × Cached)
write_in k v [] = (k, v) ∷ []
write_in k v ((j, w) ∷ es) = if text_eq j k then (j, v) ∷ es else (j, w) ∷ write_in k v es

module _ {Entry Cached : Type 0} where
  abbrev pub new_ledger : ℕ → CallLedger Entry Cached
  new_ledger max_entries = record {
    max_entries = max_entries;
    entries = [];
    next_index = 0;
    count = 0;
    result_cache = [];
  }

  -- With no room at all the source writes no element, and so does `set_at`.
  unfoldable pub append : Entry → CallLedger Entry Cached → CallLedger Entry Cached
  unfolding set_at
  append e l =
      if ltb (length l.entries) l.max_entries
      then record l { entries = l.entries ++ e ∷ []; count = l.count + 1 }
      else record l {
        entries = set_at (l.next_index % l.max_entries) e l.entries;
        next_index = (l.next_index + 1) % l.max_entries;
        count = l.count + 1;
      }

  unfoldable pub read_cache : Text → CallLedger Entry Cached → Option Cached
  unfolding read_in
  read_cache k l = read_in k l.result_cache

  unfoldable pub write_cache : Text → Cached → CallLedger Entry Cached → CallLedger Entry Cached
  unfolding write_in
  write_cache k v l = record l { result_cache = write_in k v l.result_cache }

  unfoldable pub reset : CallLedger Entry Cached → CallLedger Entry Cached
  reset l = record l { entries = []; result_cache = []; next_index = 0; count = 0 }

  unfoldable pub size : CallLedger Entry Cached → LedgerSize
  size l = record {
    count = length l.entries;
    max = l.max_entries;
    cache = length l.result_cache;
    total_appends = l.count;
  }

  unfoldable pub append_each : List Entry → CallLedger Entry Cached → CallLedger Entry Cached
  unfolding append
  append_each [] l = l
  append_each (e ∷ es) l = append_each es (append e l)
