-- ===== src/Store/Table.antt =====
-- A table behind the database client (Prisma over PostgreSQL), which is not part of the repository:
-- the calls that the stores make of it, and what they rely on of each. A call inside a transaction
-- is one step on the table; `rows` lists what the table holds.
pub mod Lists
use hrp_crm.Base.{
  ℕ, suc, ◌≤◌, ◌≡◌, Bool, true, false, Option, none, some, List, [], ◌∷◌, ◌++◌, In, All, count,
  update_where,
}

pub record Table (Row : Type 0) : Type 1 where
  pub State : Type 0
  pub rows : State → List Row
  -- `findFirst`, and `findUnique` where the test is on a unique key.
  pub find_first : (Row → Bool) → State → Option Row
  -- `SELECT … ORDER BY key ASC LIMIT n`
  pub select_oldest : (Row → Bool) → (Row → ℕ) → ℕ → State → List Row
  -- `findMany` with no order given.
  pub find_many : (Row → Bool) → State → List Row
  -- `update`: the row as updated, or a rejection if there is none.
  pub update : (Row → Bool) → (Row → Row) → State → Option (Row × State)
  -- `updateMany`, with its count.
  pub update_many : (Row → Bool) → (Row → Row) → State → State × ℕ
  -- `create`, or `INSERT … ON CONFLICT DO NOTHING` with the conflicts as a test: `none` if a row
  -- conflicts.
  pub insert : (Row → Bool) → Row → State → Option State
  pub find_first-some :
      (p : Row → Bool) (s : State) (r : Row)
      → find_first p s ≡ some r
      → In r (rows s) × (p r ≡ true)
  pub find_first-none :
      (p : Row → Bool) (s : State) → find_first p s ≡ none → All (λ r. p r ≡ false) (rows s)
  pub select_oldest-zero : (p : Row → Bool) (k : Row → ℕ) (s : State) → select_oldest p k 0 s ≡ []
  pub select_oldest-nil :
      (p : Row → Bool) (k : Row → ℕ) (n : ℕ) (s : State)
      → select_oldest p k (suc n) s ≡ []
      → All (λ r. p r ≡ false) (rows s)
  pub select_oldest-cons :
      (p : Row → Bool) (k : Row → ℕ) (n : ℕ) (s : State) (r : Row) (rs : List Row)
      → select_oldest p k n s ≡ r ∷ rs
      → In r (rows s) × (p r ≡ true) × All (λ q. p q ≡ true → k r ≤ k q) (rows s)
  pub find_many-In :
      (p : Row → Bool) (s : State) (r : Row) → In r (rows s) → p r ≡ true → In r (find_many p s)
  pub find_many-of_In :
      (p : Row → Bool) (s : State) (r : Row) → In r (find_many p s) → In r (rows s) × (p r ≡ true)
  pub update-some :
      (p : Row → Bool) (f : Row → Row) (s : State) (u : Row) (t : State)
      → update p f s ≡ some (u, t)
      → ((r : Row) × In r (rows s) × (p r ≡ true) × (u ≡ f r))
        × (rows t ≡ update_where p f (rows s))
  pub update-none :
      (p : Row → Bool) (f : Row → Row) (s : State)
      → update p f s ≡ none
      → All (λ r. p r ≡ false) (rows s)
  pub rows-update_many :
      (p : Row → Bool) (f : Row → Row) (s : State)
      → rows (update_many p f s).0 ≡ update_where p f (rows s)
  pub count-update_many :
      (p : Row → Bool) (f : Row → Row) (s : State) → (update_many p f s).1 ≡ count p (rows s)
  pub insert-some :
      (p : Row → Bool) (r : Row) (s t : State)
      → insert p r s ≡ some t
      → All (λ q. p q ≡ false) (rows s) × (rows t ≡ rows s ++ r ∷ [])
  pub insert-none :
      (p : Row → Bool) (r : Row) (s : State)
      → insert p r s ≡ none
      → (q : Row) × In q (rows s) × (p q ≡ true)
