-- ===== src/Media/Batch.antt =====
-- url-policy.ts: `evaluateBatch`.
use hrp_crm.Base.{
  append-nil, append-snoc, ◌≡◌, sym, ◌∙◌, inl, inr, Bool, not, if◌then◌else◌, Option, List, [], ◌∷◌,
  ◌++◌, map, Text, Bool-cases,
}
use hrp_crm.Media.Url.{ParsedUrl, evaluate_url, evaluate_each, evaluate_batch, BatchResult}

abbrev pub keep : (Text → Bool) → List Text → List Text
keep p [] = []
keep p (x ∷ xs) = let rest = keep p xs in if p x then x ∷ rest else rest

module _ (parse_url : Text → Option ParsedUrl) (override : Option (List Text)) where
  abbrev pub allows : Text → Bool
  allows u = (evaluate_url parse_url override u).allow

  abbrev pub reported : Text → Text × Text
  reported u = (u, (evaluate_url parse_url override u).reason)

  evaluate_each_lem :
      (urls : List Text) (r : BatchResult parse_url)
      → ((evaluate_each parse_url override urls r).allowed ≡ r.allowed ++ keep allows urls)
        × ((evaluate_each parse_url override urls r).denied
            ≡ r.denied ++ map reported (keep (λ u. not (allows u)) urls))
  unfolding evaluate_each
  evaluate_each_lem [] r = (sym (append-nil r.allowed), sym (append-nil r.denied))
  evaluate_each_lem (u ∷ us) r = elim (Bool-cases (allows u)) [
    | inl e ↦
        let (a, d) = evaluate_each_lem us (record r { allowed = r.allowed ++ u ∷ [] }) in
        rw (evaluate_each, e) (a ∙ append-snoc r.allowed u (keep allows us), d)
    | inr e ↦
        let (a, d) = evaluate_each_lem us (record r { denied = r.denied ++ reported u ∷ [] }) in
        rw (evaluate_each, e)
          (a, d ∙ append-snoc r.denied (reported u) (map reported (keep (λ v. not (allows v)) us)))
  ]

  -- A batch is split in two, each part in the order of the batch: the URLs that are allowed, and the
  -- others with the reasons.
  pub evaluate_batch-splits :
      (urls : List Text)
      → ((evaluate_batch parse_url override urls).allowed ≡ keep allows urls)
        × ((evaluate_batch parse_url override urls).denied
            ≡ map reported (keep (λ u. not (allows u)) urls))
  unfolding evaluate_batch
  evaluate_batch-splits urls = evaluate_each_lem urls (record { allowed = []; denied = [] })
