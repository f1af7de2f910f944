-- ===== src/Retirement/OnChain.antt =====
-- `retireLoansOnChain` of src/services/soroban.service.ts.
use stellar_kraal_backend.Prelude.{
  concat, All, ℕ, ◌<◌, String, ◌≡◌, refl, sym, ap, ◌∙◌, ◌⊎◌, inl, inr, true, false, some, List, [],
  ◌∷◌, ◌++◌, map,
}
use stellar_kraal_backend.Retirement.{
  RetirementChunkStatus, success, failed, skipped, RetirementTarget, RetirementChunkResult,
  Submission, confirmed, thrown, loan_ids_of, contract_ids_of, skipped_result, retire_chunks,
  submitted_result, retire_loans_on_chain,
}
use stellar_kraal_backend.Retirement.Chunks.{concat-chunk_array}

abbrev pub IsSkipped : RetirementChunkResult → Type 0
IsSkipped r = r.status ≡ skipped

-- Successes, then at most one failure, and after it only skipped chunks.
abbrev Follows : RetirementChunkStatus → Type 0 → Type 0 → Type 0
Follows success on stop = on
Follows failed on stop = stop
Follows skipped on stop = ⊥

abbrev pub IsSequential : List RetirementChunkResult → Type 0
IsSequential [] = Unit
IsSequential (r ∷ rs) = Follows r.status (IsSequential rs) (All IsSkipped rs)

abbrev pub all_loan_ids : List RetirementChunkResult → List String
all_loan_ids rs = concat (map (λ r. r.loan_ids) rs)

map-append_ids :
    (xs ys : List RetirementTarget) → loan_ids_of (xs ++ ys) ≡ loan_ids_of xs ++ loan_ids_of ys
map-append_ids [] ys = refl
map-append_ids (x ∷ xs) ys = ap (λ l. x.id ∷ l) (map-append_ids xs ys)

pub Submission-cases :
    (s : Submission) → ((h : String) × (s ≡ confirmed h)) ⊎ ((m : String) × (s ≡ thrown m))
Submission-cases (confirmed h) = inl (h, refl)
Submission-cases (thrown m) = inr (m, refl)

module _ {W : Type 0} (submit : List String → W → Submission × W) where
  -- Once aborted nothing is submitted.
  retire_chunks-aborted :
      (chunks : List (List RetirementTarget)) (w : W)
      → retire_chunks submit chunks true w ≡ (map skipped_result chunks, w)
  unfolding retire_chunks
  retire_chunks-aborted [] w = refl
  retire_chunks-aborted (c ∷ cs) w = rw (retire_chunks-aborted cs w)

  map-IsSkipped :
      (chunks : List (List RetirementTarget)) → All IsSkipped (map skipped_result chunks)
  map-IsSkipped [] = tt
  map-IsSkipped (c ∷ cs) = (refl, map-IsSkipped cs)

  skipped_ids :
      (chunks : List (List RetirementTarget))
      → all_loan_ids (map skipped_result chunks) ≡ loan_ids_of (concat chunks)
  skipped_ids [] = refl
  skipped_ids (c ∷ cs) = rw (skipped_ids cs) (sym (map-append_ids c (concat cs)))

  retire_chunks_lem :
      (chunks : List (List RetirementTarget)) (w : W)
      → IsSequential (retire_chunks submit chunks false w).0
        × (all_loan_ids (retire_chunks submit chunks false w).0 ≡ loan_ids_of (concat chunks))
  unfolding retire_chunks
  retire_chunks_lem [] w = (tt, refl)
  retire_chunks_lem (c ∷ cs) w =
      let join = sym (map-append_ids c (concat cs)) in
      let next : W = (submit (contract_ids_of c) w).1 in
      elim (Submission-cases (submit (contract_ids_of c) w).0) [
        | inl (h, e) ↦
            let (seq, same) = retire_chunks_lem cs next in
            rw e (seq, ap (λ l. loan_ids_of c ++ l) same ∙ join)
        | inr (m, e) ↦ rw e (
            rw (retire_chunks-aborted cs next)
              (map-IsSkipped cs, ap (λ l. loan_ids_of c ++ l) (skipped_ids cs) ∙ join))
      ]

  -- With at least one operation to a transaction, `retireLoansOnChain` returns: its chunks cover
  -- the loans in the order of the request, and they are successes up to at most one failure, after
  -- which every chunk is skipped.
  pub retire_loans-IsSequential :
      (loans : List RetirementTarget) (max_ops : ℕ) (w : W)
      → 0 < max_ops
      → (results : List RetirementChunkResult) × (w' : W) × (retire_loans_on_chain submit loans
            max_ops w
          ≡ some (results, w'))
        × IsSequential results
        × (all_loan_ids results ≡ loan_ids_of loans)
  unfolding retire_loans_on_chain
  retire_loans-IsSequential loans max_ops w pos =
      let (chunks, e, whole, fits) = concat-chunk_array loans max_ops pos in
      let (seq, ids) = retire_chunks_lem chunks w in
      (
        (retire_chunks submit chunks false w).0,
        (retire_chunks submit chunks false w).1,
        rw e,
        seq,
        ids ∙ ap loan_ids_of whole,
      )

  -- Once a chunk has failed, the chain is left alone and every later chunk is reported skipped; so
  -- the state of the chain is the one that the failed submission left.
  pub retire_chunks-after_failure :
      (chunk : List RetirementTarget) (chunks : List (List RetirementTarget)) (w : W) (m : String)
      → (submit (contract_ids_of chunk) w).0 ≡ thrown m
      → retire_chunks submit (chunk ∷ chunks) false w ≡ (
        submitted_result chunk (thrown m) ∷ map skipped_result chunks,
        (submit (contract_ids_of chunk) w).1,
      )
  unfolding retire_chunks
  retire_chunks-after_failure chunk chunks w m e =
      rw e (rw (retire_chunks-aborted chunks (submit (contract_ids_of chunk) w).1))
