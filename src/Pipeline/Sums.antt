-- ===== src/Pipeline/Sums.antt =====
-- What the tasks of a search bring together, by the workers' search of each.
use mathlib.Core.Option.{some-ne-none}
use log_grid.Base.{
  Bool, List, Option, Option-cases, [], ap, arith, inl, inr, length, length-append, refl, some,
  some_injective, subst, sum_by, sym, ℕ, ◌∙◌, ◌∷◌, ◌≡◌,
}
use log_grid.Protocol.{ChunkResult, TaskPayload, no_result}
use log_grid.Worker.FileProcessor.{search_content, search_task}
use log_grid.Master.State.{get_or}
use log_grid.Master.Dispatch.Tally.{IgnoresId}
use log_grid.Pipeline.Matches.{all_lines, all_matches, search_all}

module _ {R : Type 0} (compile : List ℕ → Option R) (regex_search : R → List ℕ → Bool)
    (open_file : List ℕ → Option (List ℕ)) where
  -- The batch of a task, as the job of a worker makes it, and its counts.
  abbrev pub brought : TaskPayload → ChunkResult
  brought t = get_or (search_task compile regex_search open_file t t.max_results) no_result

  abbrev pub matches_of : TaskPayload → ℕ
  matches_of t = (brought t).total_matches

  abbrev pub lines_of_task : TaskPayload → ℕ
  lines_of_task t = length (brought t).lines

  brought_any_id : (t : TaskPayload) (id : ℕ) → brought (record t { task_id = id }) ≡ brought t
  unfolding search_task search_content
  brought_any_id t id = refl

  pub matches_of-IgnoresId : IgnoresId matches_of
  matches_of-IgnoresId t id = ap (λ b. b.total_matches) (brought_any_id t id)

  pub lines_of_task-IgnoresId : IgnoresId lines_of_task
  lines_of_task-IgnoresId t id = ap (λ b. length b.lines) (brought_any_id t id)

  -- If all searches end, the sums are those of the batches.
  pub sums-search_all :
      (ts : List TaskPayload) (bs : List ChunkResult)
      → search_all compile regex_search open_file ts ≡ some bs
      → (sum_by matches_of ts ≡ all_matches bs) × (sum_by lines_of_task ts ≡ length (all_lines bs))
  unfolding search_all all_matches all_lines
  sums-search_all [] bs e =
      subst (λ r. (0 ≡ all_matches r) × (0 ≡ length (all_lines r))) (some_injective e) (refl, refl)
  sums-search_all (t ∷ ts) bs e =
      elim (Option-cases (search_task compile regex_search open_file t t.max_results)) [
        | inl fails ↦ absurd (some-ne-none bs (sym e ∙ rw fails refl))
        | inr (b, found) ↦ elim (Option-cases (search_all compile regex_search open_file ts)) [
          | inl fails ↦ absurd (some-ne-none bs (sym e ∙ rw (found, fails) refl))
          | inr (rest, runs) ↦
              let it : b ∷ rest ≡ bs = some_injective (sym (rw (found, runs) refl) ∙ e) in
              let (count, lines) = sums-search_all ts rest runs in
              let here = ap (λ o. get_or o no_result) found in
              subst
                (λ r.
                  (sum_by matches_of (t ∷ ts) ≡ all_matches r)
                  × (sum_by lines_of_task (t ∷ ts) ≡ length (all_lines r)))
                it
                (
                  omega (arith, count, ap (λ r. r.total_matches) here),
                  omega (
                    arith,
                    lines,
                    ap (λ r. length r.lines) here,
                    length-append b.lines (all_lines rest),
                  ),
                )
        ]
      ]
