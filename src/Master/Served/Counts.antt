-- ===== src/Master/Served/Counts.antt =====
-- The counts of a search: what its session has counted and what its tasks are still to bring make up what
-- the search brings. `matches` and `lines` are what the answer to a task holds.
use native.Mathlib.Decide.{ℕ_discrete}
use log_grid.Base.{
  List, ap, arith, length, min, refl, some, some_injective, subst, sum_by, sym, ℕ, ◌%◌, ◌+◌, ◌<◌,
  ◌^◌, ◌∙◌, ◌≡◌, ◌≢◌, ◌≤◌,
}
use log_grid.Base.Assoc.{lookup}
use log_grid.Protocol.{ChunkResult, TaskPayload}
use log_grid.Master.State.{MasterServer, SearchSession}
use log_grid.Master.Dispatch.Tally.{IgnoresId, Sound, tally}
use log_grid.Master.Accounting.{of_search, of_search-IgnoresId, outstanding}
use log_grid.Master.Books.Completion.{session_after}
use log_grid.Master.Served.{Published}
use log_grid.Master.Served.Answered.{Answered}
use log_grid.Master.Served.Measures.{only, only-IgnoresId, only_ne, only_self}

module _ (matches lines : TaskPayload → ℕ) where
  -- Of one search: nothing of its matches and lines is lost or counted twice.
  pub record Counts (k : ℕ) (p : Published) (s : MasterServer) (session : SearchSession)
      : Type 0 where
    pub same_max : session.max_results ≡ p.max_results
    pub bounded : session.line_count ≤ session.max_results
    pub few : outstanding k s ≤ length p.tasks
    pub matches_u64 : session.total_matches < 2 ^ 64
    pub all_matches :
        (session.total_matches + tally (only k matches) s) % 2 ^ 64
        ≡ sum_by matches p.tasks % 2 ^ 64
    pub all_lines :
        min (session.line_count + tally (only k lines) s) session.max_results
        ≡ min (sum_by lines p.tasks) session.max_results

  -- Every search that was started is known, with its counts.
  abbrev pub Ledger : List (ℕ × Published) → MasterServer → Type 0
  Ledger log s =
      (k : ℕ) (p : Published)
      → lookup k log ≡ some p
      → (session : SearchSession) × (lookup k s.sessions ≡ some session) × Counts k p s session

  module _ (matches-IgnoresId : IgnoresId matches) (lines-IgnoresId : IgnoresId lines) where
    pub Sound-Ledger :
        (log : List (ℕ × Published)) {from s : MasterServer}
        → Sound from s
        → Ledger log from
        → Ledger log s
    Sound-Ledger log v ledger k p e =
        let (session, known, c) = ledger k p e in
        (
          session,
          ap (lookup k) v.same_sessions ∙ known,
          record {
            same_max = c.same_max;
            bounded = c.bounded;
            few = omega (arith, v.same_tasks (of_search k) (of_search-IgnoresId k), c.few);
            matches_u64 = c.matches_u64;
            all_matches = omega (
              arith,
              v.same_tasks (only k matches) (only-IgnoresId k matches matches-IgnoresId),
              c.all_matches,
            );
            all_lines = omega (
              arith,
              v.same_tasks (only k lines) (only-IgnoresId k lines lines-IgnoresId),
              c.all_lines,
            );
          },
        )

    module _ (b : ChunkResult) (t : TaskPayload) (old : SearchSession) (from s : MasterServer)
        (a : Answered b t old from s) where
      -- The search that the answer is for.
      answered_same :
          (p : Published)
          → b.total_matches ≡ matches t
          → length b.lines ≡ lines t
          → Counts t.search_id p from old
          → Counts t.search_id p s (session_after old b)
      answered_same p all_there all_lines_there c = record {
        same_max = c.same_max;
        bounded = omega arith;
        few =
            omega
              (arith, a.one_less (of_search t.search_id) (of_search-IgnoresId t.search_id), c.few);
        matches_u64 = omega arith;
        all_matches = omega (
          arith,
          a.one_less (only t.search_id matches)
              (only-IgnoresId t.search_id matches matches-IgnoresId),
          only_self t.search_id matches t refl,
          all_there,
          c.all_matches,
        );
        all_lines = omega (
          arith,
          a.one_less (only t.search_id lines) (only-IgnoresId t.search_id lines lines-IgnoresId),
          only_self t.search_id lines t refl,
          all_lines_there,
          c.all_lines,
          c.bounded,
        );
      }

      -- Any other.
      answered_other :
          (k : ℕ) (p : Published) (session : SearchSession)
          → t.search_id ≢ k
          → Counts k p from session
          → Counts k p s session
      answered_other k p session apart c = record {
        same_max = c.same_max;
        bounded = c.bounded;
        few = omega (arith, a.one_less (of_search k) (of_search-IgnoresId k), c.few);
        matches_u64 = c.matches_u64;
        all_matches = omega (
          arith,
          a.one_less (only k matches) (only-IgnoresId k matches matches-IgnoresId),
          only_ne k matches t apart,
          c.all_matches,
        );
        all_lines = omega (
          arith,
          a.one_less (only k lines) (only-IgnoresId k lines lines-IgnoresId),
          only_ne k lines t apart,
          c.all_lines,
        );
      }

      pub Answered-Ledger :
          (log : List (ℕ × Published))
          → lookup t.search_id from.sessions ≡ some old
          → b.total_matches ≡ matches t
          → length b.lines ≡ lines t
          → Ledger log from
          → Ledger log s
      Answered-Ledger log known all_there all_lines_there ledger k p e =
          let (session, there, c) = ledger k p e in
          elim (ℕ_discrete t.search_id k) [
            | yes same ↦
                let it : session ≡ old =
                  some_injective
                    (sym there ∙ (ap (λ j. lookup j from.sessions) (sym same) ∙ known)) in
                let here =
                  subst (Counts t.search_id p from) it
                    (subst (λ j. Counts j p from session) (sym same) c) in
                subst
                  (λ j.
                    (after : SearchSession) × (lookup j s.sessions ≡ some after)
                    × Counts j p s after)
                  same
                  (session_after old b, a.counted, answered_same p all_there all_lines_there here)
            | no apart ↦ (session, a.others k apart ∙ there, answered_other k p session apart c)
          ]
