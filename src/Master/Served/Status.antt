-- ===== src/Master/Served/Status.antt =====
-- What GetStatus tells of a search that was started, while calls of the master follow one another.
use mathlib.Core.Option
use log_grid.Base.{Bool, List, false, length, min, some, sum_by, ℕ, ◌%◌, ◌^◌, ◌↔◌, ◌≡◌, ◌≤◌, ◌⊎◌}
use log_grid.Base.Assoc.{lookup}
use log_grid.Protocol.{TaskPayload}
use log_grid.Master.State.{MasterServer, SearchSession, SearchStatus, done}
use log_grid.Master.Accounting.{outstanding}
use log_grid.Master.Served.Texts.{text_at}
use log_grid.Master.Results.{file_text}
use log_grid.Master.Served.{Published, Served}
use log_grid.Master.Served.Counts.{Counts}

module _ (matches lines : TaskPayload → ℕ) where
  -- What the reply of GetStatus says of a search: it is done exactly when no task of it is left; and
  -- then its counts are those of all its tasks.
  pub record Reports (id : ℕ) (p : Published) (s : MasterServer) (status : SearchStatus)
      : Type 0 where
    pub done_iff : (status.state ≡ done) ↔ (outstanding id s ≡ 0)
    pub bounded : status.lines_found ≤ p.max_results
    pub final_matches : status.state ≡ done → status.total_matches ≡ sum_by matches p.tasks % 2 ^ 64
    pub final_lines :
        status.state ≡ done → status.lines_found ≡ min (sum_by lines p.tasks) p.max_results

-- That many lines were appended to the file with this path, each with its end, and nothing else.
abbrev pub Appended : List ℕ → List (List ℕ × List ℕ) → ℕ → Type 0
Appended path written count =
    (lines : List (List ℕ)) × (length lines ≡ count) × (text_at path written ≡ file_text lines)

-- The result file of a search, if it opens, has had as many lines appended as the reply counts.
abbrev pub HasLines : (List ℕ → Bool) → ℕ → MasterServer → ℕ → Type 0
HasLines can_open id s count =
    (session : SearchSession) × (lookup id s.sessions ≡ some session)
    × ((can_open session.path ≡ false) ⊎ Appended session.path s.written count)
