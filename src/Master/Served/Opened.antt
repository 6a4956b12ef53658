-- ===== src/Master/Served/Opened.antt =====
-- The counts of a search that has just been published, and of those before it.
use native.Mathlib.Decide.{ℕ_discrete}
use log_grid.Base.{List, arith, some, subst, ℕ, ◌∙◌, ◌∷◌, ◌≡◌, ◌≢◌}
use log_grid.Base.Assoc.{lookup}
use log_grid.Protocol.{TaskPayload}
use log_grid.Master.State.{MasterServer, SearchSession}
use log_grid.Master.Dispatch.Tally.{IgnoresId}
use log_grid.Master.Accounting.{of_search, of_search-IgnoresId, outstanding}
use log_grid.Master.Books.Publish.{sum_by-of_search_ne, sum_by-of_search_self}
use log_grid.Master.Served.{Published}
use log_grid.Master.Served.Counts.{Counts, Ledger}
use log_grid.Master.Served.Begun.{Begun}
use log_grid.Master.Served.Measures.{
  only, only-IgnoresId, sum_by-only_ne, sum_by-only_self, tally-only_none,
}

module _ (matches lines : TaskPayload → ℕ) (matches-IgnoresId : IgnoresId matches)
    (lines-IgnoresId : IgnoresId lines) where
  module _ (id : ℕ) (new : Published) (from s : MasterServer) (b : Begun id new from s) where
    begun_same : outstanding id from ≡ 0 → Counts matches lines id new s b.session
    begun_same none_yet = record {
      same_max = b.blank.same_max;
      bounded = omega (arith, b.blank.no_lines);
      few = omega (
        arith,
        none_yet,
        b.more_tasks (of_search id) (of_search-IgnoresId id),
        sum_by-of_search_self id new.tasks b.own,
      );
      matches_u64 = omega (arith, b.blank.no_matches);
      all_matches = omega (
        arith,
        b.blank.no_matches,
        b.more_tasks (only id matches) (only-IgnoresId id matches matches-IgnoresId),
        tally-only_none id matches from none_yet,
        sum_by-only_self id id matches new.tasks b.own,
      );
      all_lines = omega (
        arith,
        b.blank.no_lines,
        b.more_tasks (only id lines) (only-IgnoresId id lines lines-IgnoresId),
        tally-only_none id lines from none_yet,
        sum_by-only_self id id lines new.tasks b.own,
      );
    }

    begun_other :
        (k : ℕ) (p : Published) (session : SearchSession)
        → id ≢ k
        → Counts matches lines k p from session
        → Counts matches lines k p s session
    begun_other k p session apart c = record {
      same_max = c.same_max;
      bounded = c.bounded;
      few = omega (
        arith,
        b.more_tasks (of_search k) (of_search-IgnoresId k),
        sum_by-of_search_ne id k new.tasks apart b.own,
        c.few,
      );
      matches_u64 = c.matches_u64;
      all_matches = omega (
        arith,
        b.more_tasks (only k matches) (only-IgnoresId k matches matches-IgnoresId),
        sum_by-only_ne k id matches new.tasks apart b.own,
        c.all_matches,
      );
      all_lines = omega (
        arith,
        b.more_tasks (only k lines) (only-IgnoresId k lines lines-IgnoresId),
        sum_by-only_ne k id lines new.tasks apart b.own,
        c.all_lines,
      );
    }

    pub Begun-Ledger :
        (log : List (ℕ × Published))
        → outstanding id from ≡ 0
        → Ledger matches lines log from
        → Ledger matches lines ((id, new) ∷ log) s
    Begun-Ledger log none_yet ledger k p e = elim (ℕ_discrete id k) [
      | yes same ↦
          let it : new ≡ p = ground arith in
          subst
            (λ j.
              (session : SearchSession) × (lookup j s.sessions ≡ some session)
              × Counts matches lines j p s session)
            same
            (
              b.session,
              b.known,
              subst (λ q. Counts matches lines id q s b.session) it (begun_same none_yet),
            )
      | no apart ↦
          let older : lookup k log ≡ some p = ground arith in
          let (session, there, c) = ledger k p older in
          (session, b.others k apart ∙ there, begun_other k p session apart c)
    ]
