-- ===== src/Master/Served/Filed.antt =====
-- The result files of the searches under what a call does. `UniquePaths` says that no two searches have
-- the same result file: CreateSessionFilePath puts the id of the search into its name.
use mathlib.Core.Option.{some-ne-none}
use native.Mathlib.Decide.{ℕ_discrete}
use log_grid.Base.Assoc.{insert, lookup, lookup-insert_ne, lookup-insert_self}
use log_grid.Protocol.{ChunkResult, TaskPayload}
use log_grid.Master.State.{MasterServer, SearchSession, add_pending_tasks, allocate_search_id}
use log_grid.Master.Results.{file_text}
use log_grid.Master.Start.{Environment, create_session_file_path}
use log_grid.Master.Accounting.{Inv}
use log_grid.Master.Promises.{BuildPromise, Started}
use log_grid.Master.Promises.Building.{build_session-Promise}
use log_grid.Master.Books.Written.{written_after}
use log_grid.Master.Books.Completion.{session_after}
use log_grid.Master.Served.{Request}
use log_grid.Master.Served.Unwritten.{KeepsFiles, assign_idle_workers-KeepsFiles}
use log_grid.Master.Served.Texts.{Stored, text_at, text_at-written_after, written_after-Stored}
use log_grid.Base.{
  Bool, List, [], ap, arith, length, none, refl, some, some_injective, subst, sym, true, ℕ, ◌%◌,
  ◌^◌, ◌∙◌, ◌≡◌, ◌≢◌, ◌≤◌,
}

module _ (env : Environment) where
  abbrev pub UniquePaths : Type 0
  UniquePaths =
      (j k : ℕ) (dir other path : List ℕ)
      → create_session_file_path env dir j ≡ some path
      → create_session_file_path env other k ≡ some path
      → j ≡ k

  -- The path is one that CreateSessionFilePath gives for the search.
  abbrev pub IsPathOf : ℕ → List ℕ → Type 0
  IsPathOf k path = (dir : List ℕ) × (create_session_file_path env dir k ≡ some path)

  module _ (can_open : List ℕ → Bool) where
    -- Of a known search.
    pub record FiledAs (k : ℕ) (session : SearchSession) (written : List (List ℕ × List ℕ))
        : Type 0 where
      pub made : IsPathOf k session.path
      pub bounded : session.line_count ≤ session.max_results
      pub stored : can_open session.path ≡ true → Stored session written

    -- The file of a search that is not known is empty.
    pub record Filed (s : MasterServer) : Type 0 where
      pub known_ones :
          (k : ℕ) (session : SearchSession)
          → lookup k s.sessions ≡ some session
          → FiledAs k session s.written
      pub unknown_ones :
          (k : ℕ) (path : List ℕ)
          → IsPathOf k path
          → lookup k s.sessions ≡ none
          → text_at path s.written ≡ []

    pub KeepsFiles-Filed : (from s : MasterServer) → KeepsFiles from s → Filed from → Filed s
    KeepsFiles-Filed from s same v = record {
      known_ones = λ k session e.
          subst (FiledAs k session) (sym same.same_written)
            (v.known_ones k session (ap (lookup k) (sym same.same_sessions) ∙ e));
      unknown_ones = λ k path made e.
          ap (text_at path) same.same_written
          ∙ v.unknown_ones k path made (ap (lookup k) (sym same.same_sessions) ∙ e);
    }

    module _ (unique : UniquePaths) where
      -- A batch is stored for the search `id`.
      pub batch-Filed :
          (id : ℕ) (old : SearchSession) (b : ChunkResult) (from s : MasterServer)
          → lookup id from.sessions ≡ some old
          → lookup id s.sessions ≡ some (session_after old b)
          → ((k : ℕ) → id ≢ k → lookup k s.sessions ≡ lookup k from.sessions)
          → s.written ≡ written_after can_open old b.lines from.written
          → Filed from
          → Filed s
      batch-Filed id old b from s known after others written v =
          let here = v.known_ones id old known in
          let elsewhere : (k : ℕ) (path : List ℕ)
              → id ≢ k
              → IsPathOf k path
              → text_at path s.written ≡ text_at path from.written =
            λ k path apart made.
              ap (text_at path) written
              ∙ text_at-written_after can_open old b from.written path (λ same.
                apart (unique id k here.made.0 made.0 path (here.made.1 ∙ ap some same) made.1)) in
          record {
            known_ones = λ k session e. elim (ℕ_discrete id k) [
              | yes same ↦
                  let it : session_after old b ≡ session =
                    some_injective (sym after ∙ (ap (λ j. lookup j s.sessions) same ∙ e)) in
                  subst (λ r. FiledAs k r s.written) it
                    (subst (λ j. FiledAs j (session_after old b) s.written) same
                      (record {
                        made = here.made;
                        bounded = omega (arith, here.bounded);
                        stored = λ opens. subst (Stored (session_after old b)) (sym written) (
                            written_after-Stored can_open old b from.written opens here.bounded
                              (here.stored opens));
                      }))
              | no apart ↦
                  let was = v.known_ones k session (sym (others k apart) ∙ e) in
                  record {
                    made = was.made;
                    bounded = was.bounded;
                    stored = λ opens.
                        let (lines, count, text) = was.stored opens in
                        (lines, count, elsewhere k session.path apart was.made ∙ text);
                  }
            ];
            unknown_ones = λ k path made e.
                let apart : id ≢ k =
                  λ same. some-ne-none _ (sym after ∙ (ap (λ j. lookup j s.sessions) same ∙ e)) in
                elsewhere k path apart made ∙ v.unknown_ones k path made (sym (others k apart) ∙ e);
          }

      -- A search with nothing counted is published.
      published-Filed :
          (session : SearchSession) (tasks : List TaskPayload) (s : MasterServer)
          → IsPathOf session.search_id session.path
          → session.line_count ≡ 0
          → lookup session.search_id s.sessions ≡ none
          → Filed s
          → Filed (add_pending_tasks session tasks s)
      unfolding add_pending_tasks file_text
      published-Filed session tasks s made nothing unused v =
          let published = record session { chunks_total = length tasks % 2 ^ 32 } in
          record {
            known_ones = λ k found e. elim (ℕ_discrete session.search_id k) [
              | yes same ↦
                  let it : published ≡ found = some_injective (
                    sym (lookup-insert_self session.search_id published s.sessions)
                    ∙ (ap (λ j. lookup j (insert session.search_id published s.sessions)) same
                        ∙ e)) in
                  subst (λ r. FiledAs k r s.written) it
                    (subst (λ j. FiledAs j published s.written) same
                      (record {
                        made = made;
                        bounded = omega (arith, nothing);
                        stored = λ opens. (
                          [],
                          sym nothing,
                          v.unknown_ones session.search_id session.path made unused,
                        );
                      }))
              | no apart ↦
                  v.known_ones k found
                    (sym (lookup-insert_ne session.search_id k published s.sessions apart) ∙ e)
            ];
            unknown_ones = λ k path there e. elim (ℕ_discrete session.search_id k) [
              | yes same ↦ absurd (
                  some-ne-none published (
                    sym (lookup-insert_self session.search_id published s.sessions)
                    ∙ (ap (λ j. lookup j (insert session.search_id published s.sessions)) same
                        ∙ e)))
              | no apart ↦
                  v.unknown_ones k path there
                    (sym (lookup-insert_ne session.search_id k published s.sessions apart) ∙ e)
            ];
          }

      pub Started-Filed :
          (r : Request) (id : ℕ) (s s' : MasterServer)
          → Inv s
          → Started env r.fs r.keyword r.config r.depth r.filepath s id s'
          → Filed s
          → Filed s'
      unfolding allocate_search_id
      Started-Filed r id s s' v started filed =
          let (path, same_id, same_max, blank) =
            subst (BuildPromise env id r.config) started.built
              (build_session-Promise env id r.config) in
          let session = record started.session { scan_errors = started.acc.scan_errors } in
          let allocated = (allocate_search_id s).1 in
          let unused : lookup session.search_id allocated.sessions ≡ none =
            v.unpublished session.search_id (omega (arith, same_id, started.next_id)) in
          subst Filed (sym started.published) (
            KeepsFiles-Filed _ _ (assign_idle_workers-KeepsFiles _) (
              published-Filed session started.acc.out_tasks allocated
                (
                  r.config.output_dir,
                  subst
                      (λ k. create_session_file_path env r.config.output_dir k ≡ some session.path)
                      (sym same_id) path,
                )
                (omega (arith, blank)) unused
                (KeepsFiles-Filed s allocated (record { same_sessions = refl; same_written = refl })
                  filed)))
