-- ===== src/Master/Served/Kept.antt =====
-- The books and the counts of the searches under every call.
use mathlib.Core.List.{Perm}
use log_grid.Base.{
  Bool, List, Option-cases, ap, arith, inl, inr, length, none, refl, some, some_injective, subst,
  sym, ℕ, ◌+◌, ◌<◌, ◌^◌, ◌∙◌, ◌∷◌, ◌≡◌, ◌≢◌, ◌≤◌,
}
use mathlib.Core.Option.{some-ne-none}
use log_grid.Base.Assoc.{lookup}
use log_grid.Net.Message.{Message}
use log_grid.Protocol.{ChunkResult, TaskPayload}
use log_grid.Protocol.Batch.{IsBatch, task_done_message}
use log_grid.Master.State.{MasterServer, SearchSession}
use log_grid.Master.Dispatch.{tasks_of}
use log_grid.Master.Dispatch.Tally.{IgnoresId, Sound, assign_idle_workers-Sound, tally}
use log_grid.Master.Handlers.{on_client_disconnect, on_message}
use log_grid.Master.Start.{Environment}
use log_grid.Master.Accounting.{Inv, Inv-Sound, of_search}
use log_grid.Master.Books.Messages.{on_message-Inv}
use log_grid.Master.Books.Publish.{init-Inv}
use log_grid.Master.Books.Finish.{finished-Without}
use log_grid.Master.Books.Reclaim.{on_client_disconnect-Inv, reclaim_tasks-Sound}
use log_grid.Master.Promises.{Untouched}
use log_grid.Master.Promises.Searches.{start_search-Promise}
use log_grid.Master.Served.{
  Published, Served, begins, loses_worker, refuses, searches, takes_message,
}
use log_grid.Master.Served.Answered.{on_message-Answered}
use log_grid.Master.Served.Begun.{Begun, Untouched-Inv, start_search-Begun}
use log_grid.Master.Served.Opened.{Begun-Ledger}
use log_grid.Master.Served.Counts.{Answered-Ledger, Ledger, Sound-Ledger}
use log_grid.Master.Served.Honest.{
  IsAnswer, IsHonest, gives_answer, gives_other, on_message-Sound, on_message_unknown,
}

module _ (can_open : List ℕ → Bool) (walk : List (ℕ × TaskPayload) → List (ℕ × TaskPayload))
    (walk-perm : (ts : List (ℕ × TaskPayload)) → Perm (walk ts) ts) (env : Environment) where
  -- The books are in order at any time, whatever the workers send.
  pub Served-Inv :
      (MaySend : ℕ → Message → MasterServer → Type 0) (log : List (ℕ × Published))
      (s : MasterServer)
      → Served can_open walk env MaySend log s
      → Inv s
  Served-Inv MaySend log s begins = init-Inv
  Served-Inv MaySend log s (takes_message client msg before may room e) =
      on_message-Inv can_open client _ room (Served-Inv MaySend _ _ before) msg s e
  Served-Inv MaySend log s (loses_worker client before room) =
      (on_client_disconnect-Inv walk walk-perm client _ (λ t. 0) (Served-Inv MaySend _ _ before)
        room (λ t id. refl)).0
  Served-Inv MaySend log s (refuses r before ids e) =
      Untouched-Inv _ s ids (Served-Inv MaySend _ _ before)
        (start_search-Promise env r.fs r.keyword r.config r.depth r.filepath _ none s e)
  Served-Inv MaySend log s (searches r id acc before ids room e c) =
      (start_search-Begun env r _ ids (Served-Inv MaySend _ _ before) id acc s room e c).inv

-- No other search is known than those that were started.
abbrev pub AllLogged : List (ℕ × Published) → MasterServer → Type 0
AllLogged log s = (k : ℕ) → lookup k log ≡ none → lookup k s.sessions ≡ none

-- The search of a task that is in flight is known.
pub task_there-known :
    (client task_id : ℕ) (s : MasterServer) (t : TaskPayload)
    → Inv s
    → lookup task_id (tasks_of client s) ≡ some t
    → (session : SearchSession) × (lookup t.search_id s.sessions ≡ some session)
task_there-known client task_id s t v there = elim (Option-cases (lookup t.search_id s.sessions)) [
  | inr found ↦ found
  | inl unknown ↦
      let w = finished-Without client task_id s t v.distinct v.fresh there in
      let none_left = v.books.published t.search_id unknown in
      let one : of_search t.search_id t ≡ 1 = ground arith in
      absurd (omega (arith, w.one_less (of_search t.search_id), none_left, one))
]

module _ (can_open : List ℕ → Bool) (matches lines : TaskPayload → ℕ)
    (matches-IgnoresId : IgnoresId matches) (lines-IgnoresId : IgnoresId lines) where
  abbrev pub Reported : List (ℕ × Published) → MasterServer → Type 0
  Reported log s = Ledger matches lines log s × AllLogged log s

  Sound-Reported :
      (log : List (ℕ × Published)) {from s : MasterServer}
      → Sound from s
      → Reported log from
      → Reported log s
  Sound-Reported log v (ledger, logged) = (
    Sound-Ledger matches lines matches-IgnoresId lines-IgnoresId log v ledger,
    λ k e. ap (lookup k) v.same_sessions ∙ logged k e,
  )

  answer-Reported :
      (log : List (ℕ × Published)) (client : ℕ) (b : ChunkResult) (s s' : MasterServer)
      → IsBatch b
      → IsAnswer matches lines client b s
      → Inv s
      → s.next_task_id + length s.pending_tasks < 2 ^ 64
      → on_message can_open client (task_done_message b) s ≡ some s'
      → Reported log s
      → Reported log s'
  answer-Reported log client b s s' valid honest v room e (ledger, logged) =
      elim (Option-cases (lookup b.task_id (tasks_of client s))) [
        | inl unknown ↦
            let same =
              some_injective (sym (on_message_unknown can_open client b s valid unknown) ∙ e) in
            subst (Reported log) same (ledger, logged)
        | inr (t, there) ↦
            let (session, known) = task_there-known client b.task_id s t v there in
            elim (Option-cases (lookup t.search_id log)) [
              | inl missing ↦ absurd (some-ne-none _ (sym known ∙ logged t.search_id missing))
              | inr (p, listed) ↦
                  let (same_session, found, c) = ledger t.search_id p listed in
                  let it : same_session ≡ session = some_injective (sym found ∙ known) in
                  let bounded = subst (λ r. r.line_count ≤ r.max_results) it c.bounded in
                  let a =
                    on_message-Answered can_open client b s t session v room there known s' valid
                      bounded e in
                  (
                    Answered-Ledger matches lines matches-IgnoresId lines-IgnoresId b t session s s'
                        a log known (honest t there).0 (honest t there).1 ledger,
                    λ k absent.
                        let apart : t.search_id ≢ k = λ same.
                          some-ne-none _
                            (sym known ∙ (ap (λ j. lookup j s.sessions) same ∙ logged k absent)) in
                        a.others k apart ∙ logged k absent,
                  )
            ]
      ]

module _ (can_open : List ℕ → Bool) (walk : List (ℕ × TaskPayload) → List (ℕ × TaskPayload))
    (walk-perm : (ts : List (ℕ × TaskPayload)) → Perm (walk ts) ts) (env : Environment)
    (matches lines : TaskPayload → ℕ) (matches-IgnoresId : IgnoresId matches)
    (lines-IgnoresId : IgnoresId lines) where
  abbrev pub Work : List (ℕ × Published) → MasterServer → Type 0
  Work = Served can_open walk env (IsHonest matches lines)

  abbrev pub Told : List (ℕ × Published) → MasterServer → Type 0
  Told = Reported can_open matches lines matches-IgnoresId lines-IgnoresId

  pub Work-Inv : (log : List (ℕ × Published)) (s : MasterServer) → Work log s → Inv s
  Work-Inv = Served-Inv can_open walk walk-perm env (IsHonest matches lines)

  message-Reported :
      (log : List (ℕ × Published)) (client : ℕ) (msg : Message) (s s' : MasterServer)
      → Inv s
      → s.next_task_id + length s.pending_tasks < 2 ^ 64
      → on_message can_open client msg s ≡ some s'
      → IsHonest matches lines client msg s
      → Told log s
      → Told log s'
  message-Reported log client msg s s' v room e (gives_other other_kind) told =
      Sound-Reported can_open matches lines matches-IgnoresId lines-IgnoresId log
        (on_message-Sound can_open client msg s s' (Inv-Sound room v) other_kind e) told
  message-Reported log client msg s s' v room e (gives_answer b valid same honest) told =
      answer-Reported can_open matches lines matches-IgnoresId lines-IgnoresId log client b s s'
        valid honest v room (ap (λ m. on_message can_open client m s) (sym same) ∙ e) told

  Untouched-Reported :
      (log : List (ℕ × Published)) (s s' : MasterServer) → Untouched s s' → Told log s → Told log s'
  unfolding tally
  Untouched-Reported log s s' (inl e) told = subst (Told log) (sym e) told
  Untouched-Reported log s s' (inr e) (ledger, logged) = subst (Told log) (sym e) (
    λ k p listed.
        let (session, known, c) = ledger k p listed in
        (
          session,
          known,
          record {
            same_max = c.same_max;
            bounded = c.bounded;
            few = c.few;
            matches_u64 = c.matches_u64;
            all_matches = c.all_matches;
            all_lines = c.all_lines;
          },
        ),
    logged,
  )

  disconnect-Sound :
      (client : ℕ) (s : MasterServer)
      → Inv s
      → s.next_task_id + length s.pending_tasks + length (tasks_of client s) < 2 ^ 64
      → Sound s (on_client_disconnect walk client s)
  unfolding on_client_disconnect
  disconnect-Sound client s v room =
      assign_idle_workers-Sound _
        (reclaim_tasks-Sound walk walk-perm client s v.distinct v.fresh room)

  Begun-Reported :
      (log : List (ℕ × Published)) (id : ℕ) (p : Published) (s s' : MasterServer)
      → Inv s
      → Begun id p s s'
      → Told log s
      → Told ((id, p) ∷ log) s'
  Begun-Reported log id p s s' v b (ledger, logged) =
      let unused = v.unpublished id (omega (arith, b.next_id)) in
      let none_yet = v.books.published id unused in
      (
        Begun-Ledger matches lines matches-IgnoresId lines-IgnoresId id p s s' b log
            (omega (arith, none_yet)) ledger,
        λ k absent.
            let apart : id ≢ k = λ same. ground arith in
            let older : lookup k log ≡ none = ground arith in b.others k apart ∙ logged k older,
      )

  pub Served-Reported : (log : List (ℕ × Published)) (s : MasterServer) → Work log s → Told log s
  Served-Reported log s begins = ((λ k p e. absurd (some-ne-none _ (sym e))), λ k e. refl)
  Served-Reported log s (takes_message client msg before may room e) =
      message-Reported log client msg _ s (Work-Inv _ _ before) room e may
        (Served-Reported _ _ before)
  Served-Reported log s (loses_worker client before room) =
      Sound-Reported can_open matches lines matches-IgnoresId lines-IgnoresId log
        (disconnect-Sound client _ (Work-Inv _ _ before) room) (Served-Reported _ _ before)
  Served-Reported log s (refuses r before ids e) =
      Untouched-Reported log _ s
        (start_search-Promise env r.fs r.keyword r.config r.depth r.filepath _ none s e)
        (Served-Reported _ _ before)
  Served-Reported log s (searches r id acc before ids room e c) =
      let v = Work-Inv _ _ before in
      Begun-Reported _ id _ _ s v (start_search-Begun env r _ ids v id acc s room e c)
        (Served-Reported _ _ before)
