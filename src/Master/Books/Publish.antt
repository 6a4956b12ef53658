-- ===== src/Master/Books/Publish.antt =====
-- A new search and its status: AllocateSearchId, AddPendingTasks and GetStatus.
use native.Mathlib.Decide.{ℕ_discrete}
use mathlib.Core.Option
use log_grid.Base.{
  ==_iff, All, Bool-cases, List, Option-cases, [], ap, arith, inl, inr, length, none, refl, some,
  some_injective, subst, sum_by, sum_by-append, sym, ℕ, ◌%◌, ◌+◌, ◌<◌, ◌==◌, ◌^◌, ◌↔◌, ◌∙◌, ◌∷◌,
  ◌≡◌, ◌≢◌,
}
use log_grid.Base.Assoc.{insert, lookup, lookup-insert, lookup-insert_ne, lookup-insert_self}
use log_grid.Protocol.{TaskPayload}
use log_grid.Master.State.{
  MasterServer, SearchSession, SearchState, SearchStatus, add_pending_tasks, allocate_search_id,
  done, get_status, init, running, status_of,
}
use log_grid.Master.Dispatch.Tally.{tally}
use log_grid.Master.Accounting.{Agrees, Inv, InvWith, nothing_late, of_search, outstanding}

-- A master that has just started.
pub init-Inv : Inv init
unfolding tally
init-Inv = record {
  distinct = tt;
  fresh = λ client id less. refl;
  books = record { counted = λ k session e. absurd (ground arith); published = λ k e. refl };
  unpublished = λ id h. refl;
}

pub sum_by-of_search_self :
    (id : ℕ) (tasks : List TaskPayload)
    → All (λ t. t.search_id ≡ id) tasks
    → sum_by (of_search id) tasks ≡ length tasks
sum_by-of_search_self id [] h = refl
sum_by-of_search_self id (t ∷ tasks) h = ground (arith, sum_by-of_search_self id tasks h.1)

pub sum_by-of_search_ne :
    (id k : ℕ) (tasks : List TaskPayload)
    → id ≢ k
    → All (λ t. t.search_id ≡ id) tasks
    → sum_by (of_search k) tasks ≡ 0
sum_by-of_search_ne id k [] apart h = refl
sum_by-of_search_ne id k (t ∷ tasks) apart h =
    ground (arith, sum_by-of_search_ne id k tasks apart h.1)

-- What holds of the id that AllocateSearchId gives out, and of the state that it leaves.
abbrev GivenOut : (ℕ → ℕ) → ℕ × MasterServer → Type 0
GivenOut late (id, s) = InvWith late s × (id < s.next_search_id) × (lookup id s.sessions ≡ none)

pub allocate_search_id-InvWith :
    {late : ℕ → ℕ} (s : MasterServer)
    → s.next_search_id + 1 < 2 ^ 64
    → InvWith late s
    → GivenOut late (allocate_search_id s)
unfolding allocate_search_id tally
allocate_search_id-InvWith s room v = (
  record {
    distinct = v.distinct;
    fresh = v.fresh;
    books = record { counted = v.books.counted; published = v.books.published };
    unpublished = λ id h. v.unpublished id (omega arith);
  },
  omega arith,
  v.unpublished s.next_search_id (omega arith),
)

-- An id that AllocateSearchId gives out is not one of a known search, and is below the ids to
-- come, while the 64-bit counter does not wrap; the books are kept.
pub allocate_search_id-Inv :
    (s : MasterServer)
    → s.next_search_id + 1 < 2 ^ 64
    → Inv s
    → Inv (allocate_search_id s).1
      × ((allocate_search_id s).0 < (allocate_search_id s).1.next_search_id)
      × (lookup (allocate_search_id s).0 (allocate_search_id s).1.sessions ≡ none)
allocate_search_id-Inv s room v = allocate_search_id-InvWith s room v

module _ (session : SearchSession) (tasks : List TaskPayload) (s : MasterServer) where
  abbrev published_session : SearchSession
  published_session = record session { chunks_total = length tasks % 2 ^ 32 }

  pub tally-add_pending_tasks :
      (f : TaskPayload → ℕ)
      → tally f (add_pending_tasks session tasks s) ≡ tally f s + sum_by f tasks
  unfolding add_pending_tasks tally
  tally-add_pending_tasks f = omega (arith, sum_by-append f s.pending_tasks tasks)

  pub sessions-add_pending_tasks :
      (add_pending_tasks session tasks s).sessions
      ≡ insert session.search_id published_session s.sessions
  unfolding add_pending_tasks
  sessions-add_pending_tasks = refl

  module _ {late : ℕ → ℕ} (own : All (λ t. t.search_id ≡ session.search_id) tasks)
      (none_done : session.chunks_done ≡ 0) (unknown : lookup session.search_id s.sessions ≡ none)
      (v : InvWith late s) where
    counted_after :
        (k : ℕ) (found : SearchSession)
        → lookup k (add_pending_tasks session tasks s).sessions ≡ some found
        → Agrees (outstanding k (add_pending_tasks session tasks s) + late k) found
    counted_after k found e = elim (ℕ_discrete session.search_id k) [
      | yes same ↦
          let here : lookup k (insert session.search_id published_session s.sessions)
              ≡ some published_session =
            subst
              (λ j.
                lookup j (insert session.search_id published_session s.sessions)
                ≡ some published_session)
              same (lookup-insert_self session.search_id published_session s.sessions) in
          let it : published_session ≡ found =
            some_injective (sym here ∙ (ap (lookup k) (sym sessions-add_pending_tasks) ∙ e)) in
          subst (λ j. Agrees (outstanding j (add_pending_tasks session tasks s) + late j) found)
            same
            (subst (Agrees _) it (record {
              sum = omega (
                arith,
                none_done,
                tally-add_pending_tasks (of_search session.search_id),
                sum_by-of_search_self session.search_id tasks own,
                v.books.published session.search_id unknown,
              );
              done_u32 = omega (arith, none_done);
            }))
      | no apart ↦
          subst (λ n. Agrees n found)
            (omega (
              arith,
              tally-add_pending_tasks (of_search k),
              sum_by-of_search_ne session.search_id k tasks apart own,
            ))
            (v.books.counted k found (
              sym (lookup-insert_ne session.search_id k published_session s.sessions apart)
              ∙ (ap (lookup k) (sym sessions-add_pending_tasks) ∙ e)))
    ]

    published_after :
        (k : ℕ)
        → lookup k (add_pending_tasks session tasks s).sessions ≡ none
        → outstanding k (add_pending_tasks session tasks s) + late k ≡ 0
    published_after k e =
        let gone = ap (lookup k) (sym sessions-add_pending_tasks) ∙ e in
        elim (ℕ_discrete session.search_id k) [
          | yes same ↦
              absurd
                (ground (arith, lookup-insert session.search_id k published_session s.sessions))
          | no apart ↦ omega (
            arith,
            tally-add_pending_tasks (of_search k),
            sum_by-of_search_ne session.search_id k tasks apart own,
            v.books.published k (
                sym (lookup-insert_ne session.search_id k published_session s.sessions apart)
                ∙ gone),
          )
        ]

    pub add_pending_tasks-InvWith :
        session.search_id < s.next_search_id → InvWith late (add_pending_tasks session tasks s)
    add_pending_tasks-InvWith given_out = record {
      distinct = unfold add_pending_tasks in v.distinct;
      fresh = unfold add_pending_tasks in v.fresh;
      books = record { counted = counted_after; published = published_after };
      unpublished =
          unfold add_pending_tasks in
          λ id h.
            lookup-insert_ne session.search_id id published_session s.sessions (omega arith)
            ∙ v.unpublished id h;
    }

  -- A search that is published with tasks of its own and no chunk done, under an id that was given
  -- out and not used, keeps the books.
  pub add_pending_tasks-Inv :
      All (λ t. t.search_id ≡ session.search_id) tasks
      → session.chunks_done ≡ 0
      → lookup session.search_id s.sessions ≡ none
      → Inv s
      → session.search_id < s.next_search_id
      → Inv (add_pending_tasks session tasks s)
  add_pending_tasks-Inv own none_done unknown v given_out =
      add_pending_tasks-InvWith own none_done unknown v given_out

abbrev is_running : SearchState → ℕ
is_running running = 1
is_running done = 0

running≢done : running ≢ done
running≢done e = omega (arith, ap is_running e)

status_of-done_iff :
    (unfinished : ℕ) (session : SearchSession)
    → unfinished < 2 ^ 32
    → Agrees unfinished session
    → ((status_of session).state ≡ done) ↔ (unfinished ≡ 0)
status_of-done_iff unfinished session small a =
    elim (Bool-cases (session.chunks_done == session.chunks_total)) [
      | inl same ↦ rw same (
        (λ e.
            omega
              (arith, a.sum, a.done_u32, (==_iff session.chunks_done session.chunks_total).0 same)),
        λ e. refl,
      )
      | inr apart ↦
          rw apart ((λ e. absurd (running≢done e)), λ e. absurd (ground (arith, a.sum, a.done_u32)))
    ]

pub get_status-done_with :
    {late : ℕ → ℕ} (id : ℕ) (s : MasterServer) (status : SearchStatus)
    → InvWith late s
    → outstanding id s + late id < 2 ^ 32
    → get_status s id ≡ some status
    → (status.state ≡ done) ↔ (outstanding id s + late id ≡ 0)
unfolding get_status
get_status-done_with {late} id s status v small e = elim (Option-cases (lookup id s.sessions)) [
  | inl unknown ↦ absurd (ground arith)
  | inr (session, known) ↦
      let it : status_of session ≡ status =
        some_injective (sym (ap (Option.map status_of) known) ∙ e) in
      subst (λ st. (st.state ≡ done) ↔ (outstanding id s + late id ≡ 0)) it
        (status_of-done_iff (outstanding id s + late id) session small
          (v.books.counted id session known))
]

-- GetStatus reports a known search as done exactly when none of its chunks wait or are in flight,
-- as long as the books are in order and there are less than 2 ^ 32 of those chunks.
pub get_status-done_iff :
    (id : ℕ) (s : MasterServer) (status : SearchStatus)
    → Inv s
    → outstanding id s < 2 ^ 32
    → get_status s id ≡ some status
    → (status.state ≡ done) ↔ (outstanding id s ≡ 0)
get_status-done_iff id s status v small e =
    let none_late : outstanding id s + nothing_late id ≡ outstanding id s = omega arith in
    subst (λ n. (status.state ≡ done) ↔ (n ≡ 0)) none_late
      (get_status-done_with id s status v (omega arith) e)
