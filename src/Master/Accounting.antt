-- ===== src/Master/Accounting.antt =====
-- The books of the master: for every search, the chunks that wait or are in flight and those counted
-- as done make up the chunks of the search. A chunk is in neither place while OnMessage handles its
-- result: `late` counts those, by search.
use native.Mathlib.Decide.{ℕ_discrete, dec_lt}
use mathlib.Core.Path.{fun_ext}
use log_grid.Base.{
  List, ap, arith, if◌then◌else◌, length, none, refl, some, subst, sym, ℕ, ◌%◌, ◌+◌, ◌<◌, ◌==◌, ◌^◌,
  ◌∙◌, ◌≡◌, ◌≢◌, ◌≤◌,
}
use log_grid.Base.Assoc.{Distinct, insert, lookup, lookup-insert_ne, lookup-insert_self}
use log_grid.Protocol.{TaskPayload}
use log_grid.Master.State.{MasterServer, SearchSession}
use log_grid.Master.Dispatch.{tasks_of}
use log_grid.Master.Dispatch.Tally.{IgnoresId, Sound, tally}

-- 1 for the tasks of a search, 0 for others.
abbrev pub of_search : ℕ → TaskPayload → ℕ
of_search search_id t = if t.search_id == search_id then 1 else 0

-- The chunks of a search that are still to be done.
abbrev pub outstanding : ℕ → MasterServer → ℕ
outstanding search_id s = tally (of_search search_id) s

pub of_search-IgnoresId : (search_id : ℕ) → IgnoresId (of_search search_id)
of_search-IgnoresId search_id t id = refl

abbrev pub nothing_late : ℕ → ℕ
nothing_late search_id = 0

abbrev pub one_late : ℕ → ℕ → ℕ
one_late late_id search_id = if late_id == search_id then 1 else 0

-- Of one search: the counts of chunks agree. (The two counters are 32-bit patterns.)
pub record Agrees (unfinished : ℕ) (session : SearchSession) : Type 0 where
  pub sum : (unfinished + session.chunks_done) % 2 ^ 32 ≡ session.chunks_total
  pub done_u32 : session.chunks_done < 2 ^ 32

pub record Accounted (late : ℕ → ℕ) (s : MasterServer) : Type 0 where
  pub counted :
      (search_id : ℕ) (session : SearchSession)
      → lookup search_id s.sessions ≡ some session
      → Agrees (outstanding search_id s + late search_id) session
  pub published :
      (search_id : ℕ)
      → lookup search_id s.sessions ≡ none
      → outstanding search_id s + late search_id ≡ 0

-- What dispatching keeps is enough for the books.
pub Sound-Accounted :
    {from s : MasterServer} {late : ℕ → ℕ} → Sound from s → Accounted late from → Accounted late s
Sound-Accounted {from} {s} {late} v a = record {
  counted = λ k session e.
      subst (λ n. Agrees (n + late k) session)
        (sym (v.same_tasks (of_search k) (of_search-IgnoresId k)))
        (a.counted k session (ap (lookup k) (sym v.same_sessions) ∙ e));
  published = λ k e.
      subst (λ n. n + late k ≡ 0) (sym (v.same_tasks (of_search k) (of_search-IgnoresId k)))
        (a.published k (ap (lookup k) (sym v.same_sessions) ∙ e));
}

-- The sessions are no part of a tally.
pub tally-sessions :
    (f : TaskPayload → ℕ) (m : List (ℕ × SearchSession)) (s : MasterServer)
    → tally f (record s { sessions = m }) ≡ tally f s
unfolding tally
tally-sessions f m s = refl

-- A session replaced by another that keeps its own books.
pub Accounted-insert :
    {late late' : ℕ → ℕ} (id : ℕ) (old new : SearchSession) (s : MasterServer)
    → lookup id s.sessions ≡ some old
    → (Agrees (outstanding id s + late id) old → Agrees (outstanding id s + late' id) new)
    → ((k : ℕ) → id ≢ k → late' k ≡ late k)
    → Accounted late s
    → Accounted late' (record s { sessions = insert id new s.sessions })
unfolding tally
Accounted-insert {late} {late'} id old new s e keeps others a = record {
  counted = λ k session found. elim (ℕ_discrete id k) [
    | yes same ↦
        let here : lookup k (insert id new s.sessions) ≡ some new =
          subst (λ j. lookup j (insert id new s.sessions) ≡ some new) same
            (lookup-insert_self id new s.sessions) in
        let it : new ≡ session = ground arith in
        subst (λ j. Agrees (outstanding j s + late' j) session) same
          (subst (Agrees (outstanding id s + late' id)) it (keeps (a.counted id old e)))
    | no apart ↦
        let there = lookup-insert_ne id k new s.sessions apart in
        subst (λ n. Agrees (outstanding k s + n) session) (sym (others k apart))
          (a.counted k session (sym there ∙ found))
  ];
  published = λ k none_there. elim (ℕ_discrete id k) [
    | yes same ↦
        let here : lookup k (insert id new s.sessions) ≡ some new =
          subst (λ j. lookup j (insert id new s.sessions) ≡ some new) same
            (lookup-insert_self id new s.sessions) in
        absurd (ground arith)
    | no apart ↦
        let there = lookup-insert_ne id k new s.sessions apart in
        subst (λ n. outstanding k s + n ≡ 0) (sym (others k apart))
          (a.published k (sym there ∙ none_there))
  ];
}

-- The invariant of the master, with `late` chunks in neither place.
pub record InvWith (late : ℕ → ℕ) (s : MasterServer) : Type 0 where
  pub distinct : Distinct s.in_flight_tasks
  pub fresh : (client id : ℕ) → s.next_task_id < id → lookup id (tasks_of client s) ≡ none
  pub books : Accounted late s
  pub unpublished : (id : ℕ) → s.next_search_id ≤ id → lookup id s.sessions ≡ none

-- In between two messages.
abbrev pub Inv : MasterServer → Type 0
Inv s = InvWith nothing_late s

module _ {late : ℕ → ℕ} where
  -- In order with enough ids left, a state is sound with respect to itself.
  pub Inv-Sound :
      {s : MasterServer}
      → s.next_task_id + length s.pending_tasks < 2 ^ 64
      → InvWith late s
      → Sound s s
  Inv-Sound room v = record {
    distinct = v.distinct;
    fresh = v.fresh;
    room = room;
    same_sessions = refl;
    same_next = refl;
    same_tasks = λ f ignores. refl;
  }

  pub Sound-Inv : {from s : MasterServer} → Sound from s → InvWith late from → InvWith late s
  Sound-Inv v inv = record {
    distinct = v.distinct;
    fresh = v.fresh;
    books = Sound-Accounted v inv.books;
    unpublished =
        λ id h. ap (lookup id) v.same_sessions ∙ inv.unpublished id (omega (arith, v.same_next));
  }

  -- A known session is not one of those to come.
  pub session_lt_next :
      {s : MasterServer} {session : SearchSession} (id : ℕ)
      → InvWith late s
      → lookup id s.sessions ≡ some session
      → id < s.next_search_id
  session_lt_next {s} id v e = elim (dec_lt id s.next_search_id) [
    | yes less ↦ less
    | no more ↦ absurd (ground (arith, v.unpublished id (omega arith)))
  ]

-- The same for a session that takes another's place.
pub Inv-insert :
    {late late' : ℕ → ℕ} (id : ℕ) (old new : SearchSession) (s : MasterServer)
    → lookup id s.sessions ≡ some old
    → (Agrees (outstanding id s + late id) old → Agrees (outstanding id s + late' id) new)
    → ((k : ℕ) → id ≢ k → late' k ≡ late k)
    → InvWith late s
    → InvWith late' (record s { sessions = insert id new s.sessions })
Inv-insert id old new s e keeps others v = record {
  distinct = v.distinct;
  fresh = v.fresh;
  books = Accounted-insert id old new s e keeps others v.books;
  unpublished = λ k h.
      lookup-insert_ne id k new s.sessions (omega (arith, session_lt_next id v e))
      ∙ v.unpublished k h;
}

-- Only the counts of late chunks matter.
pub InvWith-late :
    {late late' : ℕ → ℕ} {s : MasterServer}
    → ((k : ℕ) → late k ≡ late' k)
    → InvWith late s
    → InvWith late' s
InvWith-late {s = s} same v = subst (λ l. InvWith l s) (fun_ext same) v
