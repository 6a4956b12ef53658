-- ===== src/Master/Steps/Free.antt =====
-- The ids that were given out and whose search is not published.
use native.Mathlib.Decide.{ℕ_discrete}
use log_grid.Base.{
  List, Option-cases, ap, arith, inl, inr, none, refl, some, ℕ, ◌+◌, ◌<◌, ◌^◌, ◌∙◌, ◌≡◌, ◌≤◌,
}
use log_grid.Base.Assoc.{insert, lookup, lookup-insert_ne}
use log_grid.Protocol.{TaskPayload}
use log_grid.Master.State.{MasterServer, SearchSession, add_pending_tasks, allocate_search_id}
use log_grid.Master.Dispatch.Tally.{Sound}
use log_grid.Master.Handlers.{count_chunk, register_worker}
use log_grid.Master.Steps.{add_one, drop_one}

-- An id that is reserved was given out once, and has no session.
pub record IsFree (id reserved : ℕ) (s : MasterServer) : Type 0 where
  pub once : reserved ≤ 1
  pub given_out : 0 < reserved → id < s.next_search_id
  pub unknown : 0 < reserved → lookup id s.sessions ≡ none

-- A step that leaves the sessions and the counter alone.
pub IsFree-same :
    {id reserved : ℕ} {s s' : MasterServer}
    → s'.sessions ≡ s.sessions
    → s'.next_search_id ≡ s.next_search_id
    → IsFree id reserved s
    → IsFree id reserved s'
IsFree-same {id} sessions next f = record {
  once = f.once;
  given_out = λ h. omega (arith, f.given_out h, next);
  unknown = λ h. ap (lookup id) sessions ∙ f.unknown h;
}

-- A step that changes a known session.
pub IsFree-known :
    {id reserved : ℕ} {old : SearchSession} {s s' : MasterServer} (k : ℕ) (new : SearchSession)
    → lookup k s.sessions ≡ some old
    → s'.sessions ≡ insert k new s.sessions
    → s'.next_search_id ≡ s.next_search_id
    → IsFree id reserved s
    → IsFree id reserved s'
IsFree-known {id} {s = s} k new known sessions next f = record {
  once = f.once;
  given_out = λ h. omega (arith, f.given_out h, next);
  unknown = λ h.
      ap (lookup id) sessions
      ∙ (lookup-insert_ne k id new s.sessions (λ same. ground (arith, f.unknown h, known, same))
          ∙ f.unknown h);
}

pub count_chunk-IsFree :
    {id reserved : ℕ} {s : MasterServer} (k : ℕ)
    → IsFree id reserved s
    → IsFree id reserved (count_chunk k s)
unfolding count_chunk
count_chunk-IsFree {s = s} k f = elim (Option-cases (lookup k s.sessions)) [
  | inl unknown ↦ rw (unknown, count_chunk) f
  | inr (session, known) ↦ rw (known, count_chunk) (IsFree-known k _ known refl refl f)
]

pub allocate-IsFree :
    (id : ℕ) (reserved : ℕ → ℕ) (s : MasterServer)
    → s.next_search_id + 1 < 2 ^ 64
    → ((k : ℕ) → s.next_search_id ≤ k → lookup k s.sessions ≡ none)
    → IsFree id (reserved id) s
    → IsFree id (add_one (allocate_search_id s).0 reserved id) (allocate_search_id s).1
unfolding allocate_search_id
allocate-IsFree id reserved s room new f = elim (ℕ_discrete s.next_search_id id) [
  | yes same ↦
      let none_before : reserved id ≡ 0 = grind (arith, f.given_out, same) in
      record {
        once = ground (arith, none_before);
        given_out = λ h. omega (arith, room, same);
        unknown = λ h. new id (omega (arith, same));
      }
  | no apart ↦
      let as_before : add_one s.next_search_id reserved id ≡ reserved id = ground arith in
      record {
        once = omega (arith, as_before, f.once);
        given_out = λ h. omega (arith, as_before, room, f.given_out (omega (arith, as_before, h)));
        unknown = λ h. f.unknown (omega (arith, as_before, h));
      }
]

pub publish-IsFree :
    (id : ℕ) (reserved : ℕ → ℕ) (session : SearchSession) (tasks : List TaskPayload)
    (s : MasterServer)
    → IsFree id (reserved id) s
    → IsFree id (drop_one session.search_id reserved id) (add_pending_tasks session tasks s)
unfolding add_pending_tasks
publish-IsFree id reserved session tasks s f = elim (ℕ_discrete session.search_id id) [
  | yes same ↦
      let none_left : drop_one session.search_id reserved id ≡ 0 = ground (arith, f.once, same) in
      record {
        once = omega (arith, none_left);
        given_out = λ h. absurd (omega (arith, none_left, h));
        unknown = λ h. absurd (omega (arith, none_left, h));
      }
  | no apart ↦
      let as_before : drop_one session.search_id reserved id ≡ reserved id = ground arith in
      record {
        once = omega (arith, as_before, f.once);
        given_out = λ h. f.given_out (omega (arith, as_before, h));
        unknown = λ h.
            lookup-insert_ne session.search_id id _ s.sessions apart
            ∙ f.unknown (omega (arith, as_before, h));
      }
]

-- The sessions and the counter where a state is sound with respect to another.
pub Sound-IsFree :
    {id reserved : ℕ} {s s' : MasterServer}
    → Sound s s'
    → IsFree id reserved s
    → IsFree id reserved s'
Sound-IsFree v f = IsFree-same v.same_sessions v.same_next f

pub register_worker-IsFree :
    {id reserved : ℕ} {s : MasterServer} (client threads : ℕ)
    → IsFree id reserved s
    → IsFree id reserved (register_worker client threads s)
unfolding register_worker
register_worker-IsFree client threads f = IsFree-same refl refl f
