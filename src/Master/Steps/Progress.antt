-- ===== src/Master/Steps/Progress.antt =====
-- One search, seen from outside: an abstract progress, which forgets the tasks, their order and the
-- workers, and what the steps of the master do to it.
use native.Mathlib.Decide.{ℕ_discrete}
use log_grid.Base.{List, Option, ap, none, refl, some, subst, sym, ℕ, ◌%◌, ◌+◌, ◌^◌, ◌∙◌, ◌≡◌}
use log_grid.Base.Assoc.{insert, lookup, lookup-insert_ne, lookup-insert_self}
use log_grid.Master.State.{MasterServer, SearchSession, allocate_search_id}
use log_grid.Master.Dispatch.{take_worker}
use log_grid.Master.Dispatch.Tally.{Sound, tally}
use log_grid.Master.Handlers.{register_worker}
use log_grid.Master.Accounting.{of_search, of_search-IgnoresId, outstanding}
use log_grid.Master.Steps.{Cluster, with_master}

-- `open` chunks wait or are in flight, `handled` ones are being taken in, `counted` ones are done.
pub data Progress : Type 0 where
  unpublished : Progress
  published : (open_chunks handled counted : ℕ) → Progress

-- What may happen to a search.
pub data Advance (p q : Progress) : Type 0 where
  nothing : p ≡ q → Advance p q
  appears : (n : ℕ) → p ≡ unpublished → q ≡ published n 0 0 → Advance p q
  handles : (o h d : ℕ) → p ≡ published (o + 1) h d → q ≡ published o (h + 1) d → Advance p q
  completes :
      (o h d : ℕ) → p ≡ published o (h + 1) d → q ≡ published o h ((d + 1) % 2 ^ 32) → Advance p q

abbrev pub progress_of : Option SearchSession → ℕ → ℕ → Progress
progress_of none o h = unpublished
progress_of (some session) o h = published o h session.chunks_done

abbrev pub progress : ℕ → Cluster → Progress
progress id c = progress_of (lookup id c.master.sessions) (outstanding id c.master) (c.late id)

pub progress_same :
    (id : ℕ) (c d : Cluster)
    → d.master.sessions ≡ c.master.sessions
    → outstanding id d.master ≡ outstanding id c.master
    → d.late id ≡ c.late id
    → Advance (progress id c) (progress id d)
progress_same id c d sessions same late = nothing (
    ap (λ o. progress_of (lookup id c.master.sessions) o (c.late id)) (sym same)
    ∙ (ap (λ l. progress_of (lookup id c.master.sessions) (outstanding id d.master) l) (sym late)
        ∙ ap (λ m. progress_of (lookup id m) (outstanding id d.master) (d.late id)) (sym sessions)))

pub Sound-Advance :
    (id : ℕ) (c : Cluster) (s : MasterServer)
    → Sound c.master s
    → Advance (progress id c) (progress id (with_master c s))
Sound-Advance id c s v =
    progress_same id c (with_master c s) v.same_sessions
      (v.same_tasks (of_search id) (of_search-IgnoresId id)) refl

pub take_worker-Advance :
    (id worker : ℕ) (others : List ℕ) (slots : Option ℕ) (c : Cluster)
    → Advance
        (progress id c)
        (progress id (with_master c (take_worker worker others slots c.master)))
unfolding tally
take_worker-Advance id worker others none c = nothing refl
take_worker-Advance id worker others (some n) c = nothing refl

pub register_worker-Advance :
    (id client threads : ℕ) (c : Cluster)
    → Advance
        (progress id c)
        (progress id (with_master c (register_worker client threads c.master)))
unfolding register_worker tally
register_worker-Advance id client threads c = nothing refl

pub allocate-Advance :
    (id : ℕ) (c : Cluster) (reserved : ℕ → ℕ)
    → Advance
        (progress id c)
        (progress id (record c { master = (allocate_search_id c.master).1; reserved = reserved }))
unfolding allocate_search_id tally
allocate-Advance id c reserved = nothing refl

-- A session that changes and keeps its chunks done.
pub session_same :
    (id k : ℕ) (old new : SearchSession) (c : Cluster)
    → lookup k c.master.sessions ≡ some old
    → new.chunks_done ≡ old.chunks_done
    → Advance (progress id c) (
        progress id (with_master c (record c.master { sessions = insert k new c.master.sessions })))
unfolding tally
session_same id k old new c known same = nothing (elim (ℕ_discrete k id) [
  | yes here ↦
      let before : lookup id c.master.sessions ≡ some old =
        subst (λ j. lookup j c.master.sessions ≡ some old) here known in
      let after : lookup id (insert k new c.master.sessions) ≡ some new =
        subst (λ j. lookup j (insert k new c.master.sessions) ≡ some new) here
          (lookup-insert_self k new c.master.sessions) in
      ap (λ o. progress_of o (outstanding id c.master) (c.late id)) before
      ∙ (ap (published (outstanding id c.master) (c.late id)) (sym same)
          ∙ ap (λ o. progress_of o (outstanding id c.master) (c.late id)) (sym after))
  | no apart ↦
      ap (λ o. progress_of o (outstanding id c.master) (c.late id))
        (sym (lookup-insert_ne k id new c.master.sessions apart))
])

-- The view of a known session.
pub progress_known :
    {session : SearchSession} (id : ℕ) (c : Cluster)
    → lookup id c.master.sessions ≡ some session
    → progress id c ≡ published (outstanding id c.master) (c.late id) session.chunks_done
progress_known id c known = ap (λ o. progress_of o (outstanding id c.master) (c.late id)) known

pub progress_unknown :
    (id : ℕ) (c : Cluster) → lookup id c.master.sessions ≡ none → progress id c ≡ unpublished
progress_unknown id c unknown =
    ap (λ o. progress_of o (outstanding id c.master) (c.late id)) unknown

pub published_eq :
    {o o' h h' d d' : ℕ} → o ≡ o' → h ≡ h' → d ≡ d' → published o h d ≡ published o' h' d'
published_eq eo eh ed = λ i. published (eo i) (eh i) (ed i)
