-- ===== src/Master/Served/Measures.antt =====
-- A measure of the tasks of one search.
use log_grid.Base.{
  Bool-cases, List, [], arith, if◌then◌else◌, inl, inr, refl, sum_by, sym, ℕ, ◌==◌, ◌∙◌, ◌∷◌, ◌≡◌,
  ◌≢◌,
}
use log_grid.Base.Assoc.{total}
use log_grid.Protocol.{TaskPayload}
use log_grid.Master.State.{MasterServer}
use log_grid.Master.Dispatch.Tally.{IgnoresId, tally}
use log_grid.Master.Scan.Tasks.{OfSearch}
use log_grid.Master.Accounting.{of_search, outstanding}

abbrev pub only : ℕ → (TaskPayload → ℕ) → TaskPayload → ℕ
only k f t = if t.search_id == k then f t else 0

pub only-IgnoresId : (k : ℕ) (f : TaskPayload → ℕ) → IgnoresId f → IgnoresId (only k f)
only-IgnoresId k f ignores t id = elim (Bool-cases (t.search_id == k)) [
  | inl same ↦ rw same (ignores t id)
  | inr apart ↦ rw apart refl
]

pub only_self : (k : ℕ) (f : TaskPayload → ℕ) (t : TaskPayload) → t.search_id ≡ k → only k f t ≡ f t
only_self k f t e = ground arith

pub only_ne : (k : ℕ) (f : TaskPayload → ℕ) (t : TaskPayload) → t.search_id ≢ k → only k f t ≡ 0
only_ne k f t h = ground arith

module _ (k id : ℕ) (f : TaskPayload → ℕ) where
  pub sum_by-only_self :
      (tasks : List TaskPayload) → OfSearch k tasks → sum_by (only k f) tasks ≡ sum_by f tasks
  sum_by-only_self [] own = refl
  sum_by-only_self (t ∷ ts) (here, own) =
      omega (arith, only_self k f t here, sum_by-only_self ts own)

  pub sum_by-only_ne :
      (tasks : List TaskPayload) → id ≢ k → OfSearch id tasks → sum_by (only k f) tasks ≡ 0
  sum_by-only_ne [] apart own = refl
  sum_by-only_ne (t ∷ ts) apart (here, own) =
      let elsewhere = only_ne k f t (λ e. apart (sym here ∙ e)) in
      omega (arith, elsewhere, sum_by-only_ne ts apart own)

sum_by-zero :
    (f g : TaskPayload → ℕ) (ts : List TaskPayload)
    → ((t : TaskPayload) → f t ≡ 0 → g t ≡ 0)
    → sum_by f ts ≡ 0
    → sum_by g ts ≡ 0
sum_by-zero f g [] none_of e = refl
sum_by-zero f g (t ∷ ts) none_of e =
    omega (arith, none_of t (omega arith), sum_by-zero f g ts none_of (omega arith))

total-zero {ℓ} :
    {V : Type ℓ} (f g : V → ℕ) (m : List (ℕ × V))
    → ((v : V) → f v ≡ 0 → g v ≡ 0)
    → total f m ≡ 0
    → total g m ≡ 0
total-zero f g [] none_of e = refl
total-zero f g ((k, v) ∷ m) none_of e =
    omega (arith, none_of v (omega arith), total-zero f g m none_of (omega arith))

-- With no task of a search left there is nothing to measure.
pub tally-only_none :
    (k : ℕ) (f : TaskPayload → ℕ) (s : MasterServer) → outstanding k s ≡ 0 → tally (only k f) s ≡ 0
unfolding tally
tally-only_none k f s e =
    let weightless : (t : TaskPayload) → of_search k t ≡ 0 → only k f t ≡ 0 = λ t h. ground arith in
    let waiting = sum_by-zero (of_search k) (only k f) s.pending_tasks weightless (omega arith) in
    let flying =
      total-zero (total (of_search k)) (total (only k f)) s.in_flight_tasks
        (λ ts. total-zero (of_search k) (only k f) ts weightless) (omega arith) in
    omega arith
