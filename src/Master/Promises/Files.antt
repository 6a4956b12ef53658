-- ===== src/Master/Promises/Files.antt =====
-- The promise of ProcessSingleFile.
use mathlib.Core.Option.{some-ne-none}
use log_grid.Base.{
  Bool, Bool-cases, List, Option, arith, false, inl, inr, leb, length, none, refl, some,
  some_injective, sym, true, ℕ, ◌<◌, ◌==◌, ◌∙◌, ◌≡◌, ◌⊎◌,
}
use log_grid.Protocol.{TaskPayload, filename_size}
use log_grid.Master.Chunks.{create_chunk_task, enqueue_file_chunks}
use log_grid.Master.Scan.{
  FileSystem, SearchConfig, enqueue_task, process_single_file, process_sized,
}
use log_grid.Master.Scan.Tasks.{IfSome, IfSome-map, IfSome-some}
use log_grid.Master.Promises.{FilePromise}

-- When a file can be handled.
abbrev Fit : FileSystem → List ℕ → Type 0
Fit fs path =
    (size : ℕ) × (fs.file_size path ≡ some size) × ((size ≡ 0) ⊎ (length path < filename_size))

module _ (fs : FileSystem) (path : List ℕ) (out : List TaskPayload) where
  handled-Promise : (tasks : List TaskPayload) → Fit fs path → FilePromise fs path out (true, tasks)
  handled-Promise tasks fit = ((λ h. fit, λ f. refl), λ h. absurd (ground (arith, h)))

  refused-Promise : ¬ Fit fs path → FilePromise fs path out (false, out)
  refused-Promise unfit = ((λ h. absurd (ground (arith, h)), λ fit. absurd (unfit fit)), λ h. refl)

  module _ (keyword : List ℕ) (search_id : ℕ) (config : SearchConfig) where
    fits-Promise :
        (size : ℕ)
        → fs.file_size path ≡ some size
        → leb filename_size (length path) ≡ false
        → IfSome
            (FilePromise fs path out)
            (enqueue_task size (create_chunk_task path keyword search_id config.max_results) out)
    unfolding create_chunk_task
    fits-Promise size e fits = rw fits (
        IfSome-map (λ tasks. Unit {0}) (FilePromise fs path out) _ _
          (λ tasks h. handled-Promise tasks (size, e, inr (ground (arith, fits))))
          (anything (enqueue_file_chunks size _ out)))
      where
        anything : (o : Option (List TaskPayload)) → IfSome (λ tasks. Unit {0}) o
        anything none = tt
        anything (some tasks) = tt

    process_sized-Promise :
        (size : Option ℕ)
        → fs.file_size path ≡ size
        → IfSome (FilePromise fs path out) (process_sized fs keyword search_id config path size out)
    process_sized-Promise none e = refused-Promise (λ fit. absurd (some-ne-none _ (sym fit.1 ∙ e)))
    process_sized-Promise (some size) e = elim (Bool-cases (size == 0)) [
      | inl nothing ↦ rw nothing (handled-Promise out (size, e, inl (ground (arith, nothing))))
      | inr something ↦ elim (Bool-cases (leb filename_size (length path))) [
        | inl long ↦
            rw (something, long)
              (refused-Promise (λ fit. elim fit.2 [
                | inl zero_size ↦
                    absurd (ground (arith, some_injective (sym e ∙ fit.1), zero_size, something))
                | inr short ↦ absurd (ground (arith, short, long))
              ]))
        | inr fits ↦ rw (something, fits) (fits-Promise size e fits)
      ]
    ]

    -- ProcessSingleFile keeps its promise: it reports a file as handled exactly when its size can be read
    -- and it is empty or its path fits into a task; and it adds no task for a file that it refuses.
    pub process_single_file-Promise :
        (handled : Bool) (tasks : List TaskPayload)
        → process_single_file fs keyword search_id config path out ≡ some (handled, tasks)
        → FilePromise fs path out (handled, tasks)
    unfolding process_single_file
    process_single_file-Promise handled tasks =
        IfSome-some (FilePromise fs path out)
          (process_sized fs keyword search_id config path (fs.file_size path) out)
          (process_sized-Promise (fs.file_size path) refl)
