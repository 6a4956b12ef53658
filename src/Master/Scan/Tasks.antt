-- ===== src/Master/Scan/Tasks.antt =====
-- The search that the tasks of a scan belong to.
use mathlib.Core.Option
use log_grid.Base.{
  All, All-append, Bool, Bool-cases, List, Option, [], false, inl, inr, leb, length, ltb, min, none,
  refl, some, subst, suc, true, zero, ℕ, ◌%◌, ◌++◌, ◌+◌, ◌==◌, ◌^◌, ◌∷◌, ◌≡◌,
}
use log_grid.Protocol.{TaskPayload, filename_size}
use log_grid.Master.Chunks.{
  chunk_at, chunk_loop, chunk_size, create_chunk_task, enqueue_file_chunks,
}
use log_grid.Master.Scan.{
  Entry, FileKind, FileSystem, Scan, SearchConfig, after_file, after_listing, directory,
  enqueue_task, other_kind, process_single_file, process_sized, regular_file,
  scan_directory_recursively, scan_entries, scan_entry, scan_kind, scan_listing,
}

abbrev pub OfSearch : ℕ → List TaskPayload → Type 0
OfSearch search_id tasks = All (λ t. t.search_id ≡ search_id) tasks

-- Of a result: if there is one, it has the property.
abbrev pub IfSome {ℓ} : {A : Type ℓ} → (A → Type 0) → Option A → Type 0
IfSome P none = Unit
IfSome P (some a) = P a

pub IfSome-some {ℓ} :
    {A : Type ℓ} (P : A → Type 0) (o : Option A) {a : A} → IfSome P o → o ≡ some a → P a
IfSome-some P o h e = subst (IfSome P) e h

pub IfSome-map {ℓ κ} :
    {A : Type ℓ} {B : Type κ} (P : A → Type 0) (Q : B → Type 0) (f : A → B) (o : Option A)
    → ((a : A) → P a → Q (f a))
    → IfSome P o
    → IfSome Q (Option.map f o)
IfSome-map P Q f none k h = tt
IfSome-map P Q f (some a) k h = k a h

IfSome-bind {ℓ κ} :
    {A : Type ℓ} {B : Type κ} (P : A → Type 0) (Q : B → Type 0) (f : A → Option B) (o : Option A)
    → ((a : A) → P a → IfSome Q (f a))
    → IfSome P o
    → IfSome Q (Option.bind o f)
unfolding Option.bind
IfSome-bind P Q f none k h = tt
IfSome-bind P Q f (some a) k h = k a h

chunk_loop-OfSearch :
    (fuel size current : ℕ) (base : TaskPayload) (out : List TaskPayload)
    → OfSearch base.search_id out
    → IfSome (OfSearch base.search_id) (chunk_loop fuel size current base out)
unfolding chunk_loop
chunk_loop-OfSearch zero size current base out h = tt
chunk_loop-OfSearch (suc fuel) size current base out h =
    let next = (current + chunk_size) % 2 ^ 64 in
    let t = chunk_at base current (min next size) in
    let round =
      chunk_loop-OfSearch fuel size next base (out ++ (t ∷ []))
        (All-append _ out (t ∷ []) h (refl, tt)) in
    elim (Bool-cases (ltb current size)) [ inl more ↦ rw more round | inr stop ↦ rw stop h ]

module _ (fs : FileSystem) (keyword : List ℕ) (search_id : ℕ) (config : SearchConfig) where
  abbrev Own : Scan → Type 0
  Own acc = OfSearch search_id acc.out_tasks

  enqueue_task-OfSearch :
      (size : ℕ) (task : Option TaskPayload) (out : List TaskPayload)
      → IfSome (λ t. t.search_id ≡ search_id) task
      → OfSearch search_id out
      → IfSome (λ r. OfSearch search_id r.1) (enqueue_task size task out)
  unfolding enqueue_file_chunks
  enqueue_task-OfSearch size none out own h = tt
  enqueue_task-OfSearch size (some base) out own h =
      IfSome-map (OfSearch search_id) (λ r. OfSearch search_id r.1) (λ tasks. (true, tasks)) _
        (λ tasks k. k)
        (subst (λ id. OfSearch id out → IfSome (OfSearch id) (enqueue_file_chunks size base out))
          own (chunk_loop-OfSearch _ size 0 base out) h)

  create_chunk_task-OfSearch :
      (path : List ℕ)
      → IfSome
          (λ t. t.search_id ≡ search_id)
          (create_chunk_task path keyword search_id config.max_results)
  unfolding create_chunk_task
  create_chunk_task-OfSearch path = elim (Bool-cases (leb filename_size (length path))) [
    | inl long ↦ rw long tt
    | inr fits ↦ rw fits refl
  ]

  process_sized-OfSearch :
      (path : List ℕ) (size : Option ℕ) (out : List TaskPayload)
      → OfSearch search_id out
      → IfSome
          (λ r. OfSearch search_id r.1)
          (process_sized fs keyword search_id config path size out)
  process_sized-OfSearch path none out h = h
  process_sized-OfSearch path (some size) out h =
      let task = create_chunk_task path keyword search_id config.max_results in
      elim (Bool-cases (size == 0)) [
        | inl empty ↦ rw empty h
        | inr more ↦ rw more (elim (Bool-cases (leb filename_size (length path))) [
          | inl long ↦ rw long h
          | inr fits ↦
              rw fits (enqueue_task-OfSearch size task out (create_chunk_task-OfSearch path) h)
        ])
      ]

  pub process_single_file-OfSearch :
      (path : List ℕ) (out : List TaskPayload)
      → OfSearch search_id out
      → IfSome
          (λ r. OfSearch search_id r.1)
          (process_single_file fs keyword search_id config path out)
  unfolding process_single_file
  process_single_file-OfSearch path out h = process_sized-OfSearch path (fs.file_size path) out h

  after_file-Own :
      (acc : Scan) (r : Bool × List TaskPayload)
      → OfSearch search_id r.1
      → Own (after_file fs keyword search_id config acc r)
  after_file-Own acc (true, tasks) h = h
  after_file-Own acc (false, tasks) h = h

  module _ (scan : List ℕ → Scan → Option Scan)
      (scan-Own : (dir : List ℕ) (acc : Scan) → Own acc → IfSome Own (scan dir acc)) where
    scan_kind-Own :
        (path : List ℕ) (kind : Option FileKind) (acc : Scan)
        → Own acc
        → IfSome Own (scan_kind fs keyword search_id config scan path kind acc)
    scan_kind-Own path none acc h = h
    scan_kind-Own path (some directory) acc h = scan-Own path acc h
    scan_kind-Own path (some other_kind) acc h = h
    scan_kind-Own path (some regular_file) acc h =
        IfSome-map (λ r. OfSearch search_id r.1) Own _ _ (after_file-Own acc)
          (process_single_file-OfSearch path acc.out_tasks h)

    scan_entry-Own :
        (entry : Entry) (symlink : Option Bool) (acc : Scan)
        → Own acc
        → IfSome Own (scan_entry fs keyword search_id config scan entry symlink acc)
    scan_entry-Own entry none acc h = h
    scan_entry-Own entry (some true) acc h = h
    scan_entry-Own entry (some false) acc h = scan_kind-Own entry.path entry.kind acc h

    scan_entries-Own :
        (entries : List Entry) (acc : Scan)
        → Own acc
        → IfSome Own (scan_entries fs keyword search_id config scan entries acc)
    scan_entries-Own [] acc h = h
    scan_entries-Own (entry ∷ entries) acc h =
        IfSome-bind Own Own _ _ (scan_entries-Own entries)
          (scan_entry-Own entry entry.symlink acc h)

    scan_listing-Own :
        (listing : Option (List Entry × Bool)) (acc : Scan)
        → Own acc
        → IfSome Own (scan_listing fs keyword search_id config scan listing acc)
    scan_listing-Own none acc h = h
    scan_listing-Own (some (entries, stopped)) acc h =
        IfSome-map Own Own (after_listing fs keyword search_id config stopped) _ (stop stopped)
          (scan_entries-Own entries acc h)
      where
        stop : (b : Bool) (a : Scan) → Own a → Own (after_listing fs keyword search_id config b a)
        stop true a k = k
        stop false a k = k

  pub scan-Own :
      (fuel : ℕ) (dir : List ℕ) (acc : Scan)
      → Own acc
      → IfSome Own (scan_directory_recursively fs keyword search_id config fuel dir acc)
  unfolding scan_directory_recursively
  scan-Own zero dir acc h = tt
  scan-Own (suc fuel) dir acc h = scan_listing-Own _ (scan-Own fuel) (fs.listing dir) acc h
