-- ===== src/Master/Scan/Depth.antt =====
-- The fuel of a scan: directories of finite depth, and sizes that a file may have.
use mathlib.Core.Option
use log_grid.Base.{
  All, Bool, Bool-cases, List, Option, [], ap, arith, false, inl, inr, leb, length, none, refl,
  some, suc, true, zero, ℕ, ◌+◌, ◌==◌, ◌^◌, ◌∙◌, ◌∷◌, ◌≡◌, ◌≤◌,
}
use log_grid.Protocol.{TaskPayload, filename_size}
use log_grid.Master.Chunks.{chunk_size, enqueue_file_chunks-Tiles}
use log_grid.Master.Chunks.Texts.{create_chunk_task-fits}
use log_grid.Master.Scan.{
  Entry, FileKind, FileSystem, Scan, SearchConfig, directory, enqueue_task, other_kind,
  process_single_file, process_sized, regular_file, scan_directory_recursively, scan_entries,
  scan_entry, scan_listing,
}

-- What is asked of an entry that the scan goes down into.
abbrev Within : (List ℕ → Type 0) → List ℕ → Option Bool → Option FileKind → Type 0
Within P path (some false) (some directory) = P path
Within P path _ _ = Unit

abbrev WithinListing : (List ℕ → Type 0) → Option (List Entry × Bool) → Type 0
WithinListing P none = Unit
WithinListing P (some (entries, stopped)) = All (λ e. Within P e.path e.symlink e.kind) entries

-- Below a directory, itself included, directories are nested at most so deep.
abbrev pub HasDepth : FileSystem → ℕ → List ℕ → Type 0
HasDepth fs zero dir = 1 ≤ 0
HasDepth fs (suc n) dir = WithinListing (HasDepth fs n) (fs.listing dir)

-- Files are so small that the offset of a chunk does not wrap.
abbrev pub SmallFiles : FileSystem → Type 0
SmallFiles fs =
    (path : List ℕ) (size : ℕ) → fs.file_size path ≡ some size → size + chunk_size ≤ 2 ^ 64

abbrev pub Returns {ℓ} : {A : Type ℓ} → Option A → Type ℓ
Returns {A = A} o = (a : A) × (o ≡ some a)

pub Returns-map {ℓ κ} :
    {A : Type ℓ} {B : Type κ} (f : A → B) (o : Option A) → Returns o → Returns (Option.map f o)
Returns-map f o (a, e) = (f a, ap (Option.map f) e)

Returns-bind {ℓ κ} :
    {A : Type ℓ} {B : Type κ} (f : A → Option B) (o : Option A)
    → Returns o
    → ((a : A) → Returns (f a))
    → Returns (Option.bind o f)
unfolding Option.bind
Returns-bind f o (a, e) k = ((k a).0, ap (λ x. Option.bind x f) e ∙ (k a).1)

enqueue_task-Returns :
    (size : ℕ)
    → size + chunk_size ≤ 2 ^ 64
    → (base : TaskPayload) (out : List TaskPayload) → Returns (enqueue_task size (some base) out)
enqueue_task-Returns size fits base out =
    let (ts, made, tiles) = enqueue_file_chunks-Tiles size base out fits in
    Returns-map (λ tasks. (true, tasks)) _ (_, made)

module _ (fs : FileSystem) (keyword : List ℕ) (search_id : ℕ) (config : SearchConfig)
    (small : SmallFiles fs) where
  pub process_single_file-Returns :
      (path : List ℕ) (out : List TaskPayload)
      → Returns (process_single_file fs keyword search_id config path out)
  unfolding process_single_file
  process_single_file-Returns path out = go (fs.file_size path) (small path)
    where
      sized :
          (size : ℕ)
          → size + chunk_size ≤ 2 ^ 64
          → Returns (process_sized fs keyword search_id config path (some size) out)
      sized size fits = elim (Bool-cases (size == 0)) [
        | inl empty ↦ rw empty (_, refl)
        | inr more ↦ rw more (elim (Bool-cases (leb filename_size (length path))) [
          | inl long ↦ rw long (_, refl)
          | inr short ↦
              rw
                (
                  short,
                  create_chunk_task-fits path keyword search_id config.max_results
                      (ground (arith, short)),
                )
                (enqueue_task-Returns size fits _ out)
        ])
      ]

      go :
          (size : Option ℕ)
          → ((n : ℕ) → size ≡ some n → n + chunk_size ≤ 2 ^ 64)
          → Returns (process_sized fs keyword search_id config path size out)
      go none fits = (_, refl)
      go (some size) fits = sized size (fits size refl)

  module _ (P : List ℕ → Type 0) (scan : List ℕ → Scan → Option Scan)
      (scan-Returns : (dir : List ℕ) (acc : Scan) → P dir → Returns (scan dir acc)) where
    scan_entry-Returns :
        (entry : Entry) (symlink : Option Bool) (kind : Option FileKind) (acc : Scan)
        → entry.kind ≡ kind
        → Within P entry.path symlink kind
        → Returns (scan_entry fs keyword search_id config scan entry symlink acc)
    scan_entry-Returns entry none kind acc e h = (_, refl)
    scan_entry-Returns entry (some true) kind acc e h = (_, refl)
    scan_entry-Returns entry (some false) none acc e h = rw e (_, refl)
    scan_entry-Returns entry (some false) (some directory) acc e h =
        rw e (scan-Returns entry.path acc h)
    scan_entry-Returns entry (some false) (some other_kind) acc e h = rw e (_, refl)
    scan_entry-Returns entry (some false) (some regular_file) acc e h =
        rw e (Returns-map _ _ (process_single_file-Returns entry.path acc.out_tasks))

    scan_entries-Returns :
        (entries : List Entry) (acc : Scan)
        → All (λ e. Within P e.path e.symlink e.kind) entries
        → Returns (scan_entries fs keyword search_id config scan entries acc)
    scan_entries-Returns [] acc h = (_, refl)
    scan_entries-Returns (entry ∷ entries) acc h =
        Returns-bind _ _ (scan_entry-Returns entry entry.symlink entry.kind acc refl h.0)
          (λ a. scan_entries-Returns entries a h.1)

    scan_listing-Returns :
        (listing : Option (List Entry × Bool)) (acc : Scan)
        → WithinListing P listing
        → Returns (scan_listing fs keyword search_id config scan listing acc)
    scan_listing-Returns none acc h = (_, refl)
    scan_listing-Returns (some (entries, stopped)) acc h =
        Returns-map _ _ (scan_entries-Returns entries acc h)

  -- The scan of a directory ends, with a fuel of the depth to which directories are nested, if no file
  -- is so large that the offset of a chunk would wrap.
  pub scan_directory_recursively-Returns :
      (depth : ℕ) (dir : List ℕ) (acc : Scan)
      → HasDepth fs depth dir
      → Returns (scan_directory_recursively fs keyword search_id config depth dir acc)
  unfolding scan_directory_recursively
  scan_directory_recursively-Returns zero dir acc h = absurd (omega (arith, h))
  scan_directory_recursively-Returns (suc n) dir acc h =
      scan_listing-Returns (HasDepth fs n) _ (scan_directory_recursively-Returns n) (fs.listing dir)
        acc h
