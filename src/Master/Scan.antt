-- ===== src/Master/Scan.antt =====
-- ProcessSingleFile and ScanDirectoryRecursively of NetServer/src/MasterServer.cpp. The file system is
-- a parameter: what std::filesystem tells of a path.
pub mod Tasks
pub mod Depth
use mathlib.Core.Option
use log_grid.Base.{
  Bool, List, Option, [], false, if◌then◌else◌, leb, length, none, some, suc, true, zero, ℕ, ◌%◌,
  ◌+◌, ◌==◌, ◌^◌, ◌∷◌,
}
use log_grid.Protocol.{TaskPayload, filename_size}
use log_grid.Master.Chunks.{create_chunk_task, enqueue_file_chunks}

-- SearchConfig
pub record SearchConfig : Type 0 where
  pub output_dir : List ℕ
  pub max_results : ℕ

pub data FileKind : Type 0 where
  directory regular_file other_kind : FileKind

-- An entry of a directory: `none` where the call on it reports an error.
pub record Entry : Type 0 where
  pub path : List ℕ
  pub symlink : Option Bool
  pub kind : Option FileKind

-- A listing is `none` if the directory cannot be opened; the flag tells that it stopped early, by a
-- failed increment of the iterator.
pub record FileSystem : Type 0 where
  pub canonical : List ℕ → Option (List ℕ)
  pub file_kind : List ℕ → FileKind
  pub file_size : List ℕ → Option ℕ
  pub listing : List ℕ → Option (List Entry × Bool)

-- The tasks that a scan has collected and the errors that it has counted.
pub record Scan : Type 0 where
  pub out_tasks : List TaskPayload
  pub scan_errors : ℕ

abbrev pub add_scan_error : Scan → Scan
add_scan_error acc = record acc { scan_errors = (acc.scan_errors + 1) % 2 ^ 64 }

-- The chunks of a file of known size: `none` where the loop that cuts it does not end, and where
-- CreateChunkTask throws, which the test on the length before it rules out.
abbrev pub enqueue_task :
    ℕ → Option TaskPayload → List TaskPayload → Option (Bool × List TaskPayload)
enqueue_task size none out = none
enqueue_task size (some base) out =
    Option.map (λ tasks. (true, tasks)) (enqueue_file_chunks size base out)

module _ (fs : FileSystem) (keyword : List ℕ) (search_id : ℕ) (config : SearchConfig) where
  abbrev pub process_sized : List ℕ → Option ℕ → List TaskPayload → Option (Bool × List TaskPayload)
  process_sized path none out = some (false, out)
  process_sized path (some size) out =
      if size == 0
      then some (true, out)
      else if leb filename_size (length path)
      then some (false, out)
      else enqueue_task size (create_chunk_task path keyword search_id config.max_results) out

  -- `ProcessSingleFile`: whether the file was fit, and the tasks with its chunks.
  unfoldable pub process_single_file : List ℕ → List TaskPayload → Option (Bool × List TaskPayload)
  process_single_file path out = process_sized path (fs.file_size path) out

  abbrev pub after_file : Scan → Bool × List TaskPayload → Scan
  after_file acc (true, tasks) = record acc { out_tasks = tasks }
  after_file acc (false, tasks) = add_scan_error (record acc { out_tasks = tasks })

  -- The body of the loop for an entry that is no symbolic link; `scan` is the recursive call.
  abbrev pub scan_kind :
      (List ℕ → Scan → Option Scan) → List ℕ → Option FileKind → Scan → Option Scan
  scan_kind scan path (some directory) acc = scan path acc
  scan_kind scan path (some regular_file) acc =
      Option.map (after_file acc) (process_single_file path acc.out_tasks)
  scan_kind scan path (some other_kind) acc = some acc
  scan_kind scan path none acc = some (add_scan_error acc)

  abbrev pub scan_entry : (List ℕ → Scan → Option Scan) → Entry → Option Bool → Scan → Option Scan
  scan_entry scan entry none acc = some (add_scan_error acc)
  scan_entry scan entry (some true) acc = some acc
  scan_entry scan entry (some false) acc = scan_kind scan entry.path entry.kind acc

  abbrev pub scan_entries : (List ℕ → Scan → Option Scan) → List Entry → Scan → Option Scan
  scan_entries scan [] acc = some acc
  scan_entries scan (entry ∷ entries) acc =
      Option.bind (scan_entry scan entry entry.symlink acc) (scan_entries scan entries)

  abbrev pub after_listing : Bool → Scan → Scan
  after_listing false acc = acc
  after_listing true acc = add_scan_error acc

  abbrev pub scan_listing :
      (List ℕ → Scan → Option Scan) → Option (List Entry × Bool) → Scan → Option Scan
  scan_listing scan none acc = some (add_scan_error acc)
  scan_listing scan (some (entries, stopped)) acc =
      Option.map (after_listing stopped) (scan_entries scan entries acc)

  -- `ScanDirectoryRecursively`, on fuel for the depth of the directories; `none` where it runs out.
  unfoldable pub scan_directory_recursively : ℕ → List ℕ → Scan → Option Scan
  scan_directory_recursively zero dir acc = none
  scan_directory_recursively (suc fuel) dir acc =
      scan_listing (scan_directory_recursively fuel) (fs.listing dir) acc
