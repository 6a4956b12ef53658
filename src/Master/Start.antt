-- ===== src/Master/Start.antt =====
-- StartSearch, BuildSession, CreateSessionFilePath and MakeRelative of NetServer/src/MasterServer.cpp.
pub mod Keeps
use mathlib.Core.Option
use log_grid.Base.{
  Bool, List, Option, [], false, if◌then◌else◌, leb, length, ltb, none, some, true, ℕ, ◌&&◌, ◌++◌,
  ◌==◌, ◌||◌, ◌∷◌,
}
use log_grid.Protocol.{TaskPayload}
use log_grid.Master.State.{MasterServer, SearchSession, add_pending_tasks, allocate_search_id}
use log_grid.Master.Dispatch.{assign_idle_workers}
use log_grid.Master.Scan.{
  FileKind, FileSystem, Scan, SearchConfig, directory, other_kind, process_single_file,
  regular_file, scan_directory_recursively,
}

-- What else StartSearch reads: the two directories of the master, and of std::filesystem and the
-- clock: the normal form of a path, the name of a result file (`search_{id}_{seconds}.log`), and
-- whether directories can be created.
pub record Environment : Type 0 where
  pub input_dir : List ℕ
  pub base_dir : List ℕ
  pub lexically_normal : List ℕ → List ℕ
  pub session_file_name : ℕ → List ℕ
  pub create_directories : List ℕ → Bool

abbrev pub slash : ℕ
slash = 47

abbrev pub backslash : ℕ
backslash = 92

-- `MakeRelative`; the path of nothing is "."
unfoldable pub make_relative : List ℕ → List ℕ
make_relative [] = 46 ∷ []
make_relative (c ∷ cs) =
    let rest = make_relative cs in if c == slash || c == backslash then rest else c ∷ cs

unfoldable pub starts_with : List ℕ → List ℕ → Bool
starts_with text [] = true
starts_with [] (p ∷ ps) = false
starts_with (c ∷ cs) (p ∷ ps) = let rest = starts_with cs ps in if c == p then rest else false

unfoldable pub equal_bytes : List ℕ → List ℕ → Bool
equal_bytes [] [] = true
equal_bytes [] (d ∷ ds) = false
equal_bytes (c ∷ cs) [] = false
equal_bytes (c ∷ cs) (d ∷ ds) = let rest = equal_bytes cs ds in if c == d then rest else false

-- `if (!path.ends_with('/')) path += '/'`
unfoldable pub with_separator : List ℕ → List ℕ
with_separator [] = slash ∷ []
with_separator (c ∷ []) = if c == slash then c ∷ [] else c ∷ slash ∷ []
with_separator (c ∷ d ∷ cs) = c ∷ with_separator (d ∷ cs)

-- `base / path`, for a path that does not start with a separator
unfoldable pub join : List ℕ → List ℕ → List ℕ
join [] path = path
join (c ∷ cs) path = with_separator (c ∷ cs) ++ path

-- The target is the input directory or below it.
unfoldable pub is_inside : List ℕ → List ℕ → Bool
is_inside base target = equal_bytes target base || starts_with target (with_separator base)

module _ (env : Environment) where
  -- `CreateSessionFilePath`; `none` where it throws. The directory that the call of create_directories
  -- leaves on the disk is no part of the state; a call that comes after may still throw.
  unfoldable pub create_session_file_path : List ℕ → ℕ → Option (List ℕ)
  create_session_file_path user_dir search_id =
      let base = env.lexically_normal env.base_dir in
      let full =
        env.lexically_normal
          (join (join base (make_relative user_dir)) (env.session_file_name search_id)) in
      if starts_with full base && env.create_directories full then some full else none

  -- `BuildSession`
  unfoldable pub build_session : ℕ → SearchConfig → Option SearchSession
  build_session search_id config =
      Option.map
        (λ path. record {
          path = path;
          search_id = search_id;
          max_results = config.max_results;
          total_matches = 0;
          line_count = 0;
          scan_errors = 0;
          chunks_total = 0;
          chunks_done = 0;
        })
        (create_session_file_path config.output_dir search_id)

module _ (fs : FileSystem) (keyword : List ℕ) (search_id : ℕ) (config : SearchConfig) where
  -- A file that cannot be examined is an error of the whole search.
  abbrev pub only_file : Bool × List TaskPayload → Option Scan
  only_file (true, tasks) = some (record { out_tasks = tasks; scan_errors = 0 })
  only_file (false, tasks) = none

  -- The tasks of the target: the inner `none` is an exception, the outer one a fuel that ran out.
  abbrev pub collect_kind : ℕ → List ℕ → FileKind → Option (Option Scan)
  collect_kind depth target directory = Option.map some (
      scan_directory_recursively fs keyword search_id config depth target
        (record { out_tasks = []; scan_errors = 0 }))
  collect_kind depth target regular_file =
      Option.map only_file (process_single_file fs keyword search_id config target [])
  collect_kind depth target other_kind = some none

  unfoldable pub collect_tasks : ℕ → List ℕ → Option (Option Scan)
  collect_tasks depth target = collect_kind depth target (fs.file_kind target)

abbrev pub nothing_found : Scan → Bool
nothing_found acc = leb (length acc.out_tasks) 0 && ltb 0 acc.scan_errors

-- The end of StartSearch: what was collected is published, unless there is nothing but errors.
-- `none` stands for an exception.
abbrev pub publish : SearchSession → Option Scan → MasterServer → Option ℕ × MasterServer
publish session none s = (none, s)
publish session (some acc) s = if nothing_found acc then (none, s) else (
  some session.search_id,
  assign_idle_workers
      (add_pending_tasks (record session { scan_errors = acc.scan_errors }) acc.out_tasks s),
)

module _ (env : Environment) (fs : FileSystem) (keyword : List ℕ) (config : SearchConfig) where
  -- From BuildSession on.
  abbrev pub search_target :
      ℕ → List ℕ → Option SearchSession → MasterServer → Option (Option ℕ × MasterServer)
  search_target depth target none s = some (none, s)
  search_target depth target (some session) s =
      Option.map (λ acc. publish session acc s)
        (collect_tasks fs keyword session.search_id config depth target)

  abbrev pub search_resolved :
      ℕ → List ℕ → Option (List ℕ) → MasterServer → Option (Option ℕ × MasterServer)
  search_resolved depth base none s = some (none, s)
  search_resolved depth base (some target) s =
      let (search_id, allocated) = allocate_search_id s in
      let run = search_target depth target (build_session env search_id config) allocated in
      if is_inside base target then run else some (none, s)

  abbrev pub search_below :
      ℕ → List ℕ → Option (List ℕ) → MasterServer → Option (Option ℕ × MasterServer)
  search_below depth filepath none s = some (none, s)
  search_below depth filepath (some base) s =
      search_resolved depth base (fs.canonical (join base (make_relative filepath))) s

  -- `StartSearch`: the id of the search, or `none` where it throws, and the state it leaves. The outer
  -- `none` is a fuel that ran out.
  unfoldable pub start_search : ℕ → List ℕ → MasterServer → Option (Option ℕ × MasterServer)
  start_search depth filepath s = search_below depth filepath (fs.canonical env.input_dir) s
