-- ===== src/Master/Start/Keeps.antt =====
-- StartSearch: its end, and the books.
use mathlib.Core.Option
use log_grid.Base.Assoc.{lookup}
use log_grid.Base.{
  Bool, Bool-cases, List, Option, [], arith, false, inl, inr, length, length-append, none, refl,
  some, subst, sym, true, ℕ, ◌+◌, ◌<◌, ◌^◌, ◌≡◌,
}
use log_grid.Protocol.{TaskPayload}
use log_grid.Master.State.{MasterServer, SearchSession, add_pending_tasks, allocate_search_id}
use log_grid.Master.Dispatch.Tally.{assign_idle_workers-Sound}
use log_grid.Master.Scan.{
  FileKind, FileSystem, Scan, SearchConfig, directory, other_kind, regular_file,
}
use log_grid.Master.Scan.Tasks.{
  IfSome, IfSome-map, IfSome-some, OfSearch, process_single_file-OfSearch, scan-Own,
}
use log_grid.Master.Scan.Depth.{
  HasDepth, Returns, Returns-map, SmallFiles, process_single_file-Returns,
  scan_directory_recursively-Returns,
}
use log_grid.Master.Start.{
  Environment, build_session, collect_kind, collect_tasks, create_session_file_path, is_inside,
  join, make_relative, nothing_found, only_file, publish, search_below, search_resolved,
  search_target, start_search,
}
use log_grid.Master.Accounting.{Inv, Inv-Sound, Sound-Inv}
use log_grid.Master.Books.Publish.{add_pending_tasks-Inv, allocate_search_id-Inv}

module _ (fs : FileSystem) (keyword : List ℕ) (search_id : ℕ) (config : SearchConfig) where
  -- What was collected belongs to the search.
  abbrev pub OwnScan : Option Scan → Type 0
  OwnScan none = Unit
  OwnScan (some acc) = OfSearch search_id acc.out_tasks

  only_file-OwnScan :
      (r : Bool × List TaskPayload)
      → OfSearch search_id r.1
      → OwnScan (only_file fs keyword search_id config r)
  only_file-OwnScan (true, tasks) h = h
  only_file-OwnScan (false, tasks) h = tt

  pub collect_tasks-OwnScan :
      (depth : ℕ) (target : List ℕ)
      → IfSome OwnScan (collect_tasks fs keyword search_id config depth target)
  unfolding collect_tasks
  collect_tasks-OwnScan depth target = go (fs.file_kind target)
    where
      go :
          (kind : FileKind)
          → IfSome OwnScan (collect_kind fs keyword search_id config depth target kind)
      go other_kind = tt
      go regular_file =
          IfSome-map (λ r. OfSearch search_id r.1) OwnScan _ _ only_file-OwnScan
            (process_single_file-OfSearch fs keyword search_id config target [] tt)
      go directory =
          IfSome-map (λ acc. OfSearch search_id acc.out_tasks) OwnScan some _ (λ a h. h)
            (scan-Own fs keyword search_id config depth target _ tt)

  -- It takes a fuel of the depth of the directories, and sizes that do not wrap.
  collect_tasks-Returns :
      (depth : ℕ) (target : List ℕ)
      → SmallFiles fs
      → HasDepth fs depth target
      → Returns (collect_tasks fs keyword search_id config depth target)
  unfolding collect_tasks
  collect_tasks-Returns depth target small deep = go (fs.file_kind target)
    where
      go : (kind : FileKind) → Returns (collect_kind fs keyword search_id config depth target kind)
      go other_kind = (_, refl)
      go regular_file =
          Returns-map _ _ (process_single_file-Returns fs keyword search_id config small target [])
      go directory =
          Returns-map _ _ (
            scan_directory_recursively-Returns fs keyword search_id config small depth target _
              deep)

-- There are ids left for the tasks that wait and for those collected.
abbrev pub Room : MasterServer → Option (Option Scan) → Type 0
Room s none = Unit
Room s (some none) = Unit
Room s (some (some acc)) = s.next_task_id + length s.pending_tasks + length acc.out_tasks < 2 ^ 64

pub published_room :
    (session : SearchSession) (tasks : List TaskPayload) (s : MasterServer)
    → s.next_task_id + length s.pending_tasks + length tasks < 2 ^ 64
    → (add_pending_tasks session tasks s).next_task_id
        + length (add_pending_tasks session tasks s).pending_tasks
      < 2 ^ 64
unfolding add_pending_tasks
published_room session tasks s room = omega (arith, length-append s.pending_tasks tasks)

-- The session is new, and its id was given out.
record Fresh (session : SearchSession) (s : MasterServer) : Type 0 where
  none_done : session.chunks_done ≡ 0
  unknown : lookup session.search_id s.sessions ≡ none
  given_out : session.search_id < s.next_search_id

module _ (fs : FileSystem) (keyword : List ℕ) (config : SearchConfig) where
  publish-Inv :
      (session : SearchSession) (collected : Option Scan) (s : MasterServer)
      → OwnScan fs keyword session.search_id config collected
      → Fresh session s
      → Room s (some collected)
      → Inv s
      → Inv (publish session collected s).1
  publish-Inv session none s own new room v = v
  publish-Inv session (some acc) s own new room v = elim (Bool-cases (nothing_found acc)) [
    | inl failed ↦ rw failed v
    | inr found ↦
        let counted = record session { scan_errors = acc.scan_errors } in
        let kept =
          add_pending_tasks-Inv counted acc.out_tasks s own new.none_done new.unknown v
            new.given_out in
        rw found (
          Sound-Inv
            (assign_idle_workers-Sound _
              (Inv-Sound (published_room counted acc.out_tasks s room) kept))
            kept)
  ]

pub IfSome-imp {ℓ} :
    {A : Type ℓ} (P Q : A → Type 0) (o : Option A) → ((a : A) → P a → Q a) → IfSome P o → IfSome Q o
IfSome-imp P Q none k h = tt
IfSome-imp P Q (some a) k h = k a h

-- What StartSearch leaves: a state with its books in order.
abbrev Kept : Option (Option ℕ × MasterServer) → Type 0
Kept o = IfSome (λ r. Inv r.1) o

pub Room-allocated :
    (s : MasterServer) (collected : Option (Option Scan))
    → Room s collected
    → Room (allocate_search_id s).1 collected
unfolding allocate_search_id
Room-allocated s none room = room
Room-allocated s (some none) room = room
Room-allocated s (some (some acc)) room = room

module _ (env : Environment) (fs : FileSystem) (keyword : List ℕ) (config : SearchConfig)
    (depth : ℕ) where
  pub anything : (o : Option (List ℕ)) → IfSome (λ path. Unit {0}) o
  anything none = tt
  anything (some path) = tt

  build_session-Fresh :
      (s : MasterServer)
      → s.next_search_id + 1 < 2 ^ 64
      → Inv s
      → IfSome
          (λ session.
            (session.search_id ≡ s.next_search_id) × Fresh session (allocate_search_id s).1)
          (build_session env (allocate_search_id s).0 config)
  unfolding build_session allocate_search_id
  build_session-Fresh s room v =
      let (kept, given_out, unknown) = allocate_search_id-Inv s room v in
      IfSome-map (λ path. Unit {0}) _ _
        (create_session_file_path env config.output_dir s.next_search_id)
        (λ path h. (refl, record { none_done = refl; unknown = unknown; given_out = given_out }))
        (anything (create_session_file_path env config.output_dir s.next_search_id))

  search_target-Kept :
      (target : List ℕ) (session : Option SearchSession) (s : MasterServer)
      → IfSome
          (λ new. Fresh new s × Room s (collect_tasks fs keyword new.search_id config depth target))
          session
      → Inv s
      → Kept (search_target env fs keyword config depth target session s)
  search_target-Kept target none s new v = v
  search_target-Kept target (some session) s (new, room) v =
      go (collect_tasks fs keyword session.search_id config depth target) room
        (collect_tasks-OwnScan fs keyword session.search_id config depth target)
    where
      go :
          (collected : Option (Option Scan))
          → Room s collected
          → IfSome (OwnScan fs keyword session.search_id config) collected
          → Kept (Option.map (λ acc. publish session acc s) collected)
      go none room own = tt
      go (some acc) room own = publish-Inv fs keyword config session acc s own new room v

  search_resolved-Kept :
      (base : List ℕ) (target : Option (List ℕ)) (s : MasterServer)
      → s.next_search_id + 1 < 2 ^ 64
      → ((path : List ℕ) → Room s (collect_tasks fs keyword s.next_search_id config depth path))
      → Inv s
      → Kept (search_resolved env fs keyword config depth base target s)
  search_resolved-Kept base none s ids room v = v
  search_resolved-Kept base (some target) s ids room v = elim (Bool-cases (is_inside base target)) [
    | inr outside ↦ rw outside v
    | inl inside ↦
        let (kept, given_out, unknown) = allocate_search_id-Inv s ids v in
        rw inside (
          search_target-Kept target (build_session env (allocate_search_id s).0 config)
            (allocate_search_id s).1
            (IfSome-imp _ _ (build_session env (allocate_search_id s).0 config)
              (λ session h. (
                h.1,
                subst
                    (λ id.
                      Room (allocate_search_id s).1
                        (collect_tasks fs keyword id config depth target))
                    (sym h.0) (Room-allocated s _ (room target)),
              ))
              (build_session-Fresh s ids v))
            kept)
  ]

  -- StartSearch keeps the books, whether it starts a search or throws, as long as the search ids
  -- do not run out and, for every target, there are task ids left for the tasks that wait and
  -- those collected of it.
  pub start_search-Inv :
      (filepath : List ℕ) (s : MasterServer)
      → s.next_search_id + 1 < 2 ^ 64
      → ((path : List ℕ) → Room s (collect_tasks fs keyword s.next_search_id config depth path))
      → Inv s
      → (result : Option ℕ) (s' : MasterServer)
      → start_search env fs keyword config depth filepath s ≡ some (result, s')
      → Inv s'
  unfolding start_search
  start_search-Inv filepath s ids room v result s' =
      IfSome-some (λ r. Inv r.1)
        (search_below env fs keyword config depth filepath (fs.canonical env.input_dir) s)
        (go (fs.canonical env.input_dir))
    where
      go :
          (base : Option (List ℕ)) → Kept (search_below env fs keyword config depth filepath base s)
      go none = v
      go (some base) =
          search_resolved-Kept base (fs.canonical (join base (make_relative filepath))) s ids room v

  -- StartSearch ends, with a fuel of the depth to which directories are nested below any path, if no
  -- file is so large that the offset of a chunk would wrap.
  pub start_search-Returns :
      (filepath : List ℕ) (s : MasterServer)
      → SmallFiles fs
      → ((path : List ℕ) → HasDepth fs depth path)
      → Returns (start_search env fs keyword config depth filepath s)
  unfolding start_search
  start_search-Returns filepath s small deep = go (fs.canonical env.input_dir)
    where
      run :
          (target : List ℕ) (session : Option SearchSession) (s' : MasterServer)
          → Returns (search_target env fs keyword config depth target session s')
      run target none s' = (_, refl)
      run target (some session) s' = Returns-map _ _ (
          collect_tasks-Returns fs keyword session.search_id config depth target small
            (deep target))

      resolved :
          (base : List ℕ) (target : Option (List ℕ))
          → Returns (search_resolved env fs keyword config depth base target s)
      resolved base none = (_, refl)
      resolved base (some target) = elim (Bool-cases (is_inside base target)) [
        | inr outside ↦ rw outside (_, refl)
        | inl inside ↦ rw inside (
            run target (build_session env (allocate_search_id s).0 config) (allocate_search_id s).1)
      ]

      go :
          (base : Option (List ℕ))
          → Returns (search_below env fs keyword config depth filepath base s)
      go none = (_, refl)
      go (some base) = resolved base (fs.canonical (join base (make_relative filepath)))
