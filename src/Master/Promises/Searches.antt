-- ===== src/Master/Promises/Searches.antt =====
-- The promises of StartSearch and of what it calls for paths and single files.
use native.Mathlib.Decide.{ℕ_discrete}
use mathlib.Core.Option
use log_grid.Base.{
  Bool-cases, List, Option, Option-cases, [], arith, false, inl, inr, length, none, refl, some,
  subst, sym, ℕ, ◌<◌, ◌==◌, ◌||◌, ◌∷◌, ◌≡◌, ◌⊎◌,
}
use log_grid.Master.State.{MasterServer, SearchSession, allocate_search_id}
use log_grid.Master.Scan.{FileSystem, Scan, SearchConfig}
use log_grid.Master.Scan.Tasks.{IfSome, IfSome-some}
use log_grid.Master.Start.{
  Environment, backslash, build_session, collect_tasks, create_session_file_path, is_inside, join,
  make_relative, nothing_found, publish, search_below, search_resolved, search_target, slash,
  start_search, starts_with,
}
use log_grid.Master.Promises.{Found, IsRelative, SessionPathPromise, StartPromise, Untouched}

make_relative-IsRelative : (path : List ℕ) → IsRelative (make_relative path)
unfolding make_relative
make_relative-IsRelative [] = refl
make_relative-IsRelative (c ∷ cs) = elim (Bool-cases (c == slash || c == backslash)) [
  | inl separator ↦ rw separator (make_relative-IsRelative cs)
  | inr other ↦ rw other other
]

create_session_file_path-Promise :
    (env : Environment) (user_dir : List ℕ) (id : ℕ)
    → SessionPathPromise env (create_session_file_path env user_dir id)
unfolding create_session_file_path
create_session_file_path-Promise env user_dir id =
    let base = env.lexically_normal env.base_dir in
    let full =
      env.lexically_normal (join (join base (make_relative user_dir)) (env.session_file_name id)) in
    elim (Bool-cases (starts_with full base)) [
      | inr elsewhere ↦ rw elsewhere tt
      | inl below ↦ elim (Bool-cases (env.create_directories full)) [
        | inr fails ↦ rw (below, fails) tt
        | inl made ↦ rw (below, made) (below, made)
      ]
    ]

found_or_clean :
    (acc : Scan) → nothing_found acc ≡ false → (0 < length acc.out_tasks) ⊎ (acc.scan_errors ≡ 0)
found_or_clean acc e = elim (ℕ_discrete acc.scan_errors 0) [
  | yes clean ↦ inr clean
  | no errors ↦ inl (ground arith)
]

-- The session that BuildSession makes has the id that it is given.
build_session-id :
    (env : Environment) (config : SearchConfig) (id : ℕ) (session : SearchSession)
    → build_session env id config ≡ some session
    → session.search_id ≡ id
unfolding build_session
build_session-id env config id session e =
    IfSome-some (λ (made : SearchSession). made.search_id ≡ id) (build_session env id config)
      (elim (Option-cases (create_session_file_path env config.output_dir id)) [
        | inl fails ↦ rw fails tt
        | inr (path, made) ↦ rw made refl
      ])
      e

module _ (env : Environment) (fs : FileSystem) (keyword : List ℕ) (config : SearchConfig)
    (depth : ℕ) (filepath : List ℕ) (s : MasterServer) where
  Untouched-same : Untouched s s
  Untouched-same = inl refl

  Untouched-allocated : Untouched s (allocate_search_id s).1
  unfolding allocate_search_id
  Untouched-allocated = inr refl

  abbrev Keeps : Option (Option ℕ × MasterServer) → Type 0
  Keeps o = IfSome (StartPromise env fs keyword config depth filepath s) o

  publish-Promise :
      (base target : List ℕ) (session : SearchSession) (acc : Scan)
      → Found env fs filepath base target
      → session.search_id ≡ s.next_search_id
      → build_session env session.search_id config ≡ some session
      → collect_tasks fs keyword session.search_id config depth target ≡ some (some acc)
      → StartPromise env fs keyword config depth filepath s
          (publish session (some acc) (allocate_search_id s).1)
  publish-Promise base target session acc found next built collected =
      elim (Bool-cases (nothing_found acc)) [
        | inl nothing ↦ rw nothing Untouched-allocated
        | inr something ↦ rw something (record {
          base = base;
          target = target;
          found = found;
          session = session;
          acc = acc;
          next_id = next;
          built = built;
          collected = collected;
          some_found = found_or_clean acc something;
          published = refl;
        })
      ]

  search_target-Promise :
      (base target : List ℕ) (session : Option SearchSession)
      → Found env fs filepath base target
      → build_session env s.next_search_id config ≡ session
      → Keeps (search_target env fs keyword config depth target session (allocate_search_id s).1)
  search_target-Promise base target none found built = Untouched-allocated
  search_target-Promise base target (some session) found built =
      let same = build_session-id env config s.next_search_id session built in
      go (collect_tasks fs keyword session.search_id config depth target) refl same
        (subst (λ id. build_session env id config ≡ some session) (sym same) built)
    where
      go :
          (collected : Option (Option Scan))
          → collect_tasks fs keyword session.search_id config depth target ≡ collected
          → session.search_id ≡ s.next_search_id
          → build_session env session.search_id config ≡ some session
          → Keeps (Option.map (λ acc. publish session acc (allocate_search_id s).1) collected)
      go none e same at_id = tt
      go (some none) e same at_id = Untouched-allocated
      go (some (some acc)) e same at_id = publish-Promise base target session acc found same at_id e

  resolved-Promise :
      (base : List ℕ) (target : Option (List ℕ))
      → fs.canonical env.input_dir ≡ some base
      → fs.canonical (join base (make_relative filepath)) ≡ target
      → Keeps (search_resolved env fs keyword config depth base target s)
  unfolding allocate_search_id
  resolved-Promise base none there e = Untouched-same
  resolved-Promise base (some target) there e = elim (Bool-cases (is_inside base target)) [
    | inr outside ↦ rw outside Untouched-same
    | inl inside ↦ rw inside (
        search_target-Promise base target (build_session env s.next_search_id config)
          (record { base_there = there; target_there = e; inside = inside }) refl)
  ]

  -- Where StartSearch throws it has changed nothing in the state of the master, but that it may have
  -- used up an id; a directory that BuildSession has created stays. Where it
  -- returns an id, the canonical path of the target is that of the input directory or below it; its
  -- tasks were collected, some or without an error; and the search is published with all of them,
  -- under an id that was the next, before idle workers are woken.
  pub start_search-Promise :
      (result : Option ℕ) (s' : MasterServer)
      → start_search env fs keyword config depth filepath s ≡ some (result, s')
      → StartPromise env fs keyword config depth filepath s (result, s')
  unfolding start_search
  start_search-Promise result s' =
      IfSome-some (StartPromise env fs keyword config depth filepath s)
        (search_below env fs keyword config depth filepath (fs.canonical env.input_dir) s)
        (go (fs.canonical env.input_dir) refl)
    where
      go :
          (base : Option (List ℕ))
          → fs.canonical env.input_dir ≡ base
          → Keeps (search_below env fs keyword config depth filepath base s)
      go none e = Untouched-same
      go (some base) e =
          resolved-Promise base (fs.canonical (join base (make_relative filepath))) e refl
