-- ===== src/Http/Routes.antt =====
-- The routes over the master.
use log_grid.Master.Start.{Environment, equal_bytes, start_search}
use log_grid.Base.{
  List, Option, [], ap, arith, inl, inr, refl, some, ℕ, ◌<◌, ◌^◌, ◌↔◌, ◌∷◌, ◌≡◌, ◌⊎◌,
}
use log_grid.Master.State.{MasterServer, SearchState, SearchStatus, done, get_status, running}
use log_grid.Master.Scan.{FileSystem}
use log_grid.Master.Start.{Environment, equal_bytes, start_search}
use log_grid.Master.Accounting.{Inv, outstanding}
use log_grid.Master.Books.Publish.{get_status-done_iff}
use log_grid.Http.Stoull.{decimal, stoull-decimal}
use log_grid.Http.{
  JsonValue, SearchService, chunks_done_key, chunks_total_key, field, handle_get_search,
  json_object, json_text, lines_count_key, number, ok_200, scan_errors_key, search_id_key,
  state_key, state_text, status_json, total_matches_key,
}

-- The master as the service; the outer `none` is a fuel that ran out.
abbrev pub master_service : Environment → FileSystem → ℕ → SearchService MasterServer
master_service env fs depth = record {
  start_search = λ path keyword config s. start_search env fs keyword config depth path s;
  get_status = get_status;
}

-- The reply for a known search.
pub handle_get_search-known :
    (env : Environment) (fs : FileSystem) (depth id : ℕ) (status : SearchStatus) (s : MasterServer)
    → id < 2 ^ 64
    → get_status s id ≡ some status
    → handle_get_search (master_service env fs depth) (decimal 20 id []) s
      ≡ record { status = ok_200; content = json_object (status_json id status) }
unfolding handle_get_search
handle_get_search-known env fs depth id status s u64 known = rw (stoull-decimal id u64, known) refl

-- "Done"
abbrev pub done_text : List ℕ
done_text = 68 ∷ 111 ∷ 110 ∷ 101 ∷ []

-- The reply names the state and the counts of the status.
pub record Tells (id : ℕ) (status : SearchStatus) (fields : List (List ℕ × JsonValue))
    : Type 0 where
  pub same_id : field search_id_key fields ≡ some (number id)
  pub says_done : (field state_key fields ≡ some (json_text done_text)) ↔ (status.state ≡ done)
  pub same_chunks_done : field chunks_done_key fields ≡ some (number status.chunks_done)
  pub same_chunks_total : field chunks_total_key fields ≡ some (number status.chunks_total)
  pub same_lines : field lines_count_key fields ≡ some (number status.lines_found)
  pub same_matches : field total_matches_key fields ≡ some (number status.total_matches)
  pub same_errors : field scan_errors_key fields ≡ some (number status.scan_errors)

first_byte : Option JsonValue → ℕ
first_byte (some (json_text (c ∷ cs))) = c
first_byte _ = 0

running-or-done : (state : SearchState) → (state ≡ running) ⊎ (state ≡ done)
running-or-done running = inl refl
running-or-done done = inr refl

state-says_done :
    (state : SearchState)
    → (some (json_text (state_text state)) ≡ some (json_text done_text)) ↔ (state ≡ done)
unfolding first_byte
state-says_done running = (λ e. absurd (omega (arith, ap first_byte e)), λ e. absurd (cc))
state-says_done done = (λ e. refl, λ e. refl)

pub status_json-Tells : (id : ℕ) (status : SearchStatus) → Tells id status (status_json id status)
unfolding equal_bytes
status_json-Tells id status = record {
  same_id = refl;
  says_done = state-says_done status.state;
  same_chunks_done = refl;
  same_chunks_total = refl;
  same_lines = refl;
  same_matches = refl;
  same_errors = refl;
}

-- A client that polls a known search by the digits of its id is answered with status 200 and an
-- object whose fields are the id, the state and the five counts that GetStatus gives; the field of
-- the state is "Done" exactly when none of the chunks of the search waits or is in flight, if the
-- books are in order, the id is a 64-bit number and there are less than 2 ^ 32 of those chunks.
pub handle_get_search-done_iff :
    (env : Environment) (fs : FileSystem) (depth id : ℕ) (status : SearchStatus) (s : MasterServer)
    → id < 2 ^ 64
    → Inv s
    → outstanding id s < 2 ^ 32
    → get_status s id ≡ some status
    → (fields : List (List ℕ × JsonValue)) × (handle_get_search
          (master_service env fs depth)
          (decimal 20 id [])
          s
        ≡ record { status = ok_200; content = json_object fields })
      × Tells id status fields
      × ((field state_key fields ≡ some (json_text done_text)) ↔ (outstanding id s ≡ 0))
handle_get_search-done_iff env fs depth id status s u64 v small known =
    let told = status_json-Tells id status in
    let finished = get_status-done_iff id s status v small known in
    (
      status_json id status,
      handle_get_search-known env fs depth id status s u64 known,
      told,
      (λ e. finished.0 (told.says_done.0 e), λ e. told.says_done.1 (finished.1 e)),
    )
