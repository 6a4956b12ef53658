-- ===== src/Http.antt =====
-- NetServer/src/SearchController.cpp: the two routes of the HTTP interface, over a search service.
-- Parameters are the JSON library's calls and httplib's path parameter.
pub mod Stoull
pub mod Routes
pub mod Api
use mathlib.Core.Option
use log_grid.Master.Start.{equal_bytes}
use log_grid.Base.{List, Option, [], if◌then◌else◌, none, some, ℕ, ◌∷◌}
use log_grid.Http.Stoull.{stoull}
use log_grid.Master.State.{SearchState, SearchStatus, done, running}
use log_grid.Master.Scan.{SearchConfig}

-- The status codes that the controller sets.
pub data Status : Type 0 where
  ok_200 accepted_202 bad_request_400 not_found_404 : Status

abbrev pub status_code : Status → ℕ
status_code ok_200 = 200
status_code accepted_202 = 202
status_code bad_request_400 = 400
status_code not_found_404 = 404

-- A value in a JSON object, and the value of a field of it.
pub data JsonValue : Type 0 where
  number : ℕ → JsonValue
  json_text : List ℕ → JsonValue

abbrev pub field : List ℕ → List (List ℕ × JsonValue) → Option JsonValue
field key [] = none
field key ((k, v) ∷ fields) =
    let rest = field key fields in if equal_bytes k key then some v else rest

-- The names of the fields.
-- "searchId"
abbrev pub search_id_key : List ℕ
search_id_key = 115 ∷ 101 ∷ 97 ∷ 114 ∷ 99 ∷ 104 ∷ 73 ∷ 100 ∷ []

-- "state"
abbrev pub state_key : List ℕ
state_key = 115 ∷ 116 ∷ 97 ∷ 116 ∷ 101 ∷ []

-- "chunksDone"
abbrev pub chunks_done_key : List ℕ
chunks_done_key = 99 ∷ 104 ∷ 117 ∷ 110 ∷ 107 ∷ 115 ∷ 68 ∷ 111 ∷ 110 ∷ 101 ∷ []

-- "chunksTotal"
abbrev pub chunks_total_key : List ℕ
chunks_total_key = 99 ∷ 104 ∷ 117 ∷ 110 ∷ 107 ∷ 115 ∷ 84 ∷ 111 ∷ 116 ∷ 97 ∷ 108 ∷ []

-- "linesCount"
abbrev pub lines_count_key : List ℕ
lines_count_key = 108 ∷ 105 ∷ 110 ∷ 101 ∷ 115 ∷ 67 ∷ 111 ∷ 117 ∷ 110 ∷ 116 ∷ []

-- "totalMatches"
abbrev pub total_matches_key : List ℕ
total_matches_key = 116 ∷ 111 ∷ 116 ∷ 97 ∷ 108 ∷ 77 ∷ 97 ∷ 116 ∷ 99 ∷ 104 ∷ 101 ∷ 115 ∷ []

-- "scanErrors"
abbrev pub scan_errors_key : List ℕ
scan_errors_key = 115 ∷ 99 ∷ 97 ∷ 110 ∷ 69 ∷ 114 ∷ 114 ∷ 111 ∷ 114 ∷ 115 ∷ []

-- `session.state == SearchState::Running ? "Running" : "Done"`
abbrev pub state_text : SearchState → List ℕ
state_text running = 82 ∷ 117 ∷ 110 ∷ 110 ∷ 105 ∷ 110 ∷ 103 ∷ []
state_text done = 68 ∷ 111 ∷ 110 ∷ 101 ∷ []

-- The object that HandleGetSearch makes of a status.
abbrev pub status_json : ℕ → SearchStatus → List (List ℕ × JsonValue)
status_json session_id session =
    (search_id_key, number session_id)
    ∷ (state_key, json_text (state_text session.state))
    ∷ (chunks_done_key, number session.chunks_done)
    ∷ (chunks_total_key, number session.chunks_total)
    ∷ (lines_count_key, number session.lines_found)
    ∷ (total_matches_key, number session.total_matches)
    ∷ (scan_errors_key, number session.scan_errors)
    ∷ []

-- The JSON texts by their object, which the library prints; the plain ones with what tells them apart.
pub data Content : Type 0 where
  json_object : List (List ℕ × JsonValue) → Content
  bad_request : Content
  runtime_error : Content
  session_not_found : Content

pub record Response : Type 0 where
  pub status : Status
  pub content : Content

-- ISearchService, on a state: the id of the search, or the inner `none` where StartSearch throws; the
-- outer `none` where it does not return.
pub record SearchService (S : Type 0) : Type 0 where
  pub start_search : List ℕ → List ℕ → SearchConfig → S → Option (Option ℕ × S)
  pub get_status : S → ℕ → Option SearchStatus

-- The controller holds a reference to the service.
pub record SearchController (S : Type 0) : Type 0 where
  pub service : SearchService S

-- The calls of the JSON library on a body: `none` where they throw.
pub record Json (J : Type 0) : Type 0 where
  pub parse : List ℕ → Option J
  pub max_results : J → ℕ → Option ℕ
  pub output_dir : J → List ℕ → Option (List ℕ)
  pub path : J → Option (List ℕ)
  pub keyword : J → Option (List ℕ)

-- SearchConfig with its default values: "/sessions/" and 10000 lines
abbrev pub default_config : SearchConfig
default_config = record {
  output_dir = 47 ∷ 115 ∷ 101 ∷ 115 ∷ 115 ∷ 105 ∷ 111 ∷ 110 ∷ 115 ∷ 47 ∷ [];
  max_results = 10000;
}

-- What a request asks for.
pub record SearchRequest : Type 0 where
  pub request_path : List ℕ
  pub request_keyword : List ℕ
  pub request_config : SearchConfig

infixl 5 ◌>>=◌
abbrev ◌>>=◌ {ℓ κ} : {A : Type ℓ} {B : Type κ} → Option A → (A → Option B) → Option B
none >>= f = none
some a >>= f = f a

module _ {J : Type 0} (json : Json J) where
  -- The part of HandlePostSearch that reads the body, in the source's order.
  unfoldable pub read_request : List ℕ → Option SearchRequest
  read_request text = do
    body ← json.parse text
    max_results ← json.max_results body default_config.max_results
    output_dir ← json.output_dir body default_config.output_dir
    path ← json.path body
    keyword ← json.keyword body
    some (record {
      request_path = path;
      request_keyword = keyword;
      request_config = record { output_dir = output_dir; max_results = max_results };
    })

abbrev pub start_response : Option ℕ → Response
start_response none = record { status = not_found_404; content = runtime_error }
start_response (some search_id) = record {
  status = accepted_202;
  content = json_object ((search_id_key, number search_id) ∷ []);
}

module _ {S : Type 0} (service : SearchService S) where
  abbrev pub started : Option ℕ × S → Response × S
  started (result, s) = (start_response result, s)

  abbrev pub serve : Option SearchRequest → S → Option (Response × S)
  serve none s = some (record { status = bad_request_400; content = bad_request }, s)
  serve (some r) s =
      Option.map started (service.start_search r.request_path r.request_keyword r.request_config s)

  -- `HandlePostSearch`
  unfoldable pub handle_post_search : {J : Type 0} → Json J → List ℕ → S → Option (Response × S)
  handle_post_search json text s = serve (read_request json text) s

  abbrev pub status_response : ℕ → Option SearchStatus → Response
  status_response id none = record { status = not_found_404; content = session_not_found }
  status_response id (some status) = record {
    status = ok_200;
    content = json_object (status_json id status);
  }

  -- An id that is no number, or too large, throws std::invalid_argument or std::out_of_range, which
  -- the last handler takes.
  abbrev pub lookup_response : Option ℕ → S → Response
  lookup_response none s = record { status = bad_request_400; content = bad_request }
  lookup_response (some id) s = status_response id (service.get_status s id)

  -- `HandleGetSearch`, on the text of the path parameter
  unfoldable pub handle_get_search : List ℕ → S → Response
  handle_get_search text s = lookup_response (stoull text) s
