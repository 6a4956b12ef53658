-- ===== src/Http/Api.antt =====
-- NetServer/src/HttpApi.cpp and HttpApi.hpp: the routes of the HTTP server, and its start and stop.
-- The server library is a parameter.
use log_grid.Base.{Bool, List, Option, [], false, some, true, ℕ, ◌∷◌}
use log_grid.Http.{Json, Response, SearchController, handle_get_search, handle_post_search}

-- What the routes use of a request: its body, and the text of the path parameter `id`.
pub record Request : Type 0 where
  pub body : List ℕ
  pub id_param : List ℕ

-- The library's calls, on a server that keeps handlers of the type `H`: a route for POST and for GET,
-- the loop that serves a host and a port, its end, and the handler for the method and the path of a
-- request. A method is POST or not.
pub record HttpServer (Srv H : Type 0) : Type 0 where
  pub post : List ℕ → H → Srv → Srv
  pub get : List ℕ → H → Srv → Srv
  pub listen : List ℕ → ℕ → Srv → Srv
  pub stop : Srv → Srv

-- "/api/search", "/api/status/:id" and "0.0.0.0"
abbrev pub search_pattern : List ℕ
search_pattern = 47 ∷ 97 ∷ 112 ∷ 105 ∷ 47 ∷ 115 ∷ 101 ∷ 97 ∷ 114 ∷ 99 ∷ 104 ∷ []

abbrev pub status_pattern : List ℕ
status_pattern =
    47 ∷ 97 ∷ 112 ∷ 105 ∷ 47 ∷ 115 ∷ 116 ∷ 97 ∷ 116 ∷ 117 ∷ 115 ∷ 47 ∷ 58 ∷ 105 ∷ 100 ∷ []

abbrev pub any_host : List ℕ
any_host = 48 ∷ 46 ∷ 48 ∷ 46 ∷ 48 ∷ 46 ∷ 48 ∷ []

module _ {Srv S J : Type 0} (http : HttpServer Srv (Request → S → Option (Response × S)))
    (controller : SearchController S) (json : Json J) where
  -- HttpApi with its controller: the server, and whether the thread serves.
  pub record HttpApi : Type 0 where
    pub svr : Srv
    pub serving : Bool

  abbrev pub post_handler : Request → S → Option (Response × S)
  post_handler req s = handle_post_search controller.service json req.body s

  abbrev pub get_handler : Request → S → Option (Response × S)
  get_handler req s = some (handle_get_search controller.service req.id_param s, s)

  -- `RegisterRoutes`
  unfoldable pub register_routes : Srv → Srv
  register_routes svr =
      http.get status_pattern get_handler (http.post search_pattern post_handler svr)

  -- `Start`
  unfoldable pub start : ℕ → HttpApi → HttpApi
  start port api = record {
    svr = http.listen any_host port (register_routes api.svr);
    serving = true;
  }

  -- `Stop`
  unfoldable pub stop : HttpApi → HttpApi
  stop api = record { svr = http.stop api.svr; serving = false }
