-- ===== src/Pipeline/Service.antt =====
-- A search of one file from the call of StartSearch to the reply over HTTP, with any number of workers.
use log_grid.Base.{Bool, List, Option, length, some, take, ℕ, ◌+◌, ◌<◌, ◌^◌, ◌≡◌, ◌≤◌}
use log_grid.Protocol.{TaskPayload, filename_size, keyword_size}
use log_grid.Worker.Lines.{lines_of}
use log_grid.Worker.FileProcessor.Counts.{matched}
use log_grid.Master.Chunks.{chunk_size, padded}
use log_grid.Master.Chunks.Texts.{IsText}
use log_grid.Master.Scan.{Scan, regular_file}
use log_grid.Master.Served.{Request, Served}

-- The task that the chunks of the target are copies of.
abbrev file_task : Request → List ℕ → ℕ → TaskPayload
file_task r target id = record {
  search_id = id;
  task_id = 0;
  max_results = r.config.max_results;
  start_offset = 0;
  end_offset = 0;
  keyword = padded keyword_size r.keyword;
  filename = padded filename_size target;
}

module _ {R : Type 0} (compile : List ℕ → Option R) (regex_search : R → List ℕ → Bool)
    (open_file : List ℕ → Option (List ℕ)) where
  -- The target of a request is a file with this content, which the workers can open, and its keyword
  -- compiles. The path and the keyword have no NUL in them, the file is not empty, and no offset of a
  -- chunk wraps.
  pub record WholeFile (r : Request) (target content : List ℕ) (pattern : R) : Type 0 where
    pub regular : r.fs.file_kind target ≡ regular_file
    pub sized : r.fs.file_size target ≡ some (length content)
    pub not_empty : 0 < length content
    pub opens : open_file target ≡ some content
    pub compiles : compile (take 63 r.keyword) ≡ some pattern
    pub path_text : IsText target
    pub keyword_text : IsText r.keyword
    pub fits : length content + chunk_size ≤ 2 ^ 64

  module _ (r : Request) (id : ℕ) (target content : List ℕ) (pattern : R)
      (f : WholeFile r target content pattern) where
    -- The lines of the file that match.
    abbrev pub hits : List (List ℕ)
    hits = matched regex_search pattern (padded filename_size target) (lines_of content)
