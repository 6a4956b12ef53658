-- ===== src/Pipeline/Trip.antt =====
-- A chunk from end to end: from the task of a worker to the session of the master.
use log_grid.Base.{
  All, Bool, Bool-cases, List, Option, [], ap, arith, inl, inr, length, length-append, min, refl,
  some, suc, sym, take, true, zero, ℕ, ◌++◌, ◌+◌, ◌-◌, ◌<◌, ◌^◌, ◌∷◌, ◌≡◌, ◌≤◌,
}
use log_grid.Base.Assoc.{lookup}
use log_grid.Protocol.{ChunkResult, IsPayload, TaskPayload, c_str, no_result}
use log_grid.Protocol.Batch.{IsBatch, task_done_message}
use log_grid.Master.State.{MasterServer, SearchSession, get_or}
use log_grid.Master.Dispatch.{tasks_of}
use log_grid.Master.Handlers.{on_message}
use log_grid.Master.Accounting.{Inv}
use log_grid.Master.Books.Written.{written_after}
use log_grid.Master.Books.Completion.{on_message-task_done_message, session_after}
use log_grid.Worker.Lines.{length-after_newline, length-from_start, lines_within}
use log_grid.Worker.Stream.{first_line}
use log_grid.Worker.FileProcessor.{result_line, search_task, strip_cr}
use log_grid.Worker.FileProcessor.Tiling.{chunk_lines}
use log_grid.Worker.FileProcessor.Counts.{length-chunk_lines, length-matched-le, matched}
use log_grid.Worker.Client
use log_grid.Net.Message.{Message}
use log_grid.Master.Books.Completion.{on_message-task_done_message, session_after}
use log_grid.Pipeline.Matches.{search_task_lem}

abbrev NoLonger : ℕ → List (List ℕ) → Type 0
NoLonger n lines = All (λ line. length line ≤ n) lines

length-first_line_le : (r : List ℕ) → length (first_line r) ≤ length r
unfolding first_line
length-first_line_le [] = omega arith
length-first_line_le (c ∷ cs) = ground (arith, length-first_line_le cs)

lines_within-NoLonger :
    (n fuel d : ℕ) (r : List ℕ) → length r ≤ n → NoLonger n (lines_within fuel d r)
unfolding lines_within
lines_within-NoLonger n zero d r h = tt
lines_within-NoLonger n (suc fuel) d [] h = tt
lines_within-NoLonger n (suc fuel) zero (c ∷ cs) h = tt
lines_within-NoLonger n (suc fuel) (suc d) (c ∷ cs) h = (
  omega (arith, length-first_line_le (c ∷ cs)),
  lines_within-NoLonger n fuel _ _ (omega (arith, length-after_newline (c ∷ cs))),
)

length-strip_cr : (line : List ℕ) → length (strip_cr line) ≤ length line
unfolding strip_cr
length-strip_cr [] = omega arith
length-strip_cr (c ∷ []) = ground arith
length-strip_cr (c ∷ d ∷ cs) = omega (arith, length-strip_cr (d ∷ cs))

length-c_str : (text : List ℕ) → length (c_str text) ≤ length text
unfolding c_str
length-c_str [] = omega arith
length-c_str (c ∷ cs) = ground (arith, length-c_str cs)

length-result_line :
    (filename line : List ℕ)
    → length (result_line filename line) ≤ length filename + 2 + length line
unfolding result_line
length-result_line filename line =
    omega (arith, length-append (c_str filename) (58 ∷ 32 ∷ line), length-c_str filename)

matched-NoLonger :
    {R : Type 0} (regex_search : R → List ℕ → Bool) (pattern : R) (filename : List ℕ) (n : ℕ)
    (lines : List (List ℕ))
    → NoLonger n lines
    → NoLonger (length filename + 2 + n) (matched regex_search pattern filename lines)
unfolding matched
matched-NoLonger regex_search pattern filename n [] h = tt
matched-NoLonger regex_search pattern filename n (l ∷ ls) h =
    let rest = matched-NoLonger regex_search pattern filename n ls h.1 in
    elim (Bool-cases (regex_search pattern (strip_cr l))) [
      | inl hit ↦
          rw hit
            (omega (arith, length-result_line filename (strip_cr l), length-strip_cr l, h.0), rest)
      | inr miss ↦ rw miss rest
    ]

take-All :
    (P : List ℕ → Type 0) (n : ℕ) (lines : List (List ℕ)) → All P lines → All P (take n lines)
take-All P zero lines h = tt
take-All P (suc n) [] h = tt
take-All P (suc n) (l ∷ ls) h = (h.0, take-All P n ls h.1)

All-imp :
    (P Q : List ℕ → Type 0) (lines : List (List ℕ))
    → ((l : List ℕ) → P l → Q l)
    → All P lines
    → All Q lines
All-imp P Q [] k h = tt
All-imp P Q (l ∷ ls) k h = (k l h.0, All-imp P Q ls k h.1)

length-take : (n : ℕ) (lines : List (List ℕ)) → length (take n lines) ≡ min n (length lines)
length-take zero lines = omega arith
length-take (suc n) [] = omega arith
length-take (suc n) (l ∷ ls) = omega (arith, length-take n ls)

module _ {R : Type 0} (compile : List ℕ → Option R) (regex_search : R → List ℕ → Bool)
    (open_file : List ℕ → Option (List ℕ)) (content : List ℕ) (pattern : R) (t : TaskPayload) where
  -- The batch that the worker makes of the task.
  abbrev pub batch_of : ChunkResult
  batch_of =
      let found =
        matched regex_search pattern t.filename (chunk_lines content t.start_offset t.end_offset) in
      record {
        lines = take t.max_results found;
        search_id = t.search_id;
        task_id = t.task_id;
        total_matches = length found;
        lines_found = min t.max_results (length found);
      }

  batch_of-IsBatch :
      IsPayload t
      → length content + 512 < 2 ^ 32
      → t.end_offset - t.start_offset < 2 ^ 32
      → IsBatch batch_of
  batch_of-IsBatch v small short =
      let lines = chunk_lines content t.start_offset t.end_offset in
      let found = matched regex_search pattern t.filename lines in
      let few : length found < 2 ^ 32 = omega (
        arith,
        length-matched-le regex_search pattern t.filename lines,
        length-chunk_lines content t.start_offset t.end_offset,
      ) in
      record {
        short_lines = take-All _ t.max_results found (
            All-imp _ _ found (λ l h. omega (arith, h, v.filename_len, small))
              (matched-NoLonger regex_search pattern t.filename (length content) lines (
                lines_within-NoLonger (length content) (length content) _ _
                  (length-from_start t.start_offset content))));
        counted = sym (length-take t.max_results found);
        lines_found_u32 = omega (arith, few);
        total_matches_u64 = omega (arith, few);
        search_id_u64 = v.search_id_u64;
        task_id_u64 = v.task_id_u64;
      }

  -- SearchTask as the job calls it.
  abbrev pub searched : TaskPayload → ℕ → ChunkResult
  searched task max = get_or (search_task compile regex_search open_file task max) no_result

  run_task_lem :
      (w : Client.WorkerClient)
      → w.connected ≡ true
      → searched t t.max_results ≡ record batch_of { search_id = 0; task_id = 0 }
      → (Client.run_task searched t w).sent ≡ w.sent ++ (task_done_message batch_of ∷ [])
  unfolding Client.run_task Client.send
  run_task_lem w connected found = rw (found, connected) refl

  -- A task that a worker has, on a file that it can open and with a keyword that compiles: the
  -- worker sends one message, the batch with the matching lines of the chunk; OnMessage of the
  -- master takes it in without an error, and the search of the task has one more chunk done, its
  -- matches added and its stored lines counted up to the maximum; and the matching lines that there
  -- is room for are appended to its result file, if that opens. The worker is connected and the
  -- file and the chunk are shorter than 4 GB; the books of the master are in order, with task ids
  -- left, the search is known, and it has not stored more than its maximum.
  pub chunk_trip :
      (can_open : List ℕ → Bool) (client : ℕ) (w : Client.WorkerClient) (s : MasterServer)
      (session : SearchSession)
      → w.connected ≡ true
      → open_file (c_str t.filename) ≡ some content
      → compile (c_str t.keyword) ≡ some pattern
      → IsPayload t
      → length content + 512 < 2 ^ 32
      → t.end_offset - t.start_offset < 2 ^ 32
      → Inv s
      → s.next_task_id + length s.pending_tasks < 2 ^ 64
      → lookup t.task_id (tasks_of client s) ≡ some t
      → lookup t.search_id s.sessions ≡ some session
      → session.line_count ≤ session.max_results
      → (msg : Message) × (s' : MasterServer) × ((Client.run_task searched t w).sent
          ≡ w.sent ++ (msg ∷ []))
        × (on_message can_open client msg s ≡ some s')
        × (lookup t.search_id s'.sessions ≡ some (session_after session batch_of))
        × (s'.written ≡ written_after can_open session batch_of.lines s.written)
  chunk_trip can_open client w s session connected opens compiles is_payload small short v room
        there known bounded =
      let found =
        search_task_lem compile regex_search open_file content pattern t t.max_results opens
          compiles (omega (arith, is_payload.end_u64)) short in
      let (s', runs, after, stored) =
        on_message-task_done_message can_open client batch_of s t session v room there known
          (batch_of-IsBatch is_payload small short) bounded in
      (
        task_done_message batch_of,
        s',
        run_task_lem w connected (ap (λ o. get_or o no_result) found),
        runs,
        after,
        stored,
      )
