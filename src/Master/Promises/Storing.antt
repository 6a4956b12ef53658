-- ===== src/Master/Promises/Storing.antt =====
-- The promises of AggregateTaskResult, DeserializeBatch and WriteResults.
use log_grid.Base.{
  Bool, Bool-cases, List, Option, ap, arith, drop, inl, inr, length, length-take, ltb, none, refl,
  some, suc, take, zero, ℕ, ◌+◌, ◌-◌, ◌<◌, ◌∙◌, ◌∷◌, ◌≡◌, ◌≤◌, ◌⊎◌,
}
use log_grid.Base.Assoc.{lookup, lookup-insert_ne, lookup-insert_self, total}
use log_grid.Net.Message.{Message, pull, size_of}
use log_grid.Net.Bytes.{from_le}
use log_grid.Protocol.{ChunkResult}
use log_grid.Protocol.Batch.{
  Outcome, deserialize_batch, ok, or_throw, out_of_bounds, read_lines, throws, ◌>>=◌,
}
use log_grid.Master.State.{MasterServer, SearchSession}
use log_grid.Master.Results.{
  aggregate_task_result, count_batch, store_batch, store_if_known, write_results,
}
use log_grid.Master.Books.Completion.{count_batch_lem}
use log_grid.Master.Served.Answered.{store_batch_eq}
use log_grid.Master.Books.Written.{written-store_batch}
use log_grid.Master.Promises.{AggregatePromise, BatchPromise, WritePromise}

-- The loop gives as many lines as asked for, where it does not leave the body.
abbrev Lines : ℕ → Outcome (List (List ℕ)) → Type 0
Lines n (ok lines) = length lines ≡ n
Lines n throws = ⊥
Lines n out_of_bounds = Unit

Lines-cons :
    (n : ℕ) (line : List ℕ) (o : Outcome (List (List ℕ)))
    → Lines n o
    → Lines (suc n) (o >>= λ lines. ok (line ∷ lines))
Lines-cons n line (ok lines) h = omega (arith, h)
Lines-cons n line throws h = elim h [ ]
Lines-cons n line out_of_bounds h = tt

read_lines-Lines : (n : ℕ) (body : List ℕ) → Lines n (read_lines n body)
unfolding read_lines
read_lines-Lines zero body = refl
read_lines-Lines (suc n) body =
    let at_line = drop 4 body in
    let len = from_le (take 4 body) in
    elim (Bool-cases (ltb (length body) 4)) [
      | inl short ↦ rw short tt
      | inr enough ↦ elim (Bool-cases (ltb (length at_line) len)) [
        | inl beyond ↦ rw (enough, beyond) tt
        | inr inside ↦
            rw (enough, inside)
              (Lines-cons n (take len at_line) _ (read_lines-Lines n (drop len at_line)))
      ]
    ]

-- A value can be popped exactly where there are enough bytes, which are gone then.
pull_cases :
    (n : ℕ) (m : Message)
    → ((length m.body < n) × (pull n m ≡ none))
      ⊎ ((raw : List ℕ) × (rest : Message) × (pull n m ≡ some (raw, rest))
          × (length rest.body + n ≡ length m.body))
unfolding pull
pull_cases n m = elim (Bool-cases (ltb (length m.body) n)) [
  | inl short ↦ inl (ground arith, rw short refl)
  | inr enough ↦
      let fits : n ≤ length m.body = ground arith in
      let rest = take (length m.body - n) m.body in
      inr (
        drop (length m.body - n) m.body,
        record m { body = rest; size = size_of rest },
        rw enough refl,
        omega (arith, fits, length-take (length m.body - n) m.body),
      )
]

-- DeserializeBatch keeps its promise.
pub deserialize_batch-Promise : (msg : Message) → BatchPromise msg (deserialize_batch msg)
unfolding deserialize_batch or_throw
deserialize_batch-Promise msg = elim (pull_cases 8 msg) [
  | inl (short, none_there) ↦ rw none_there (omega (arith, short))
  | inr (search_id, m1, e1, l1) ↦ elim (pull_cases 8 m1) [
    | inl (short, none_there) ↦ rw (e1, none_there) (omega (arith, short, l1))
    | inr (total, m2, e2, l2) ↦ elim (pull_cases 4 m2) [
      | inl (short, none_there) ↦ rw (e1, e2, none_there) (omega (arith, short, l1, l2))
      | inr (count, m3, e3, l3) ↦
          rw (e1, e2, e3)
            (announced (from_le search_id) (from_le total) (from_le count)
              (read_lines (from_le count) m3.body) (omega (arith, l1, l2, l3))
              (read_lines-Lines (from_le count) m3.body))
    ]
  ]
]
  where
    announced :
        (search_id total count : ℕ) (o : Outcome (List (List ℕ)))
        → 20 ≤ length msg.body
        → Lines count o
        → BatchPromise msg (
            o >>= λ lines. ok (record {
              lines = lines;
              search_id = search_id;
              task_id = 0;
              total_matches = total;
              lines_found = count;
            }))
    announced search_id total count (ok lines) enough h = (enough, h)
    announced search_id total count throws enough h = elim h [ ]
    announced search_id total count out_of_bounds enough h = enough

module _ (can_open : List ℕ → Bool) where
  stored-Promise :
      (msg : Message) (batch : ChunkResult) (id : ℕ) (session : SearchSession) (s : MasterServer)
      → deserialize_batch msg ≡ ok batch
      → lookup id s.sessions ≡ some session
      → AggregatePromise can_open msg id s (ok (store_batch can_open batch id session s))
  unfolding count_batch
  stored-Promise msg batch id session s decodes known =
      let (w, same) = store_batch_eq can_open batch id session s in
      (
        batch,
        session,
        count_batch session batch,
        decodes,
        known,
        ap (λ r. lookup id r.sessions) same
            ∙ lookup-insert_self id (count_batch session batch) s.sessions,
        refl,
        count_batch_lem session batch,
        λ k apart. ap (λ r. lookup k r.sessions) same ∙ lookup-insert_ne id k _ s.sessions apart,
        written-store_batch can_open batch id session s,
      )

  -- AggregateTaskResult keeps its promise: where it returns, the batch of the message is counted in
  -- the session of the search, its lines up to the maximum; those lines of the batch that there is
  -- room for are appended to the result file of the search, if it opens, and to no other; and no
  -- other session is touched; it throws only for a message that is too short or a search that is not
  -- known; and it reads out of bounds only in a message with its three numbers.
  pub aggregate_task_result-Promise :
      (msg : Message) (id : ℕ) (s : MasterServer)
      → AggregatePromise can_open msg id s (aggregate_task_result can_open msg id s)
  unfolding aggregate_task_result
  aggregate_task_result-Promise msg id s =
      go (deserialize_batch msg) refl (deserialize_batch-Promise msg)
    where
      known_or_not :
          (batch : ChunkResult) (session : Option SearchSession)
          → deserialize_batch msg ≡ ok batch
          → lookup id s.sessions ≡ session
          → AggregatePromise can_open msg id s (store_if_known can_open batch id session s)
      known_or_not batch none decodes e = inr e
      known_or_not batch (some session) decodes e = stored-Promise msg batch id session s decodes e

      go :
          (o : Outcome ChunkResult)
          → deserialize_batch msg ≡ o
          → BatchPromise msg o
          → AggregatePromise can_open msg id s
              (o >>= λ batch. store_if_known can_open batch id (lookup id s.sessions) s)
      go (ok batch) decodes h = known_or_not batch (lookup id s.sessions) decodes refl
      go throws decodes h = inl h
      go out_of_bounds decodes h = h

  -- WriteResults keeps its promise.
  pub write_results-Promise :
      (lines : List (List ℕ)) (id : ℕ) (s : MasterServer)
      → WritePromise can_open lines id s (write_results can_open lines id s)
  unfolding write_results
  write_results-Promise lines id s = (
    λ session known opens. rw (known, write_results) (rw opens refl),
    λ session known closed. rw (known, write_results) (rw closed refl),
    λ unknown. rw (unknown, write_results) refl,
  )
