-- ===== src/Worker/FileProcessor/Tiling.antt =====
-- SearchTask as a whole: it notes the lines that begin inside its chunk, so that chunks side by
-- side note every line of the file once.
use native.Mathlib.Numerals.{sub-one, add-one}
use log_grid.Protocol.{ChunkResult, TaskPayload, c_str, no_result}
use log_grid.Base.{
  Bool, Bool-cases, List, Option, [], ap, arith, drop, false, inl, inr, length, length-drop, none,
  refl, some, suc, sym, zero, ℕ, ◌+◌, ◌-◌, ◌<◌, ◌==◌, ◌^◌, ◌∙◌, ◌∷◌, ◌≡◌, ◌⊎◌,
}
use log_grid.Worker.Stream.{
  Stream, after_newline, first_line, get, getline, has_newline, newline, open_stream, seekg, tellg,
}
use log_grid.Worker.Lines.{from_start, last_line, length-from_start, lines_within}
use log_grid.Worker.FileProcessor.{as_u64, search_content, search_loop, skip_partial, skip_rest}
use log_grid.Worker.FileProcessor.Loop.{
  drop-drop, drop_line, getline_end, getline_last, getline_line, lines_within_nil, note_all,
  reading, round_stop, search_loop_lem,
}

-- The lines that a chunk owns: those from its start on that begin before its end.
abbrev pub chunk_lines : List ℕ → ℕ → ℕ → List (List ℕ)
chunk_lines content start end =
    let r = from_start start content in
    lines_within (length content) (end - (length content - length r)) r

-- Where the stream stands when the loop begins: on the first line of the chunk, or failed or at the
-- end of the file if no line begins there.
abbrev Placed : List ℕ → List ℕ → Stream → Type 0
Placed content r s =
    ((p : ℕ) × (s ≡ reading content p) × (drop p content ≡ r)) ⊎ ((r ≡ []) × ((tellg s).0 ≡ none))

-- The `getline` that skips the rest of a line.
skip_line :
    (content : List ℕ) (p : ℕ) (r : List ℕ)
    → drop p content ≡ r
    → Placed content (after_newline r) (getline (reading content p)).1
skip_line content p [] e =
    inr (unfold after_newline in refl, unfold tellg in rw (getline_end content p e))
skip_line content p (c ∷ cs) e = elim (Bool-cases (has_newline (c ∷ cs))) [
  | inl more ↦ inl (
    p + (length (first_line (c ∷ cs)) + 1),
    ap (λ x. x.1) (getline_line content p e more),
    drop-drop p _ content ∙ ap (drop _) e ∙ drop_line (c ∷ cs) more,
  )
  | inr last ↦ inr ((last_line (c ∷ cs) last).1, unfold tellg in rw (getline_last content p e last))
]

skip_rest_lem :
    (content : List ℕ) (k : ℕ) (r : List ℕ)
    → drop k content ≡ r
    → Placed content (after_newline r) (skip_rest (get (reading content k)))
skip_rest_lem content k [] e =
    inr (unfold after_newline in refl, unfold get getline tellg in rw e refl)
skip_rest_lem content k (c ∷ cs) e =
    let got : get (reading content k) ≡ (some c, reading content (k + 1)) = unfold get in rw e in
    let next : drop (k + 1) content ≡ cs = drop-drop k 1 content ∙ ap (drop 1) e in
    elim (Bool-cases (c == newline)) [
      | inl nl ↦ rw (got, nl) (unfold after_newline in rw nl (inl (k + 1, refl, next)))
      | inr more ↦
          rw (got, more) (unfold after_newline in rw more (skip_line content (k + 1) cs next))
    ]

skip_partial_lem :
    (content : List ℕ) (start : ℕ)
    → Placed content
        (from_start start content)
        (skip_partial start (seekg start (open_stream content)))
unfolding skip_partial seekg from_start
skip_partial_lem content zero = inl (0, refl, refl)
skip_partial_lem content (suc k) =
    let middle : (suc k == 0) ≡ false = ground arith in
    rw (middle, sub-one) (skip_rest_lem content k (drop k content) refl)

-- The position is told by what is left of the file.
same_room :
    (fuel end p : ℕ) (content r : List ℕ)
    → drop p content ≡ r
    → lines_within fuel (end - p) r ≡ lines_within fuel (end - (length content - length r)) r
same_room fuel end p content [] e =
    lines_within_nil fuel (end - p) ∙ sym (lines_within_nil fuel (end - (length content - 0)))
same_room fuel end p content (c ∷ cs) e =
    let room : end - p ≡ end - (length content - suc (length cs)) =
      omega (arith, ap length e, length-drop p content) in
    ap (λ d. lines_within fuel d (c ∷ cs)) room

module _ {R : Type 0} (compile : List ℕ → Option R) (regex_search : R → List ℕ → Bool)
    (content : List ℕ) (task : TaskPayload) (max : ℕ) where
  -- With a keyword that compiles the search of a chunk ends, and has noted just the chunk's lines.
  pub search_content_lem :
      (pattern : R)
      → compile (c_str task.keyword) ≡ some pattern
      → task.end_offset < 2 ^ 64
      → search_content compile regex_search content task max
        ≡ some (
            note_all regex_search pattern task.filename max no_result
              (chunk_lines content task.start_offset task.end_offset))
  unfolding search_content as_u64
  search_content_lem pattern compiles small =
      rw (compiles, search_content)
        (rw add-one (placed (skip_partial_lem content task.start_offset)))
    where
      r : List ℕ
      r = from_start task.start_offset content

      s : Stream
      s = skip_partial task.start_offset (seekg task.start_offset (open_stream content))

      loop : Option ℕ → Stream → Option ChunkResult
      loop pos s' =
          search_loop regex_search (suc (length content)) pattern task.filename max task.end_offset
            (as_u64 pos) s' no_result

      noted : ℕ → Option ChunkResult
      noted d = some (
          note_all regex_search pattern task.filename max no_result
            (lines_within (length content) d r))

      placed :
          Placed content r s
          → loop (tellg s).0 (tellg s).1 ≡ noted (task.end_offset - (length content - length r))
      placed (inl (p, at_line, here)) = rw at_line (
          unfold tellg in
          search_loop_lem regex_search pattern task.filename max (length content) task.end_offset p
            content r no_result here (length-from_start task.start_offset content)
          ∙ ap (λ ls. some (note_all regex_search pattern task.filename max no_result ls))
              (same_room (length content) task.end_offset p content r here))
      placed (inr (none_left, no_position)) =
          let no_lines = λ (d : ℕ).
            ap (lines_within (length content) d) none_left ∙ lines_within_nil (length content) d in
          rw no_position (
            round_stop regex_search pattern task.filename max (length content) task.end_offset
              (2 ^ 64 - 1) content no_result _ (ground arith)
            ∙ ap (λ ls. some (note_all regex_search pattern task.filename max no_result ls))
                (sym (no_lines (task.end_offset - (length content - length r)))))
