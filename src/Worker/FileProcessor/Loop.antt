-- ===== src/Worker/FileProcessor/Loop.antt =====
-- What the loop of SearchTask computes: it notes the lines that begin before the chunk's end.
use mathlib.Core.List.{foldl}
use native.Mathlib.Nat.{suc-add}
use log_grid.Base.{
  Bool, Bool-cases, List, [], ap, arith, drop, false, inl, inr, length, ltb, none, refl, some, suc,
  sym, true, zero, ℕ, ◌+◌, ◌-◌, ◌<◌, ◌==◌, ◌∙◌, ◌∷◌, ◌≡◌, ◌≤◌,
}
use log_grid.Protocol.{ChunkResult}
use log_grid.Worker.Stream.{Stream, after_newline, first_line, getline, has_newline, newline, tellg}
use log_grid.Worker.Lines.{last_line, length-after_newline, lines_within}
use log_grid.Worker.FileProcessor.{note_line, search_loop}

-- A stream that has met no end of file.
abbrev pub reading : List ℕ → ℕ → Stream
reading content p = record { content = content; position = p; eof = false; fail = false }

drop_nil : (m : ℕ) → drop {A = ℕ} m [] ≡ []
drop_nil zero = refl
drop_nil (suc m) = refl

pub drop-drop : (n m : ℕ) (xs : List ℕ) → drop (n + m) xs ≡ drop m (drop n xs)
drop-drop zero m xs = ap (λ k. drop k xs) (omega arith)
drop-drop (suc n) m [] = rw (suc-add n m) (sym (drop_nil m))
drop-drop (suc n) m (x ∷ xs) = rw (suc-add n m) (drop-drop n m xs)

pub drop_line :
    (r : List ℕ) → has_newline r ≡ true → drop (length (first_line r) + 1) r ≡ after_newline r
unfolding first_line after_newline has_newline
drop_line [] h = cc
drop_line (c ∷ cs) h = elim (Bool-cases (c == newline)) [
  | inl nl ↦ rw nl
  | inr more ↦ rw (more, suc-add) (drop_line cs (ground arith))
]

module _ (content : List ℕ) (p : ℕ) where
  pub getline_line :
      {r : List ℕ}
      → drop p content ≡ r
      → has_newline r ≡ true
      → getline (reading content p)
        ≡ (some (first_line r), reading content (p + (length (first_line r) + 1)))
  unfolding getline
  getline_line e h = rw (e, h)

  pub getline_last :
      {c : ℕ} {cs : List ℕ}
      → drop p content ≡ c ∷ cs
      → has_newline (c ∷ cs) ≡ false
      → getline (reading content p)
        ≡ (some (c ∷ cs), record (reading content (p + length (c ∷ cs))) { eof = true })
  unfolding getline
  getline_last {c} {cs} e h = rw (e, h, (last_line (c ∷ cs) h).0)

  pub getline_end :
      drop p content ≡ []
      → getline (reading content p) ≡ (none, record (reading content p) { eof = true; fail = true })
  unfolding getline first_line has_newline
  getline_end e = rw e

pub lines_within_nil : (fuel d : ℕ) → lines_within fuel d [] ≡ []
unfolding lines_within
lines_within_nil zero d = refl
lines_within_nil (suc fuel) d = refl

-- The chunk's end is reached, or a line begins before it.
lines_within_stop : (fuel d : ℕ) (r : List ℕ) → d ≡ 0 → lines_within fuel d r ≡ []
unfolding lines_within
lines_within_stop zero d r e = refl
lines_within_stop (suc fuel) zero [] e = refl
lines_within_stop (suc fuel) zero (c ∷ cs) e = refl
lines_within_stop (suc fuel) (suc d) r e = absurd (omega arith)

lines_within_step :
    (fuel d : ℕ) (c : ℕ) (cs : List ℕ)
    → 0 < d
    → lines_within (suc fuel) d (c ∷ cs)
      ≡ first_line (c ∷ cs)
        ∷ lines_within fuel (d - (length (first_line (c ∷ cs)) + 1)) (after_newline (c ∷ cs))
unfolding lines_within
lines_within_step fuel zero c cs h = absurd (omega arith)
lines_within_step fuel (suc d) c cs h =
    let n = length (first_line (c ∷ cs)) in
    let same : suc d - (n + 1) ≡ d - n = omega arith in rw same

module _ {R : Type 0} (regex_search : R → List ℕ → Bool) (pattern : R) (filename : List ℕ)
    (max : ℕ) where
  abbrev pub note_all : ChunkResult → List (List ℕ) → ChunkResult
  note_all = foldl (note_line regex_search pattern filename max)

  module _ (fuel end_byte p : ℕ) (content : List ℕ) (b : ChunkResult) where
    -- The three ways in which a round goes, and the fourth, which goes on.
    pub round_stop :
        (s : Stream)
        → ltb p end_byte ≡ false
        → search_loop regex_search (suc fuel) pattern filename max end_byte p s b ≡ some b
    unfolding search_loop
    round_stop s h = rw h

    round_end :
        drop p content ≡ []
        → search_loop regex_search (suc fuel) pattern filename max end_byte p (reading content p) b
          ≡ some b
    unfolding search_loop
    round_end e = rw (getline_end content p e) (ground arith)

    round_last :
        {c : ℕ} {cs : List ℕ}
        → ltb p end_byte ≡ true
        → drop p content ≡ c ∷ cs
        → has_newline (c ∷ cs) ≡ false
        → search_loop regex_search (suc fuel) pattern filename max end_byte p (reading content p) b
          ≡ some (note_line regex_search pattern filename max b (c ∷ cs))
    unfolding search_loop tellg
    round_last go e h = rw (go, getline_last content p e h)

    round_line :
        {r : List ℕ}
        → ltb p end_byte ≡ true
        → drop p content ≡ r
        → has_newline r ≡ true
        → search_loop regex_search (suc fuel) pattern filename max end_byte p (reading content p) b
          ≡ search_loop regex_search fuel pattern filename max end_byte
              (p + (length (first_line r) + 1))
              (reading content (p + (length (first_line r) + 1)))
              (note_line regex_search pattern filename max b (first_line r))
    unfolding search_loop tellg
    round_line go e h = rw (go, getline_line content p e h)

  pub search_loop_lem :
      (fuel end_byte p : ℕ) (content r : List ℕ) (b : ChunkResult)
      → drop p content ≡ r
      → length r ≤ fuel
      → search_loop regex_search (suc fuel) pattern filename max end_byte p (reading content p) b
        ≡ some (note_all b (lines_within fuel (end_byte - p) r))
  search_loop_lem fuel end_byte p content [] b e h =
      rw (round_end fuel end_byte p content b e, lines_within_nil fuel (end_byte - p))
  search_loop_lem zero end_byte p content (c ∷ cs) b e h = absurd (omega arith)
  search_loop_lem (suc fuel) end_byte p content (c ∷ cs) b e h =
      let r = c ∷ cs in
      let n = length (first_line r) + 1 in
      elim (Bool-cases (ltb p end_byte)) [
        | inr stop ↦ rw (
          round_stop (suc fuel) end_byte p content b _ stop,
          lines_within_stop (suc fuel) (end_byte - p) r (ground arith),
        )
        | inl go ↦ elim (Bool-cases (has_newline r)) [
          | inr last ↦ rw (
            round_last (suc fuel) end_byte p content b go e last,
            lines_within_step fuel (end_byte - p) c cs (ground arith),
            (last_line r last).0,
            (last_line r last).1,
            lines_within_nil fuel,
          )
          | inl more ↦
              let moved : drop (p + n) content ≡ after_newline r =
                drop-drop p n content ∙ ap (drop n) e ∙ drop_line r more in
              let room : end_byte - p - n ≡ end_byte - (p + n) = omega arith in
              rw
                (
                  round_line (suc fuel) end_byte p content b go e more,
                  lines_within_step fuel (end_byte - p) c cs (ground arith),
                  room,
                )
                (search_loop_lem fuel end_byte (p + n) content (after_newline r) _ moved
                  (omega (arith, length-after_newline r)))
        ]
      ]
