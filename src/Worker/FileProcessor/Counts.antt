-- ===== src/Worker/FileProcessor/Counts.antt =====
-- What noting a run of lines stores and counts.
use mathlib.Core.List.{append_assoc, append-nil}
use log_grid.Base.{
  Bool, Bool-cases, List, [], ap, arith, false, if◌then◌else◌, inl, inr, length, ltb, min, refl,
  suc, sym, take, true, zero, ℕ, ◌++◌, ◌+◌, ◌-◌, ◌<◌, ◌^◌, ◌∙◌, ◌∷◌, ◌≡◌, ◌≤◌,
}
use log_grid.Protocol.{ChunkResult}
use log_grid.Worker.Stream.{after_newline, first_line}
use log_grid.Worker.Lines.{from_start, length-from_start_le, lines_within}
use log_grid.Worker.FileProcessor.{add_match, note_line, result_line, strip_cr}
use log_grid.Worker.FileProcessor.Loop.{lines_within_nil, note_all}
use log_grid.Worker.FileProcessor.Tiling.{chunk_lines}

length-lines_within : (fuel d : ℕ) (r : List ℕ) → length (lines_within fuel d r) ≤ d
unfolding lines_within
length-lines_within zero d r = omega arith
length-lines_within (suc fuel) d [] = omega arith
length-lines_within (suc fuel) zero (c ∷ cs) = omega arith
length-lines_within (suc fuel) (suc d) (c ∷ cs) =
    let n = length (first_line (c ∷ cs)) in
    omega (arith, length-lines_within fuel (d - n) (after_newline (c ∷ cs)))

-- A chunk owns no more lines than it has bytes.
pub length-chunk_lines :
    (content : List ℕ) (start end : ℕ) → length (chunk_lines content start end) ≤ end - start
length-chunk_lines content start end = go (from_start start content) refl
  where
    go :
        (r : List ℕ)
        → from_start start content ≡ r
        → length (chunk_lines content start end) ≤ end - start
    go [] e = rw (e, lines_within_nil (length content)) (omega arith)
    go (c ∷ cs) e = omega (
      arith,
      length-lines_within (length content)
          (end - (length content - length (from_start start content))) (from_start start content),
      length-from_start_le start content,
      ap length e,
    )

-- A batch with given lines and counts.
abbrev pub with_counts : ChunkResult → List (List ℕ) → ℕ → ℕ → ChunkResult
with_counts b ls total found = record b { lines = ls; total_matches = total; lines_found = found }

pub with_counts_eq :
    (b : ChunkResult) {xs ys : List (List ℕ)} {t u f g : ℕ}
    → xs ≡ ys
    → t ≡ u
    → f ≡ g
    → with_counts b xs t f ≡ with_counts b ys u g
with_counts_eq b p q r i = with_counts b (p i) (q i) (r i)

-- The three ways in which a line is noted.
add_match_room :
    (filename : List ℕ) (max : ℕ) (b : ChunkResult) (line : List ℕ)
    → ltb b.lines_found max ≡ true
    → b.lines_found + 1 < 2 ^ 32
    → b.total_matches + 1 < 2 ^ 64
    → add_match filename max b line
      ≡ with_counts b
          (b.lines ++ (result_line filename line ∷ []))
          (b.total_matches + 1)
          (b.lines_found + 1)
unfolding add_match
add_match_room filename max b line room small fits =
    rw room (with_counts_eq b refl (omega arith) (omega arith))

add_match_full :
    (filename : List ℕ) (max : ℕ) (b : ChunkResult) (line : List ℕ)
    → ltb b.lines_found max ≡ false
    → b.total_matches + 1 < 2 ^ 64
    → add_match filename max b line ≡ with_counts b b.lines (b.total_matches + 1) b.lines_found
unfolding add_match
add_match_full filename max b line full fits = rw full (with_counts_eq b refl (omega arith) refl)

take_nil : (n : ℕ) → take {A = List ℕ} n [] ≡ []
take_nil zero = refl
take_nil (suc n) = refl

take_zero : (n : ℕ) (xs : List (List ℕ)) → n ≡ 0 → take n xs ≡ []
take_zero zero xs e = refl
take_zero (suc n) xs e = absurd (omega arith)

take_suc : (n m : ℕ) (x : List ℕ) (xs : List (List ℕ)) → n ≡ m + 1 → take n (x ∷ xs) ≡ x ∷ take m xs
take_suc zero m x xs e = absurd (omega arith)
take_suc (suc n) m x xs e = ap (λ k. x ∷ take k xs) (omega arith)

module _ {R : Type 0} (regex_search : R → List ℕ → Bool) (pattern : R) (filename : List ℕ) where
  -- The result lines of the lines that match, in order.
  unfoldable pub matched : List (List ℕ) → List (List ℕ)
  matched [] = []
  matched (l ∷ ls) =
      let rest = matched ls in
      if regex_search pattern (strip_cr l) then result_line filename (strip_cr l) ∷ rest else rest

  pub matched-append : (xs ys : List (List ℕ)) → matched (xs ++ ys) ≡ matched xs ++ matched ys
  unfolding matched
  matched-append [] ys = refl
  matched-append (x ∷ xs) ys = ground (arith, matched-append xs ys)

  pub length-matched-le : (ls : List (List ℕ)) → length (matched ls) ≤ length ls
  unfolding matched
  length-matched-le [] = omega arith
  length-matched-le (l ∷ ls) = ground (arith, length-matched-le ls)

  -- Noting lines adds the matches to the count and as many result lines as there is room for,
  -- provided that the counters do not wrap.
  pub note_all_lem :
      (max : ℕ) (ls : List (List ℕ)) (b : ChunkResult)
      → b.lines_found + length ls < 2 ^ 32
      → b.total_matches + length ls < 2 ^ 64
      → note_all regex_search pattern filename max b ls ≡ record b {
        lines = b.lines ++ take (max - b.lines_found) (matched ls);
        total_matches = b.total_matches + length (matched ls);
        lines_found = b.lines_found + min (max - b.lines_found) (length (matched ls));
      }
  unfolding matched note_line
  note_all_lem max [] b small fits =
      with_counts_eq b
        (sym (ap (λ r. b.lines ++ r) (take_nil (max - b.lines_found)) ∙ append-nil b.lines))
        (omega arith) (omega arith)
  note_all_lem max (l ∷ ls) b small fits =
      let line = strip_cr l in
      elim (Bool-cases (regex_search pattern line)) [
        | inr miss ↦ rw miss (note_all_lem max ls b (omega arith) (omega arith))
        | inl hit ↦ elim (Bool-cases (ltb b.lines_found max)) [
          | inl room ↦
              let k : max - b.lines_found ≡ max - (b.lines_found + 1) + 1 = ground arith in
              rw (hit, add_match_room filename max b line room (omega arith) (omega arith))
                (note_all_lem max ls _ (omega arith) (omega arith)
                  ∙ with_counts_eq b
                      (append_assoc b.lines (result_line filename line ∷ []) _
                        ∙ ap (λ r. b.lines ++ r) (sym (take_suc _ _ _ (matched ls) k)))
                      (omega arith) (omega arith))
          | inr full ↦
              let k : max - b.lines_found ≡ 0 = ground arith in
              rw (hit, add_match_full filename max b line full (omega arith))
                (note_all_lem max ls _ (omega arith) (omega arith)
                  ∙ with_counts_eq b
                      (ap (λ r. b.lines ++ r) (take_zero _ _ k ∙ sym (take_zero _ _ k)))
                      (omega arith) (omega arith))
        ]
      ]
