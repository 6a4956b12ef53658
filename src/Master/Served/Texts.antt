-- ===== src/Master/Served/Texts.antt =====
-- The text of one file among what has been appended to result files.
use mathlib.Core.List.{append-nil, append_assoc}
use log_grid.Protocol.{ChunkResult}
use log_grid.Master.State.{SearchSession}
use log_grid.Master.Start.{equal_bytes}
use log_grid.Master.Results.{file_text}
use log_grid.Master.Books.Written.{written_after}
use log_grid.Master.Books.Completion.{session_after}
use log_grid.Base.{
  Bool, Bool-cases, List, [], ap, arith, if◌then◌else◌, inl, inr, length, length-append,
  length-take, ltb, refl, sym, take, true, ℕ, ◌&&◌, ◌++◌, ◌-◌, ◌==◌, ◌∙◌, ◌∷◌, ◌≡◌, ◌≢◌, ◌≤◌,
}

-- What was appended to the file with this path, from the first write on.
unfoldable pub text_at : List ℕ → List (List ℕ × List ℕ) → List ℕ
text_at path [] = []
text_at path ((file, text) ∷ rest) =
    let later = text_at path rest in if equal_bytes file path then text ++ later else later

equal_bytes_refl : (xs : List ℕ) → equal_bytes xs xs ≡ true
unfolding equal_bytes
equal_bytes_refl [] = refl
equal_bytes_refl (x ∷ xs) = ground (arith, equal_bytes_refl xs)

equal_bytes-eq : (xs ys : List ℕ) → equal_bytes xs ys ≡ true → xs ≡ ys
unfolding equal_bytes
equal_bytes-eq [] [] e = refl
equal_bytes-eq [] (y ∷ ys) e = absurd (ground (arith, e))
equal_bytes-eq (x ∷ xs) [] e = absurd (ground (arith, e))
equal_bytes-eq (x ∷ xs) (y ∷ ys) e = elim (Bool-cases (x == y)) [
  | inl same ↦
      let first : x ≡ y = ground (arith, same) in
      let others : equal_bytes xs ys ≡ true = ground (arith, same, e) in
      ap (λ c. c ∷ xs) first ∙ ap (λ cs. y ∷ cs) (equal_bytes-eq xs ys others)
  | inr apart ↦ absurd (ground (arith, apart, e))
]

text_at-append :
    (path : List ℕ) (xs ys : List (List ℕ × List ℕ))
    → text_at path (xs ++ ys) ≡ text_at path xs ++ text_at path ys
unfolding text_at
text_at-append path [] ys = refl
text_at-append path ((file, text) ∷ xs) ys = elim (Bool-cases (equal_bytes file path)) [
  | inl here ↦ rw here (
      ap (λ later. text ++ later) (text_at-append path xs ys)
      ∙ sym (append_assoc text (text_at path xs) (text_at path ys)))
  | inr apart ↦ rw apart (text_at-append path xs ys)
]

text_at_self :
    (path text : List ℕ) (written : List (List ℕ × List ℕ))
    → text_at path (written ++ ((path, text) ∷ [])) ≡ text_at path written ++ text
unfolding text_at
text_at_self path text written =
    text_at-append path written ((path, text) ∷ [])
    ∙ ap (λ later. text_at path written ++ later) (rw (equal_bytes_refl path) (append-nil text))

text_at_ne :
    (path file text : List ℕ) (written : List (List ℕ × List ℕ))
    → file ≢ path
    → text_at path (written ++ ((file, text) ∷ [])) ≡ text_at path written
unfolding text_at
text_at_ne path file text written apart = elim (Bool-cases (equal_bytes file path)) [
  | inl same ↦ absurd (apart (equal_bytes-eq file path same))
  | inr other ↦
      text_at-append path written ((file, text) ∷ [])
      ∙ (ap (λ later. text_at path written ++ later) (rw other refl)
          ∙ append-nil (text_at path written))
]

file_text-append : (xs ys : List (List ℕ)) → file_text (xs ++ ys) ≡ file_text xs ++ file_text ys
unfolding file_text
file_text-append [] ys = refl
file_text-append (x ∷ xs) ys =
    ap (λ later. x ++ (10 ∷ later)) (file_text-append xs ys)
    ∙ sym (append_assoc x (10 ∷ file_text xs) (file_text ys))

-- The file of a session holds as many lines as it has counted, each with its end.
abbrev pub Stored : SearchSession → List (List ℕ × List ℕ) → Type 0
Stored session written =
    (lines : List (List ℕ)) × (length lines ≡ session.line_count)
    × (text_at session.path written ≡ file_text lines)

module _ (can_open : List ℕ → Bool) (session : SearchSession) (b : ChunkResult)
    (written : List (List ℕ × List ℕ)) where
  pub text_at-written_after :
      (path : List ℕ)
      → session.path ≢ path
      → text_at path (written_after can_open session b.lines written) ≡ text_at path written
  text_at-written_after path apart =
      let kept = take (session.max_results - session.line_count) b.lines in
      elim (Bool-cases (ltb 0 (length kept) && can_open session.path)) [
        | inl writes ↦ rw writes (text_at_ne path session.path (file_text kept) written apart)
        | inr nothing ↦ rw nothing refl
      ]

  pub written_after-Stored :
      can_open session.path ≡ true
      → session.line_count ≤ session.max_results
      → Stored session written
      → Stored (session_after session b) (written_after can_open session b.lines written)
  written_after-Stored opens bounded (lines, count, text) =
      let kept = take (session.max_results - session.line_count) b.lines in
      let kept_count = length-take (session.max_results - session.line_count) b.lines in
      elim (Bool-cases (ltb 0 (length kept))) [
        | inl some_kept ↦
            rw (some_kept, opens)
              (
                lines ++ kept,
                omega (arith, length-append lines kept, count, kept_count, bounded),
                text_at_self session.path (file_text kept) written
                    ∙ (ap (λ t. t ++ file_text kept) text ∙ sym (file_text-append lines kept)),
              )
        | inr none_kept ↦
            let none_there : length kept ≡ 0 = ground arith in
            rw (none_kept) (lines, omega (arith, count, kept_count, none_there, bounded), text)
      ]
