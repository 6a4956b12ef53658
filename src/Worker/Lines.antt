-- ===== src/Worker/Lines.antt =====
-- The lines of a file, and which of them a chunk owns: those that begin inside it.
use native.Mathlib.Nat.{zero-sub, sub-zero, suc-sub-suc}
use log_grid.Base.{
  Bool-cases, List, [], ap, arith, drop, false, if◌then◌else◌, inl, inr, length, length-drop, refl,
  suc, sym, true, zero, ℕ, ◌++◌, ◌+◌, ◌-◌, ◌==◌, ◌∙◌, ◌∷◌, ◌≡◌, ◌≤◌,
}
use log_grid.Worker.Stream.{after_newline, first_line, has_newline, newline}

abbrev cons_head : ℕ → List (List ℕ) → List (List ℕ)
cons_head c [] = (c ∷ []) ∷ []
cons_head c (l ∷ ls) = (c ∷ l) ∷ ls

-- All lines of a file, without their newlines. A newline at the end starts no further line.
unfoldable pub lines_of : List ℕ → List (List ℕ)
lines_of [] = []
lines_of (c ∷ cs) = let rest = lines_of cs in if c == newline then [] ∷ rest else cons_head c rest

-- The file from the first line that begins at byte `n` or later.
unfoldable pub from_start : ℕ → List ℕ → List ℕ
unfolding after_newline
from_start zero r = r
from_start (suc n) r = after_newline (drop n r)

-- At most `fuel` lines of `r`, as long as they begin in its first `d` bytes.
unfoldable pub lines_within : ℕ → ℕ → List ℕ → List (List ℕ)
lines_within zero d r = []
lines_within (suc fuel) d [] = []
lines_within (suc fuel) zero (c ∷ cs) = []
lines_within (suc fuel) (suc d) (c ∷ cs) =
    let r = c ∷ cs in first_line r ∷ lines_within fuel (d - length (first_line r)) (after_newline r)

length-cons_head : (c : ℕ) (ls : List (List ℕ)) → length (cons_head c ls) ≤ length ls + 1
length-cons_head c [] = omega arith
length-cons_head c (l ∷ ls) = omega arith

-- A file has at most as many lines as bytes.
pub length-lines_of : (content : List ℕ) → length (lines_of content) ≤ length content
unfolding lines_of
length-lines_of [] = omega arith
length-lines_of (c ∷ cs) = elim (Bool-cases (c == newline)) [
  | inl ends ↦ rw ends (omega (arith, length-lines_of cs))
  | inr inside ↦ rw inside (omega (arith, length-cons_head c (lines_of cs), length-lines_of cs))
]

lines_of_cons :
    (c : ℕ) (cs : List ℕ)
    → lines_of (c ∷ cs) ≡ first_line (c ∷ cs) ∷ lines_of (after_newline (c ∷ cs))
unfolding lines_of first_line after_newline
lines_of_cons c [] = ground arith
lines_of_cons c (d ∷ cs) = ground (arith, lines_of_cons d cs)

pub length-after_newline : (r : List ℕ) → length (after_newline r) ≤ length r - 1
unfolding after_newline
length-after_newline [] = omega arith
length-after_newline (c ∷ cs) = ground (arith, length-after_newline cs)

-- A line and its newline, or the rest of the file.
pub length-first_line :
    (r : List ℕ)
    → has_newline r ≡ true
    → length (first_line r) + 1 + length (after_newline r) ≡ length r
unfolding first_line after_newline has_newline
length-first_line [] h = cc
length-first_line (c ∷ cs) h = ground (arith, length-first_line cs)

pub last_line : (r : List ℕ) → has_newline r ≡ false → (first_line r ≡ r) × (after_newline r ≡ [])
unfolding first_line after_newline has_newline
last_line [] h = (refl, refl)
last_line (c ∷ cs) h = ground (arith, last_line cs)

from_start_nil : (n : ℕ) → from_start n [] ≡ []
unfolding from_start after_newline
from_start_nil zero = refl
from_start_nil (suc zero) = refl
from_start_nil (suc (suc n)) = refl

-- Moving on inside the first line, or past it.
from_start_line :
    (d : ℕ) (r : List ℕ)
    → from_start (suc d) r ≡ from_start (d - length (first_line r)) (after_newline r)
unfolding from_start first_line after_newline
from_start_line d [] = from_start_nil (suc d) ∙ sym (from_start_nil (d - 0))
from_start_line zero (c ∷ cs) = elim (Bool-cases (c == newline)) [
  | inl nl ↦ rw nl
  | inr more ↦ rw (more, zero-sub)
]
from_start_line (suc d) (c ∷ cs) = elim (Bool-cases (c == newline)) [
  | inl nl ↦ rw (nl, sub-zero)
  | inr more ↦ rw (more, suc-sub-suc) (from_start_line d cs)
]

-- From a line start on: the lines that begin in the next `d` bytes, then those from there on.
pub lines_of-split :
    (fuel d : ℕ) (r : List ℕ)
    → length r ≤ fuel
    → lines_of r ≡ lines_within fuel d r ++ lines_of (from_start d r)
unfolding lines_within
lines_of-split zero zero [] h = unfold from_start in refl
lines_of-split zero (suc d) [] h = rw (from_start_nil (suc d))
lines_of-split zero d (c ∷ cs) h = absurd (omega arith)
lines_of-split (suc fuel) d [] h = rw (from_start_nil d)
lines_of-split (suc fuel) zero (c ∷ cs) h = unfold from_start in refl
lines_of-split (suc fuel) (suc d) (c ∷ cs) h =
    rw (lines_of_cons c cs, from_start_line d (c ∷ cs))
      (ap (λ ls. first_line (c ∷ cs) ∷ ls)
        (lines_of-split fuel (d - length (first_line (c ∷ cs))) (after_newline (c ∷ cs))
          (omega (arith, length-after_newline (c ∷ cs)))))

length-after_newline-drop : (n : ℕ) (r : List ℕ) → length (after_newline (drop n r)) ≤ length r
length-after_newline-drop n r = omega (arith, length-after_newline (drop n r), length-drop n r)

pub length-from_start : (n : ℕ) (r : List ℕ) → length (from_start n r) ≤ length r
unfolding from_start
length-from_start zero r = omega arith
length-from_start (suc n) r = length-after_newline-drop n r

pub length-from_start_le : (n : ℕ) (r : List ℕ) → length (from_start n r) ≤ length r - n
unfolding from_start
length-from_start_le zero r = omega arith
length-from_start_le (suc n) r = omega (arith, length-after_newline (drop n r), length-drop n r)

-- No line begins at the end of the file.
pub from_start-length : (r : List ℕ) → from_start (length r) r ≡ []
from_start-length r =
    nil_of_length (from_start (length r) r) (omega (arith, length-from_start_le (length r) r))
  where
    nil_of_length : (xs : List ℕ) → length xs ≤ 0 → xs ≡ []
    nil_of_length [] h = refl
    nil_of_length (x ∷ xs) h = absurd (omega arith)

from_start_at : (n m : ℕ) (r : List ℕ) → n ≡ m → from_start n r ≡ from_start m r
from_start_at n m r e = ap (λ k. from_start k r) e

-- Seeking to a line start and then further is seeking further at once.
from_start_after :
    (n : ℕ) (r : List ℕ)
    → from_start (suc n) r
      ≡ from_start (suc n - (length r - length (after_newline r))) (after_newline r)
unfolding from_start after_newline
from_start_after n [] = from_start_nil (suc n) ∙ sym (from_start_nil (suc n - (0 - 0)))
from_start_after zero (c ∷ cs) = elim (Bool-cases (c == newline)) [
  | inl nl ↦ rw nl (from_start_at 0 (1 - (suc (length cs) - length cs)) cs (omega arith))
  | inr more ↦ rw more (
      from_start_at 0 (1 - (suc (length cs) - length (after_newline cs))) (after_newline cs)
        (omega (arith, length-after_newline cs)))
]
from_start_after (suc n) (c ∷ cs) = elim (Bool-cases (c == newline)) [
  | inl nl ↦
      rw nl (from_start_at (suc n) (suc (suc n) - (suc (length cs) - length cs)) cs (omega arith))
  | inr more ↦ rw more (
      from_start_after n cs
      ∙ from_start_at (suc n - (length cs - length (after_newline cs)))
          (suc (suc n) - (suc (length cs) - length (after_newline cs))) (after_newline cs)
          (omega (arith, length-after_newline cs)))
]

pub from_start-from_start :
    (n m : ℕ) (r : List ℕ)
    → n ≤ m
    → from_start m r ≡ from_start (m - (length r - length (from_start n r))) (from_start n r)
unfolding from_start
from_start-from_start zero m r h = from_start_at m (m - (length r - length r)) r (omega arith)
from_start-from_start (suc n) zero r h = absurd (omega arith)
from_start-from_start (suc zero) (suc m) r h = from_start_after m r
from_start-from_start (suc (suc n)) (suc m) [] h = from_start_nil (suc m) ∙ sym (from_start_nil _)
from_start-from_start (suc (suc n)) (suc zero) (c ∷ cs) h = absurd (omega arith)
from_start-from_start (suc (suc n)) (suc (suc m)) (c ∷ cs) h =
    let tail = after_newline (drop n cs) in
    from_start-from_start (suc n) (suc m) cs (omega arith)
    ∙ from_start_at (suc m - (length cs - length tail))
        (suc (suc m) - (suc (length cs) - length tail)) tail
        (omega (arith, length-after_newline-drop n cs))
