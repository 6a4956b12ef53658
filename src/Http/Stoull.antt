-- ===== src/Http/Stoull.antt =====
-- std::stoull, as SearchController.cpp calls it: base 10, trailing characters ignored.
use native.Mathlib.Nat.{pow-suc}
use log_grid.Base.{
  Bool, Bool-cases, List, Option, [], ap, arith, false, if◌then◌else◌, inl, inr, leb, ltb, none,
  refl, some, subst, suc, sym, true, zero, ℕ, ◌%◌, ◌&&◌, ◌*◌, ◌+◌, ◌-◌, ◌/◌, ◌<◌, ◌==◌, ◌^◌, ◌||◌,
  ◌∙◌, ◌∷◌, ◌≡◌,
}

-- isspace of the "C" locale
abbrev is_space : ℕ → Bool
is_space c = c == 32 || (leb 9 c && leb c 13)

unfoldable pub skip_spaces : List ℕ → List ℕ
skip_spaces [] = []
skip_spaces (c ∷ cs) = let rest = skip_spaces cs in if is_space c then rest else c ∷ cs

abbrev pub is_digit : ℕ → Bool
is_digit c = leb 48 c && leb c 57

-- The value of the digits at the front, after the value of those read before.
unfoldable pub digits : ℕ → List ℕ → ℕ
digits value [] = value
digits value (c ∷ cs) =
    let rest = digits (10 * value + (c - 48)) cs in if is_digit c then rest else value

-- A number that no uint64_t holds throws std::out_of_range.
unfoldable pub in_range : Bool → ℕ → Option ℕ
in_range negative value =
    if leb (2 ^ 64) value
    then none
    else if negative
    then some ((2 ^ 64 - value) % 2 ^ 64)
    else some value

-- Without a digit it throws std::invalid_argument.
unfoldable pub unsigned_text : Bool → List ℕ → Option ℕ
unsigned_text negative [] = none
unsigned_text negative (c ∷ cs) = if is_digit c then in_range negative (digits 0 (c ∷ cs)) else none

unfoldable pub signed_text : List ℕ → Option ℕ
signed_text [] = none
signed_text (c ∷ cs) =
    if c == 45
    then unsigned_text true cs
    else if c == 43
    then unsigned_text false cs
    else unsigned_text false (c ∷ cs)

unfoldable pub stoull : List ℕ → Option ℕ
stoull text = signed_text (skip_spaces text)

-- The decimal digits of a number, put before a text; the fuel is a number of digits that is enough.
unfoldable pub decimal : ℕ → ℕ → List ℕ → List ℕ
decimal zero n text = text
decimal (suc fuel) n text =
    let more = decimal fuel (n / 10) ((48 + n % 10) ∷ text) in
    if ltb n 10 then (48 + n) ∷ text else more

-- One digit in front.
digits-digit :
    (value d : ℕ) (text : List ℕ)
    → d < 10
    → digits value ((48 + d) ∷ text) ≡ digits (10 * value + d) text
unfolding digits
digits-digit value d text h =
    let digit : is_digit (48 + d) ≡ true = ground arith in
    rw digit (ap (λ k. digits k text) (omega arith))

digits-decimal :
    (fuel n : ℕ) (text : List ℕ) → n < 10 ^ fuel → digits 0 (decimal fuel n text) ≡ digits n text
unfolding decimal
digits-decimal zero n text h = ap (λ k. digits k text) (omega arith)
digits-decimal (suc fuel) n text h =
    let rest =
      digits-decimal fuel (n / 10) ((48 + n % 10) ∷ text) (omega (arith, pow-suc 10 fuel, h)) in
    elim (Bool-cases (ltb n 10)) [
      | inl last ↦
          rw last
            (digits-digit 0 n text (ground (arith, last)) ∙ ap (λ k. digits k text) (omega arith))
      | inr more ↦ rw more (
          rest
          ∙ (digits-digit (n / 10) (n % 10) text (omega arith)
              ∙ ap (λ k. digits k text) (omega arith)))
    ]

-- A text that starts with a digit.
abbrev StartsDigit : List ℕ → Type 0
StartsDigit text = (c : ℕ) × (cs : List ℕ) × (text ≡ c ∷ cs) × (is_digit c ≡ true)

decimal-StartsDigit :
    (fuel n : ℕ) (text : List ℕ) → n < 10 ^ suc fuel → StartsDigit (decimal (suc fuel) n text)
unfolding decimal
decimal-StartsDigit zero n text h =
    let last : ltb n 10 ≡ true = ground (arith, h) in
    (48 + n, text, rw last refl, ground (arith, h))
decimal-StartsDigit (suc fuel) n text h =
    let up : n / 10 < 10 ^ suc fuel = omega (arith, pow-suc 10 (suc fuel), h) in
    elim (Bool-cases (ltb n 10)) [
      | inl last ↦ (48 + n, text, rw last refl, ground (arith, last))
      | inr more ↦ rw more (decimal-StartsDigit fuel (n / 10) ((48 + n % 10) ∷ text) up)
    ]

stoull-digit : (text : List ℕ) → StartsDigit text → stoull text ≡ in_range false (digits 0 text)
unfolding stoull skip_spaces signed_text unsigned_text
stoull-digit text (c, cs, e, digit) =
    let no_space : is_space c ≡ false = ground (arith, digit) in
    let no_minus : (c == 45) ≡ false = ground (arith, digit) in
    let no_plus : (c == 43) ≡ false = ground (arith, digit) in
    subst (λ t. stoull t ≡ in_range false (digits 0 t)) (sym e)
      (rw (no_space, no_minus, no_plus, digit) refl)

-- The decimal digits of a 64-bit number are read as that number.
pub stoull-decimal : (n : ℕ) → n < 2 ^ 64 → stoull (decimal 20 n []) ≡ some n
unfolding in_range
stoull-decimal n h =
    let fits : leb (2 ^ 64) n ≡ false = ground (arith, h) in
    let value : digits 0 (decimal 20 n []) ≡ n =
      digits-decimal 20 n [] (omega (arith, h)) ∙ unfold digits in refl in
    stoull-digit (decimal 20 n []) (decimal-StartsDigit 19 n [] (omega (arith, h)))
    ∙ rw (value, fits) refl
