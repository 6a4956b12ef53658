-- ===== src/Programs/WorkerMain.antt =====
-- NetClient/src/main.cpp: a worker waits for its connection, and then for the end. What IsConnected and
-- ShouldDisconnect answer is set by other threads, and is a parameter.
use native.Mathlib.Decide.{dec_lt}
use log_grid.Net.Connection.Reader.{Connection}
use log_grid.Net.Client.{connect, new_client}
use mathlib.Core.Option
use log_grid.Base.{
  All, Bool, Bool-cases, List, Option, [], ap, arith, false, if◌then◌else◌, inl, inr, ltb, none,
  not, refl, some, subst, suc, true, zero, ℕ, ◌&&◌, ◌++◌, ◌+◌, ◌<◌, ◌∙◌, ◌∷◌, ◌≡◌, ◌≤◌, ◌⊎◌,
}

-- The loop that waits: `connected k` is the answer of IsConnected after k attempts. Each round sleeps
-- for 500 ms. `none` where the fuel runs out.
unfoldable pub wait_loop : ℕ → (ℕ → Bool) → ℕ → Option ℕ
wait_loop zero connected conn_attempts = none
wait_loop (suc fuel) connected conn_attempts =
    let rest = wait_loop fuel connected (conn_attempts + 1) in
    if not (connected conn_attempts) && ltb conn_attempts 10 then rest else some conn_attempts

unfoldable pub wait_for_connection : ℕ → (ℕ → Bool) → Option ℕ
wait_for_connection fuel connected = wait_loop fuel connected 0

-- One round of the second loop: what it asks in this order.
pub record Round : Type 0 where
  pub connected : Bool
  pub should_disconnect : Bool

-- How the program ends, if it does.
pub data MainEnd : Type 0 where
  never_connected connection_lost disconnected still_running : MainEnd

unfoldable pub main_loop : List Round → MainEnd
main_loop [] = still_running
main_loop (r ∷ rs) =
    let rest = main_loop rs in
    if r.connected then (if r.should_disconnect then disconnected else rest) else connection_lost

-- What comes after the wait, with the answer of the `if` before the loop.
unfoldable pub after_wait : Bool → List Round → MainEnd
after_wait connected rounds =
    let rest = main_loop rounds in if connected then rest else never_connected

-- The answers of IsConnected: without a connection object it is false, whatever the other threads do.
abbrev pub answers : Option Connection → (ℕ → Bool) → ℕ → Bool
answers none connected k = false
answers (some c) connected k = connected k

-- `main`: what Connect returns is not looked at; its arguments are those of the model of Connect.
-- The attempts that the wait takes, and the end.
unfoldable pub main : ℕ → Bool → Bool → ℕ → (ℕ → Bool) → Bool → List Round → Option (ℕ × MainEnd)
main fuel resolved can_run address connected connected_now rounds =
    let worker = (connect resolved can_run address new_client).1 in
    let now = answers worker.connection (λ k. connected_now) 0 in
    Option.map (λ attempts. (attempts, after_wait now rounds))
      (wait_for_connection fuel (answers worker.connection connected))

-- The wait that began after `k` attempts ends after `n`.
abbrev WaitsUntil : (ℕ → Bool) → ℕ → Option ℕ → Type 0
WaitsUntil connected k result =
    (n : ℕ) × (result ≡ some n)
    × (k ≤ n)
    × (n ≤ 10)
    × ((connected n ≡ true) ⊎ (n ≡ 10))
    × ((j : ℕ) → k ≤ j → j < n → connected j ≡ false)

wait_loop_lem :
    (fuel k : ℕ) (connected : ℕ → Bool)
    → k ≤ 10
    → 10 < k + fuel
    → WaitsUntil connected k (wait_loop fuel connected k)
unfolding wait_loop
wait_loop_lem zero k connected few h = absurd (omega (arith, few, h))
wait_loop_lem (suc fuel) k connected few h = elim (Bool-cases (connected k)) [
  | inl here ↦
      rw here (k, refl, omega arith, few, inl here, λ j low high. absurd (omega (arith, low, high)))
  | inr apart ↦ elim (Bool-cases (ltb k 10)) [
    | inr used_up ↦
        let last : k ≡ 10 = ground (arith, few) in
        rw (apart, used_up)
          (k, refl, omega arith, few, inr last, λ j low high. absurd (omega (arith, low, high)))
    | inl more ↦
        let below : k < 10 = ground arith in
        let (n, ends, low, high, why, before) =
          wait_loop_lem fuel (k + 1) connected (omega (arith, below)) (omega (arith, h)) in
        rw (apart, more)
          (
            n,
            ends,
            omega (arith, low),
            high,
            why,
            λ j from to. elim (dec_lt k j) [
              | yes later ↦ before j (omega (arith, later)) to
              | no now ↦ subst (λ i. connected i ≡ false) (omega (arith, from, now)) apart
            ],
          )
  ]
]

-- The loop in which a worker waits ends, whenever it is given fuel for more than 10 rounds: after 10
-- rounds of 500 ms at most; it stops waiting when it is connected, or when 10 rounds are used up, and
-- not before.
pub wait_for_connection-bounds :
    (fuel : ℕ) (connected : ℕ → Bool)
    → 10 < fuel
    → (attempts : ℕ) × (wait_for_connection fuel connected ≡ some attempts)
      × (attempts ≤ 10)
      × ((connected attempts ≡ true) ⊎ (attempts ≡ 10))
      × ((j : ℕ) → j < attempts → connected j ≡ false)
unfolding wait_for_connection
wait_for_connection-bounds fuel connected enough =
    let (n, ends, low, high, why, before) =
      wait_loop_lem fuel 0 connected (omega arith) (omega (arith, enough)) in
    (n, ends, high, why, λ j to. before j (omega arith) to)

-- The worker goes on in a round.
abbrev GoesOn : Round → Type 0
GoesOn r = (r.connected ≡ true) × (r.should_disconnect ≡ false)

-- How a program ends that met the round `r`.
abbrev end_at : Round → MainEnd
end_at r = if r.connected then disconnected else connection_lost

-- A worker that was connected runs on as long as it is connected and not told to disconnect; in the
-- first round where this changes it ends, and disconnects if it is still connected.
pub after_wait-ends :
    (before after : List Round) (r : Round)
    → All GoesOn before
    → (after_wait true before ≡ still_running)
      × ((r.connected ≡ false) ⊎ (r.should_disconnect ≡ true)
          → after_wait true (before ++ (r ∷ after)) ≡ end_at r)
unfolding after_wait main_loop
after_wait-ends [] after r on = (
  refl,
  λ h. elim h [
    | inl lost ↦ rw lost refl
    | inr told ↦
        rw told
          (elim (Bool-cases r.connected) [ inl here ↦ rw here refl | inr lost ↦ rw lost refl ])
  ],
)
after_wait-ends (b ∷ before) after r on =
    let ((here, stays), others) = on in rw (here, stays) (after_wait-ends before after r others)

-- A worker that cannot resolve the name of its master waits for all of the 10 rounds, never tries again,
-- and ends.
pub main_unresolved :
    (fuel : ℕ) (can_run connected_now : Bool) (address : ℕ) (connected : ℕ → Bool)
    (rounds : List Round)
    → 10 < fuel
    → main fuel false can_run address connected connected_now rounds ≡ some (10, never_connected)
unfolding main connect after_wait
main_unresolved fuel can_run connected_now address connected rounds enough =
    let (n, ends, high, why, before) =
      wait_for_connection-bounds fuel (answers none connected) enough in
    elim why [
      | inl never ↦ absurd (ground arith)
      | inr all ↦ ap (Option.map (λ k. (k, never_connected))) (ends ∙ ap some all)
    ]
