-- ===== src/Net/Queue.antt =====
-- NetCommon/include/net_tsqueue.hpp: a double-ended queue under a mutex. Each function is one locked
-- section. An access to the front or the back of an empty queue is undefined in the source, and gives
-- `none`.
pub mod Consumer
use mathlib.Core.Option
use log_grid.Base.{
  Bool, List, Option, [], ap, arith, length, length-append, none, refl, some, ℕ, ◌++◌, ◌+◌, ◌==◌,
  ◌∷◌, ◌≡◌,
}

pub record TsQueue {ℓ} (A : Type ℓ) : Type ℓ where
  pub deq_queue : List A

-- The last entry, and what is before it.
unfoldable pub split_last {ℓ} : {A : Type ℓ} → List A → Option (List A × A)
split_last [] = none
split_last (x ∷ xs) = elim (split_last xs) [
  | none ↦ some ([], x)
  | some (before, last) ↦ some (x ∷ before, last)
]

module _ {ℓ} {A : Type ℓ} where
  abbrev pub new_queue : TsQueue A
  new_queue = record { deq_queue = [] }

  abbrev head_of : List A → Option A
  head_of [] = none
  head_of (x ∷ xs) = some x

  unfoldable pub front : TsQueue A → Option A
  front q = head_of q.deq_queue

  unfoldable pub back : TsQueue A → Option A
  back q = Option.map (λ split. split.1) (split_last q.deq_queue)

  unfoldable pub push_back : A → TsQueue A → TsQueue A
  push_back item q = record { deq_queue = q.deq_queue ++ (item ∷ []) }

  unfoldable pub push_front : A → TsQueue A → TsQueue A
  push_front item q = record { deq_queue = item ∷ q.deq_queue }

  abbrev pub uncons : List A → Option (A × TsQueue A)
  uncons [] = none
  uncons (x ∷ xs) = some (x, record { deq_queue = xs })

  unfoldable pub pop_front : TsQueue A → Option (A × TsQueue A)
  pop_front q = uncons q.deq_queue

  unfoldable pub pop_back : TsQueue A → Option (A × TsQueue A)
  pop_back q =
      Option.map (λ split. (split.1, record { deq_queue = split.0 })) (split_last q.deq_queue)

  abbrev pub clear : TsQueue A → TsQueue A
  clear q = new_queue

  unfoldable pub count : TsQueue A → ℕ
  count q = length q.deq_queue

  unfoldable pub is_empty : TsQueue A → Bool
  is_empty q = length q.deq_queue == 0

  split_last-append : (xs : List A) (x : A) → split_last (xs ++ (x ∷ [])) ≡ some (xs, x)
  unfolding split_last
  split_last-append [] x = refl
  split_last-append (y ∷ ys) x = rw (split_last-append ys x) refl

  -- What was pushed at an end is what that end gives, and what popping takes; the rest is as it was,
  -- and counts one entry less.
  pub queue_ends :
      (q : TsQueue A) (item : A)
      → (back (push_back item q) ≡ some item)
        × (pop_back (push_back item q) ≡ some (item, q))
        × (front (push_front item q) ≡ some item)
        × (pop_front (push_front item q) ≡ some (item, q))
        × (count (push_back item q) ≡ count q + 1)
        × (count (push_front item q) ≡ count q + 1)
  unfolding back pop_back front pop_front push_back push_front count
  queue_ends q item = (
    ap (Option.map (λ split. split.1)) (split_last-append q.deq_queue item),
    ap (Option.map (λ split. (split.1, record { deq_queue = split.0 })))
        (split_last-append q.deq_queue item),
    refl,
    refl,
    omega (arith, length-append q.deq_queue (item ∷ [])),
    omega arith,
  )
