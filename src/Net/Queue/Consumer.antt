-- ===== src/Net/Queue/Consumer.antt =====
-- Threads that push to a queue, and the one thread that takes from it: the loop of Update in
-- NetCommon/include/net_server.hpp looks whether the queue is empty and then pops, in two locked
-- sections, with others between them.
use mathlib.Core.List.{append_assoc}
use log_grid.Base.{
  Bool, List, [], ap, arith, false, length, length-append, not, refl, some, some_injective, sym,
  true, ◌++◌, ◌<◌, ◌∙◌, ◌∷◌, ◌≡◌,
}
use log_grid.Net.Queue.{TsQueue, is_empty, new_queue, pop_front, push_back, uncons}

-- `posted` are the items pushed so far and `taken` those popped, the oldest first; `looked` tells that
-- the consumer has seen an entry and has not popped since.
pub record Shared {ℓ} (A : Type ℓ) : Type ℓ where
  pub queue : TsQueue A
  pub looked : Bool
  pub posted : List A
  pub taken : List A

module _ {ℓ} {A : Type ℓ} where
  abbrev pub new_shared : Shared A
  new_shared = record { queue = new_queue; looked = false; posted = []; taken = [] }

  pub data QueueStep : Shared A → Shared A → Type ℓ where
    pushes :
        (s : Shared A) (item : A)
        → QueueStep s
            (record s { queue = push_back item s.queue; posted = s.posted ++ (item ∷ []) })
    looks : (s : Shared A) → QueueStep s (record s { looked = not (is_empty s.queue) })
    takes :
        (s : Shared A) (item : A) (left : TsQueue A)
        → s.looked ≡ true
        → pop_front s.queue ≡ some (item, left)
        → QueueStep s (record s { queue = left; looked = false; taken = s.taken ++ (item ∷ []) })

  pub data QueueReachable : Shared A → Type ℓ where
    fresh : QueueReachable new_shared
    next : {s t : Shared A} → QueueReachable s → QueueStep s t → QueueReachable t

  record SharedInv (s : Shared A) : Type ℓ where
    order : s.taken ++ s.queue.deq_queue ≡ s.posted
    seen : s.looked ≡ true → 0 < length s.queue.deq_queue

  uncons_cons :
      (xs : List A) (item : A) (left : TsQueue A)
      → uncons xs ≡ some (item, left)
      → xs ≡ item ∷ left.deq_queue
  uncons_cons [] item left e = absurd (cc (e))
  uncons_cons (x ∷ xs) item left e =
      let same : (x, record { deq_queue = xs }) ≡ (item, left) = some_injective e in
      ap (λ p. p.0 ∷ p.1.deq_queue) same

  QueueStep-SharedInv : {s t : Shared A} → QueueStep s t → SharedInv s → SharedInv t
  unfolding push_back pop_front is_empty
  QueueStep-SharedInv (pushes s item) v = record {
    order =
        sym (append_assoc s.taken s.queue.deq_queue (item ∷ []))
        ∙ ap (λ l. l ++ (item ∷ [])) v.order;
    seen = λ h. omega (arith, length-append s.queue.deq_queue (item ∷ []));
  }
  QueueStep-SharedInv (looks s) v = record { order = v.order; seen = λ h. ground (arith, h) }
  QueueStep-SharedInv (takes s item left looked e) v = record {
    order =
        append_assoc s.taken (item ∷ []) left.deq_queue
        ∙ (ap (λ l. s.taken ++ l) (sym (uncons_cons s.queue.deq_queue item left e)) ∙ v.order);
    seen = λ h. absurd (ground (arith, h));
  }

  Reachable-SharedInv : {s : Shared A} → QueueReachable s → SharedInv s
  Reachable-SharedInv fresh = record { order = refl; seen = λ h. absurd (ground (arith, h)) }
  Reachable-SharedInv (next r st) = QueueStep-SharedInv st (Reachable-SharedInv r)

  uncons_nonempty :
      (xs : List A)
      → 0 < length xs
      → (item : A) × ((left : TsQueue A) × (uncons xs ≡ some (item, left)))
  uncons_nonempty [] h = absurd (omega arith)
  uncons_nonempty (x ∷ xs) h = (x, (record { deq_queue = xs }, refl))

  -- With one consumer, in every order of pushes, looks and pops, the pop after a look that found the
  -- queue not empty is defined, whatever was pushed in between; and what was taken and what waits are
  -- what was pushed, in order.
  pub queue_consumer :
      (s : Shared A)
      → QueueReachable s
      → (s.looked ≡ true
          → (item : A) × ((left : TsQueue A) × (pop_front s.queue ≡ some (item, left))))
        × (s.taken ++ s.queue.deq_queue ≡ s.posted)
  unfolding pop_front
  queue_consumer s r =
      let v = Reachable-SharedInv r in
      ((λ looked. uncons_nonempty s.queue.deq_queue (v.seen looked)), v.order)
