-- ===== src/Net/Server/Ids.antt =====
-- The ids that a server gives to its connections.
use mathlib.Core.List.{append-nil}
use log_grid.Base.{
  Bool, Bool-cases, List, [], ap, arith, false, if◌then◌else◌, inl, inr, length, refl, some,
  some_injective, subst, sym, true, ℕ, ◌%◌, ◌++◌, ◌+◌, ◌<◌, ◌==◌, ◌^◌, ◌∙◌, ◌∷◌, ◌≡◌, ◌≤◌,
}
use log_grid.Net.Connection.Reader.{Connection, connect_to_client, new_connection, owner_server}
use log_grid.Net.Server.Accept.{
  AcceptResult, ServerHandlers, ServerInterface, accept_all, accept_error, accepted, add_connection,
  decided, new_server, on_accept, wait_for_client_connection,
}

-- The ids of the connections that have one: a connection whose socket was closed before it could be
-- given one keeps the 0 of its constructor.
unfoldable pub given_ids : List Connection → List ℕ
given_ids [] = []
given_ids (c ∷ cs) = let rest = given_ids cs in if c.id == 0 then rest else c.id ∷ rest

-- A list that rises, from one bound to another that it does not reach.
abbrev pub Rising : ℕ → List ℕ → ℕ → Type 0
Rising low [] high = low ≤ high
Rising low (x ∷ xs) high = (low ≤ x) × Rising (x + 1) xs high

Rising-weaken :
    (low high high' : ℕ) (xs : List ℕ) → high ≤ high' → Rising low xs high → Rising low xs high'
Rising-weaken low high high' [] le h = omega (arith, h, le)
Rising-weaken low high high' (x ∷ xs) le h = (h.0, Rising-weaken (x + 1) high high' xs le h.1)

Rising-snoc :
    (low high : ℕ) (xs : List ℕ) → Rising low xs high → Rising low (xs ++ (high ∷ [])) (high + 1)
Rising-snoc low high [] h = (h, omega arith)
Rising-snoc low high (x ∷ xs) h = (h.0, Rising-snoc (x + 1) high xs h.1)

given_ids-append : (cs ds : List Connection) → given_ids (cs ++ ds) ≡ given_ids cs ++ given_ids ds
unfolding given_ids
given_ids-append [] ds = refl
given_ids-append (c ∷ cs) ds = elim (Bool-cases (c.id == 0)) [
  | inl zero_id ↦ rw zero_id (given_ids-append cs ds)
  | inr other ↦ rw other (ap (λ l. c.id ∷ l) (given_ids-append cs ds))
]

-- The books of the ids, after so many results of async_accept at most.
record IdsInv (results : ℕ) (server : ServerInterface) : Type 0 where
  rising : Rising 10000 (given_ids server.connections) server.id_counter
  bound : server.id_counter ≤ 10000 + results
  low : 10000 ≤ server.id_counter
  accepts : server.accepting ≡ true

given_ids-connect :
    (uid address : ℕ) (is_open : Bool)
    → 0 < uid
    → given_ids (connect_to_client uid (new_connection address owner_server is_open) ∷ [])
      ≡ (if is_open then uid ∷ [] else [])
unfolding connect_to_client given_ids
given_ids-connect uid address true h = ground arith
given_ids-connect uid address false h = refl

Rising-one_more :
    (is_open : Bool) (low high : ℕ) (xs : List ℕ)
    → Rising low xs high
    → Rising low (xs ++ (if is_open then high ∷ [] else [])) (high + 1)
Rising-one_more true low high xs h = Rising-snoc low high xs h
Rising-one_more false low high xs h =
    subst (λ l. Rising low l (high + 1)) (sym (append-nil xs))
      (Rising-weaken low high (high + 1) xs (omega arith) h)

add_connection-IdsInv :
    (n address : ℕ) (is_open : Bool) (server : ServerInterface)
    → 10000 + n + 1 < 2 ^ 32
    → IdsInv n server
    → IdsInv (n + 1) (add_connection (new_connection address owner_server is_open) server)
add_connection-IdsInv n address is_open server small v =
    let next : (server.id_counter + 1) % 2 ^ 32 ≡ server.id_counter + 1 =
      omega (arith, v.bound, small) in
    let new = connect_to_client server.id_counter (new_connection address owner_server is_open) in
    let ids =
      given_ids-append server.connections (new ∷ [])
      ∙ ap (λ l. given_ids server.connections ++ l)
          (given_ids-connect server.id_counter address is_open (omega (arith, v.low))) in
    record {
      rising =
          rw (ids, next)
            (Rising-one_more is_open 10000 server.id_counter (given_ids server.connections)
              v.rising);
      bound = omega (arith, next, v.bound);
      low = omega (arith, next, v.low);
      accepts = v.accepts;
    }

IdsInv-weaken : (n : ℕ) (server : ServerInterface) → IdsInv n server → IdsInv (n + 1) server
IdsInv-weaken n server v = record {
  rising = v.rising;
  bound = omega (arith, v.bound);
  low = v.low;
  accepts = v.accepts;
}

-- The handler does not touch these: what else it changes is left out of the books.
IdsInv-waits :
    {n : ℕ} {server : ServerInterface}
    → IdsInv n server
    → IdsInv n (wait_for_client_connection server)
IdsInv-waits v = record { rising = v.rising; bound = v.bound; low = v.low; accepts = refl }

module _ {S : Type 0} (handlers : ServerHandlers S) where
  decided-IdsInv :
      (n address : ℕ) (is_open : Bool) (decision : Bool × S) (server : ServerInterface)
      → 10000 + n + 1 < 2 ^ 32
      → IdsInv n server
      → IdsInv
          (n + 1)
          (decided handlers (new_connection address owner_server is_open) decision server).0
  decided-IdsInv n address is_open (true, s) server small v =
      IdsInv-waits (add_connection-IdsInv n address is_open server small v)
  decided-IdsInv n address is_open (false, s) server small v =
      IdsInv-waits (IdsInv-weaken n server v)

  accept_all-IdsInv :
      (results : List AcceptResult) (n : ℕ) (server last : ServerInterface) (s t : S)
      → 10000 + n + length results < 2 ^ 32
      → IdsInv n server
      → accept_all handlers results server s ≡ some (last, t)
      → IdsInv (n + length results) last
  unfolding accept_all on_accept
  accept_all-IdsInv [] n server last s t small v e =
      subst (λ p. IdsInv (n + 0) p.0) (some_injective e)
        (record {
          rising = v.rising;
          bound = omega (arith, v.bound);
          low = v.low;
          accepts = v.accepts;
        })
  accept_all-IdsInv (accept_error ∷ results) n server last s t small v e =
      subst (λ k. IdsInv k last) (omega arith)
        (accept_all-IdsInv results (n + 1) _ last s t (omega (arith, small))
          (IdsInv-waits (IdsInv-weaken n server v)) e)
  accept_all-IdsInv (accepted address is_open false ∷ results) n server last s t small v e =
      absurd (cc (e))
  accept_all-IdsInv (accepted address is_open true ∷ results) n server last s t small v e =
      let decision = handlers.on_client_connect (some address) s in
      subst (λ k. IdsInv k last) (omega arith)
        (accept_all-IdsInv results (n + 1) _ last _ t (omega (arith, small))
          (decided-IdsInv n address is_open decision server (omega (arith, small)) v) e)

  -- Whatever is accepted, denied or fails, in any order, the ids that a server gives to its connections
  -- rise from 10000 on, so that no two are the same, and it goes on accepting, from its first
  -- WaitForClientConnection on, as long as less than 2 ^ 32 - 10000 connections are attempted and no
  -- exception ends the program.
  pub accept_all-Rising :
      (results : List AcceptResult) (server : ServerInterface) (s t : S)
      → 10000 + length results < 2 ^ 32
      → accept_all handlers results (wait_for_client_connection new_server) s ≡ some (server, t)
      → Rising 10000 (given_ids server.connections) (10000 + length results)
        × (server.accepting ≡ true)
  unfolding given_ids
  accept_all-Rising results server s t small e =
      let v =
        accept_all-IdsInv results 0 (wait_for_client_connection new_server) server s t
          (omega (arith, small))
          (record { rising = omega arith; bound = omega arith; low = omega arith; accepts = refl })
          e in
      (
        Rising-weaken 10000 _ _ (given_ids server.connections) (omega (arith, v.bound)) v.rising,
        v.accepts,
      )
