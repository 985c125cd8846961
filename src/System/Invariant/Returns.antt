-- ===== src/System/Invariant/Returns.antt =====
-- Where the queues are wired, Len and Pop on a queue of the configuration return.
use kombiner.Prelude.{
  ℕ, zero, suc, ◌<◌, ◌≡◌, refl, List, inl, inr, Option, none, some, length, get_elem?, get_elem?_lt,
  value, Yields, yields, Yields-inv, panic, ◌≢◌,
}
use kombiner.Api.Placement.{PlacementRequest}
use kombiner.Queue.PlacementRequest
use kombiner.Queue.PlacementRequest.{PlacementRequestQueue}
use kombiner.Queue.PlacementRequest.Contents.{IsValid, pop-empty, pop-Popped}
use kombiner.Queue.Store.{Store, QueueRef, deref, queue_len, queue_pop}
use kombiner.Queue.Config.{QueueConfigs}
use kombiner.Queue.Access.{Access, ask_len, ask_pop, Round, Reader, Among}
use kombiner.Queue.Access.Covers.{Among-All}
use kombiner.System.{reading}
use kombiner.System.Invariant.{refs_of, Laws, IsWired, Holds}

pop-returns :
    (q : PlacementRequestQueue ℕ)
    → IsValid q
    → (r : Option PlacementRequest × PlacementRequestQueue ℕ) × (PlacementRequest.pop q ≡ value r)
pop-returns q valid = go (PlacementRequest.len q) refl
  where
    go :
        (n : ℕ)
        → PlacementRequest.len q ≡ n
        → (r : Option PlacementRequest × PlacementRequestQueue ℕ) × (PlacementRequest.pop q
            ≡ value r)
    go zero e = ((none, q), pop-empty q e)
    go (suc n) e = let (r, run, p) = Yields-inv (pop-Popped n q e valid) in (r, run)

module _ (refs : List QueueRef) where
  pointer :
      (st : Store ℕ) (ref : QueueRef)
      → IsWired refs st
      → Among ref refs
      → (k : ℕ) × (q : PlacementRequestQueue ℕ) × (ref ≡ some k)
        × (get_elem? st.queues k ≡ some q)
        × IsValid q
  pointer st ref wired listed =
      let (k, at, low) =
        Among-All (λ r. (k : ℕ) × (r ≡ some k) × (k < length st.queues)) refs ref wired.pointers
          listed in
      let (q, there) = get_elem?_lt st.queues k low in (k, q, at, there, (wired.queues k q there).0)

  pub queue_len-returns :
      (st : Store ℕ) (ref : QueueRef)
      → IsWired refs st
      → Among ref refs
      → Yields (λ _. Unit {0}) (queue_len st ref)
  unfolding queue_len deref
  queue_len-returns st ref wired listed =
      let (k, q, at, there, valid) = pointer st ref wired listed in rw at (rw there (yields tt))

  pub queue_pop-returns :
      (st : Store ℕ) (ref : QueueRef)
      → IsWired refs st
      → Among ref refs
      → Yields (λ _. Unit {0}) (queue_pop st ref)
  unfolding queue_pop deref
  queue_pop-returns st ref wired listed =
      let (k, q, at, there, valid) = pointer st ref wired listed in
      let ((o, q'), popped) = pop-returns q valid in rw at (rw there (rw popped (yields tt)))

module _ {reader : Reader} {configs : QueueConfigs} (laws : Laws reader configs) (st : Store ℕ)
    (p : Option QueueRef) (ref : QueueRef) where
  pub len-listed :
      (k : ℕ → Access (Round reader.State))
      → Holds laws st p (reading (ask_len ref k))
      → Among ref (refs_of configs)
  len-listed k (inl (seen, quiet, c)) = c.0
  len-listed k (inr (pr, r, e, good)) = absurd (cc)

  pub pop-listed :
      (k : Option PlacementRequest → Access (Round reader.State))
      → Holds laws st p (reading (ask_pop ref k))
      → Among ref (refs_of configs)
  pop-listed k (inl (seen, quiet, c)) = c.0
  pop-listed k (inr (pr, r, e, good)) = absurd (cc)

  -- So neither panics in a call of Read.
  pub look_down-absurd :
      (k : ℕ → Access (Round reader.State))
      → IsWired (refs_of configs) st
      → Holds laws st p (reading (ask_len ref k))
      → queue_len st ref ≢ panic
  look_down-absurd k wired h e =
      let (n, run, _) =
        Yields-inv (queue_len-returns (refs_of configs) st ref wired (len-listed k h)) in
      cc

  pub take_down-absurd :
      (k : Option PlacementRequest → Access (Round reader.State))
      → IsWired (refs_of configs) st
      → Holds laws st p (reading (ask_pop ref k))
      → queue_pop st ref ≢ panic
  take_down-absurd k wired h e =
      let (r, run, _) =
        Yields-inv (queue_pop-returns (refs_of configs) st ref wired (pop-listed k h)) in
      cc
