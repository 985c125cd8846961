-- ===== src/System/Requests/Tally.antt =====
-- How many requests wait in the queues, and what a Pop and a Push change in that.
use kombiner.Prelude.{
  ℕ, zero, suc, ◌+◌, ◌≡◌, ap, List, [], ◌∷◌, Bool, inl, inr, Option, none, some, arith, get_elem?,
  set, count_of, count_of-perm, value,
}
use kombiner.Api.Placement.{PlacementRequest}
use kombiner.Queue.PlacementRequest.{PlacementRequestQueue, PrioritizedPlacementRequest}
use kombiner.Queue.PlacementRequest.Contents.{waiting as items}
use kombiner.Queue.Store.{Store, QueueRef, queue_pop, queue_push}
use kombiner.Queue.Store.Effects.{queue_pop-Writes, queue_push-Writes}
use kombiner.System.Invariant.{IsWired}
use kombiner.System.Invariant.Queues.{pop-cases, push-result}

-- The request that a Pop gave.
abbrev pub given : Option PlacementRequest → List PlacementRequest
given none = []
given (some pr) = pr ∷ []

module _ (test : PlacementRequest → Bool) where
  abbrev pub waiting_count : PlacementRequestQueue ℕ → ℕ
  waiting_count q = count_of (λ (x : PrioritizedPlacementRequest). test x.request) (items q)

  -- How many requests in the queues pass the test.
  abbrev pub tally : List (PlacementRequestQueue ℕ) → ℕ
  tally [] = 0
  tally (q ∷ qs) = waiting_count q + tally qs

  tally-set :
      (qs : List (PlacementRequestQueue ℕ)) (k : ℕ) (q q' : PlacementRequestQueue ℕ)
      → get_elem? qs k ≡ some q
      → tally (set qs k q') + waiting_count q ≡ tally qs + waiting_count q'
  tally-set [] k q q' e = absurd (cc)
  tally-set (x ∷ qs) zero q q' e = let same : x ≡ q = cc in rw same (omega arith)
  tally-set (x ∷ qs) (suc k) q q' e = omega (arith, tally-set qs k q q' e)

  abbrev pub one : PlacementRequest → ℕ
  one pr = count_of test (pr ∷ [])

  pub count_cons :
      (pr : PlacementRequest) (prs : List PlacementRequest)
      → count_of test (pr ∷ prs) ≡ one pr + count_of test prs
  unfolding count_of
  count_cons pr prs = ground arith

  item_cons :
      (pr : PlacementRequest) (xs : List PrioritizedPlacementRequest)
      → count_of
          (λ (x : PrioritizedPlacementRequest). test x.request)
          (record { request = pr } ∷ xs)
        ≡ one pr + count_of (λ (x : PrioritizedPlacementRequest). test x.request) xs
  unfolding count_of
  item_cons pr xs = ground arith

  pub queue_pop-tally :
      (refs : List QueueRef) (st st' : Store ℕ) (ref : QueueRef) (o : Option PlacementRequest)
      → IsWired refs st
      → queue_pop st ref ≡ value (o, st')
      → tally st'.queues + count_of test (given o) ≡ tally st.queues
  unfolding count_of
  queue_pop-tally refs st st' ref o wired e =
      let (q', w, popped, signals) = queue_pop-Writes st st' ref o e in
      let (valid, wakes) = wired.queues w.index w.queue w.there in
      let written = ap tally w.written in
      let balance = tally-set st.queues w.index w.queue q' w.there in
      elim (pop-cases w.queue q' o valid popped) [
        | inl (none_left, none_given, same) ↦
            let unchanged = ap waiting_count same in
            rw none_given (omega (arith, written, balance, unchanged))
        | inr p ↦
            let moved =
              count_of-perm (λ (x : PrioritizedPlacementRequest). test x.request) p.same in
            let one_less = item_cons p.request (items q') in
            rw (p.given) (omega (arith, written, balance, moved, one_less))
      ]

  pub queue_push-tally :
      (refs : List QueueRef) (st st' : Store ℕ) (ref : QueueRef) (pr : PlacementRequest)
      → IsWired refs st
      → queue_push st ref (some pr) ≡ value st'
      → tally st'.queues ≡ tally st.queues + one pr
  queue_push-tally refs st st' ref pr wired e =
      let (q', w, pushed) = queue_push-Writes st st' ref pr e in
      let (valid, wakes) = wired.queues w.index w.queue w.there in
      let p = push-result w.queue q' pr st.signals st'.signals valid pushed in
      let moved = count_of-perm (λ (x : PrioritizedPlacementRequest). test x.request) p.same in
      omega (
        arith,
        ap tally w.written,
        tally-set st.queues w.index w.queue q' w.there,
        moved,
        item_cons pr (items w.queue),
      )
