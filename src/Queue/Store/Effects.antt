-- ===== src/Queue/Store/Effects.antt =====
-- What Push and Pop through a pointer change in the store.
use kombiner.Prelude.{
  ℕ, ◌≡◌, ◌≢◌, ◌∙◌, refl, sym, ap, Option, none, some, arith, length, get_elem?, set, length-set,
  get_elem?-set, get_elem?-inside, Outcome, value, >>=_value, or_panic-value,
}
use kombiner.Api.Placement.{PlacementRequest}
use kombiner.Queue.PlacementRequest
use kombiner.Queue.PlacementRequest.{PlacementRequestQueue}
use kombiner.Queue.Store.{Store, QueueRef, write, deref, queue_pop, queue_push, queue_len}

module _ {S : Type 0} where
  -- The store before and after, where only the queue behind one pointer is written.
  pub record Writes (st : Store S) (ref : QueueRef) (q' : PlacementRequestQueue S) (st' : Store S)
      : Type 0 where
    pub index : ℕ
    pub queue : PlacementRequestQueue S
    pub points : ref ≡ some index
    pub there : get_elem? st.queues index ≡ some queue
    pub written : st'.queues ≡ set st.queues index q'

  deref-value :
      (st : Store S) (ref : QueueRef) {q : PlacementRequestQueue S}
      → deref st ref ≡ value q
      → (k : ℕ) × (ref ≡ some k) × (get_elem? st.queues k ≡ some q)
  unfolding deref
  deref-value st none e = absurd (cc)
  deref-value st (some k) e = (k, refl, or_panic-value (get_elem? st.queues k) e)

  write-queues :
      (st : Store S) (ref : QueueRef) (q' : PlacementRequestQueue S) (k : ℕ)
      → ref ≡ some k
      → (write st ref q').queues ≡ set st.queues k q'
  write-queues st none q' k e = absurd (cc)
  write-queues st (some j) q' k e = let same : j ≡ k = cc in rw same refl

  write-signals :
      (st : Store S) (ref : QueueRef) (q' : PlacementRequestQueue S)
      → (write st ref q').signals ≡ st.signals
  write-signals st none q' = refl
  write-signals st (some j) q' = refl

  pub queue_pop-Writes :
      (st st' : Store S) (ref : QueueRef) (o : Option PlacementRequest)
      → queue_pop st ref ≡ value (o, st')
      → (q' : PlacementRequestQueue S) × (w : Writes st ref q' st') × (PlacementRequest.pop w.queue
          ≡ value (o, q'))
        × (st'.signals ≡ st.signals)
  unfolding queue_pop
  queue_pop-Writes st st' ref o e =
      let (q, at, rest) = >>=_value (deref st ref) _ e in
      let (k, points, there) = deref-value st ref at in
      let ((o1, q'), popped, last) = >>=_value (PlacementRequest.pop q) _ rest in
      let same : o1 ≡ o = ap (λ m. answer m) last in
      let store : write st ref q' ≡ st' = ap (λ m. left m) last in
      (
        q',
        record {
          index = k;
          queue = q;
          points = points;
          there = there;
          written = ap (λ (s : Store S). s.queues) (sym store) ∙ write-queues st ref q' k points;
        },
        popped ∙ ap (λ x. value (x, q')) same,
        ap (λ (s : Store S). s.signals) (sym store) ∙ write-signals st ref q',
      )
    where
      answer : Outcome (Option PlacementRequest × Store S) → Option PlacementRequest
      answer (value (a, s)) = a
      answer _ = o

      left : Outcome (Option PlacementRequest × Store S) → Store S
      left (value (a, s)) = s
      left _ = st'

  pub queue_push-Writes :
      (st st' : Store S) (ref : QueueRef) (pr : PlacementRequest)
      → queue_push st ref (some pr) ≡ value st'
      → (q' : PlacementRequestQueue S) × (w : Writes st ref q' st') × (PlacementRequest.push w.queue
            (some pr)
            st.signals
          ≡ value (q', st'.signals))
  unfolding queue_push
  queue_push-Writes st st' ref pr e =
      let (q, at, rest) = >>=_value (deref st ref) _ e in
      let (k, points, there) = deref-value st ref at in
      let ((q', s1), pushed, last) =
        >>=_value (PlacementRequest.push q (some pr) st.signals) _ rest in
      let store : record (write st ref q') { signals = s1 } ≡ st' = ap (λ m. left m) last in
      (
        q',
        record {
          index = k;
          queue = q;
          points = points;
          there = there;
          written = ap (λ (s : Store S). s.queues) (sym store) ∙ write-queues st ref q' k points;
        },
        pushed ∙ ap (λ x. value (q', x)) (ap (λ (s : Store S). s.signals) store),
      )
    where
      left : Outcome (Store S) → Store S
      left (value s) = s
      left _ = st'

  pub queue_len-at :
      (st : Store S) (ref : QueueRef) (n : ℕ)
      → queue_len st ref ≡ value n
      → (k : ℕ) × (q : PlacementRequestQueue S) × (ref ≡ some k)
        × (get_elem? st.queues k ≡ some q)
        × (PlacementRequest.len q ≡ n)
  unfolding queue_len
  queue_len-at st ref n e =
      let (q, at, rest) = >>=_value (deref st ref) _ e in
      let (k, points, there) = deref-value st ref at in
      (k, q, points, there, ap (λ m. answer m) rest)
    where
      answer : Outcome ℕ → ℕ
      answer (value m) = m
      answer _ = n

  -- What stands at an index after the write.
  pub Writes-there :
      {st st' : Store S} {ref : QueueRef} {q' : PlacementRequestQueue S} (w : Writes st ref q' st')
      → get_elem? st'.queues w.index ≡ some q'
  Writes-there {st} {q' = q'} w =
      let low = get_elem?-inside st.queues w.index w.there in
      rw (w.written) (ground (arith, get_elem?-set st.queues w.index w.index q'))

  pub Writes-other :
      {st st' : Store S} {ref : QueueRef} {q' : PlacementRequestQueue S} (w : Writes st ref q' st')
      (j : ℕ)
      → j ≢ w.index
      → get_elem? st'.queues j ≡ get_elem? st.queues j
  Writes-other {st} {q' = q'} w j other =
      let low = get_elem?-inside st.queues w.index w.there in
      rw (w.written) (ground (arith, get_elem?-set st.queues w.index j q'))

  pub Writes-length :
      {st st' : Store S} {ref : QueueRef} {q' : PlacementRequestQueue S}
      → Writes st ref q' st'
      → length st'.queues ≡ length st.queues
  Writes-length {st} {q' = q'} w = rw (w.written) (length-set st.queues w.index q')
