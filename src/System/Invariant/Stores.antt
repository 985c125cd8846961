-- ===== src/System/Invariant/Stores.antt =====
-- What the accesses of the goroutines to the queues keep.
use kombiner.Prelude.{
  ℕ, ◌<◌, ◌≡◌, ◌≢◌, ◌∙◌, refl, sym, ap, subst, List, [], ◌∷◌, false, ◌⊎◌, inl, inr, Option, none,
  some, arith, ltb, length, get_elem?, All, value, nat_beq, Bool-cases, nat_beq_iff,
}
use kombiner.Api.Placement.{PlacementRequest}
use kombiner.Queue.PlacementRequest
use kombiner.Queue.PlacementRequest.{PlacementRequestQueue, run_handlers}
use kombiner.Queue.PlacementRequest.Contents.{IsValid}
use kombiner.Queue.Store.{Store, QueueRef, queue_len, queue_pop, queue_push}
use kombiner.Queue.Store.Effects.{
  Writes, queue_pop-Writes, queue_push-Writes, queue_len-at, Writes-there, Writes-other,
  Writes-length,
}
use kombiner.Queue.RoundRobin.Choice.{holds_request}
use kombiner.System.Invariant.Queues.{pop-cases, push-result, Popped-busy}
use kombiner.System.Invariant.{Wakes, IsWired, Quiet}

module _ (refs : List QueueRef) where
  -- A write of a valid queue with the same handlers.
  Writes-IsWired :
      {st st' : Store ℕ} {ref : QueueRef} {q' : PlacementRequestQueue ℕ} (w : Writes st ref q' st')
      → IsWired refs st
      → IsValid q'
      → q'.push_handlers ≡ w.queue.push_handlers
      → IsWired refs st'
  Writes-IsWired {st} {st'} {q' = q'} w wired valid handlers = record {
    queues = queues;
    pointers = pointers refs wired.pointers;
  }
    where
      some_inj : (x y : PlacementRequestQueue ℕ) → some x ≡ some y → x ≡ y
      some_inj x y e = cc

      queues :
          (k : ℕ) (q : PlacementRequestQueue ℕ)
          → get_elem? st'.queues k ≡ some q
          → IsValid q × Wakes q
      queues k q at = elim (Bool-cases (nat_beq k w.index)) [
        | inl same ↦
            let here : k ≡ w.index = (nat_beq_iff k w.index).0 same in
            let e : q' ≡ q = some_inj q' q (sym (Writes-there w) ∙ (rw here at at)) in
            subst (λ (x : PlacementRequestQueue ℕ). IsValid x × Wakes x) e
              (valid, λ n. rw handlers ((wired.queues w.index w.queue w.there).1 n))
        | inr other ↦
            wired.queues k q
              (sym (Writes-other w k (λ e. let t = (nat_beq_iff k w.index).1 e in cc)) ∙ at)
      ]

      pointers :
          (rs : List QueueRef)
          → All (λ ref. (k : ℕ) × (ref ≡ some k) × (k < length st.queues)) rs
          → All (λ ref. (k : ℕ) × (ref ≡ some k) × (k < length st'.queues)) rs
      pointers [] h = tt
      pointers (r ∷ rs) ((k, at, low), h) =
          ((k, at, omega (arith, low, Writes-length w)), pointers rs h)

holds_request-at :
    (st : Store ℕ) (ref : QueueRef) (k : ℕ) (q : PlacementRequestQueue ℕ)
    → ref ≡ some k
    → get_elem? st.queues k ≡ some q
    → holds_request st ref ≡ ltb 0 (PlacementRequest.len q)
unfolding holds_request
holds_request-at st none k q e at = absurd (cc)
holds_request-at st (some j) k q e at = let same : j ≡ k = cc in rw same (rw at refl)

holds_request-other :
    {st st' : Store ℕ} {ref : QueueRef} {q' : PlacementRequestQueue ℕ} (w : Writes st ref q' st')
    (other : QueueRef)
    → other ≢ some w.index
    → holds_request st' other ≡ holds_request st other
unfolding holds_request
holds_request-other w none differs = refl
holds_request-other w (some j) differs =
    rw (Writes-other w j (λ e. differs (ap (λ n. some n) e))) refl

-- A pointer is the one written through or another.
ref-cases : (other : QueueRef) (k : ℕ) → (other ≡ some k) ⊎ (other ≢ some k)
ref-cases none k = inr (λ e. cc)
ref-cases (some j) k = elim (Bool-cases (nat_beq j k)) [
  | inl same ↦ inl (ap (λ n. some n) ((nat_beq_iff j k).0 same))
  | inr differs ↦ inr (λ e. let same : j ≡ k = cc in let t = (nat_beq_iff j k).1 same in cc)
]

idle-len :
    (st : Store ℕ) (ref : QueueRef) (k : ℕ) (q : PlacementRequestQueue ℕ)
    → ref ≡ some k
    → get_elem? st.queues k ≡ some q
    → holds_request st ref ≡ false
    → PlacementRequest.len q ≡ 0
idle-len st ref k q e at idle = ground (arith, holds_request-at st ref k q e at)

len-idle :
    (st : Store ℕ) (ref : QueueRef) (k : ℕ) (q : PlacementRequestQueue ℕ)
    → ref ≡ some k
    → get_elem? st.queues k ≡ some q
    → PlacementRequest.len q ≡ 0
    → holds_request st ref ≡ false
len-idle st ref k q e at none_left = ground (arith, holds_request-at st ref k q e at)

-- A queue of which the number of requests is found to be 0.
pub look-Quiet :
    (st : Store ℕ) (pushing : Option QueueRef) (ref : QueueRef)
    → queue_len st ref ≡ value 0
    → Quiet st pushing ref
look-Quiet st pushing ref e =
    let (k, q, points, at, none_left) = queue_len-at st ref 0 e in
    inl (len-idle st ref k q points at none_left)

-- What a Pop keeps: an empty queue stays empty, and one that gave nil is empty.
pub record Took (refs : List QueueRef) (st : Store ℕ) (ref : QueueRef) (o : Option PlacementRequest)
    (st' : Store ℕ) : Type 0 where
  pub wired : IsWired refs st'
  pub quiet : (pushing : Option QueueRef) (r : QueueRef) → Quiet st pushing r → Quiet st' pushing r
  pub found_none : o ≡ none → (pushing : Option QueueRef) → Quiet st' pushing ref

pub queue_pop-Took :
    (refs : List QueueRef) (st st' : Store ℕ) (ref : QueueRef) (o : Option PlacementRequest)
    → IsWired refs st
    → queue_pop st ref ≡ value (o, st')
    → Took refs st ref o st'
queue_pop-Took refs st st' ref o wired e =
    let (q', w, popped, signals) = queue_pop-Writes st st' ref o e in
    let (valid, wakes) = wired.queues w.index w.queue w.there in
    let after = Writes-there w in
    let stays =
      λ (kept : holds_request st ref ≡ false → holds_request st' ref ≡ false)
          (pushing : Option QueueRef) (r : QueueRef) (h : Quiet st pushing r).
        quiet_after w signals kept pushing r h in
    elim (pop-cases w.queue q' o valid popped) [
      | inl (none_left, given, same) ↦
          let idle =
            len-idle st' ref w.index q' w.points after (
              ap (λ (q : PlacementRequestQueue ℕ). PlacementRequest.len q) (sym same)
              ∙ none_left) in
          record {
            wired =
                Writes-IsWired refs w wired
                  (subst (λ (q : PlacementRequestQueue ℕ). IsValid q) same valid)
                  (ap (λ (q : PlacementRequestQueue ℕ). q.push_handlers) (sym same));
            quiet = stays (λ _. idle);
            found_none = λ _ _. inl idle;
          }
      | inr p ↦ record {
        wired = Writes-IsWired refs w wired p.valid p.handlers;
        quiet = stays (λ idle. absurd (
            Popped-busy w.queue (o, q') p (idle-len st ref w.index w.queue w.points w.there idle)));
        found_none = λ h _. absurd (let given = p.given in cc);
      }
    ]
  where
    quiet_after :
        {q' : PlacementRequestQueue ℕ} (w : Writes st ref q' st')
        → st'.signals ≡ st.signals
        → (holds_request st ref ≡ false → holds_request st' ref ≡ false)
        → (pushing : Option QueueRef) (r : QueueRef) → Quiet st pushing r
        → Quiet st' pushing r
    quiet_after w signals kept pushing r (inr (inl some_left)) = inr (inl (omega arith))
    quiet_after w signals kept pushing r (inr (inr holds)) = inr (inr holds)
    quiet_after w signals kept pushing r (inl idle) = elim (ref-cases r w.index) [
      | inl here ↦
          let same : r ≡ ref = here ∙ sym w.points in inl (rw same (kept (rw same at idle)))
      | inr other ↦ inl (holds_request-other w r other ∙ idle)
    ]

-- What a Push keeps up to its handlers.
pub record Inserted (refs : List QueueRef) (st : Store ℕ) (ref : QueueRef) (st' : Store ℕ)
    : Type 0 where
  pub wired : IsWired refs st'
  pub quiet : (r : QueueRef) → Quiet st none r → Quiet st' (some ref) r

pub queue_push-Inserted :
    (refs : List QueueRef) (st st1 : Store ℕ) (ref : QueueRef) (pr : PlacementRequest)
    → IsWired refs st
    → queue_push st ref (some pr) ≡ value st1
    → Inserted refs st ref (record st1 { signals = st.signals })
queue_push-Inserted refs st st1 ref pr wired e =
    let (q', w, pushed) = queue_push-Writes st st1 ref pr e in
    let (valid, wakes) = wired.queues w.index w.queue w.there in
    let p = push-result w.queue q' pr st.signals st1.signals valid pushed in
    let w' : Writes st ref q' (record st1 { signals = st.signals }) = record {
      index = w.index;
      queue = w.queue;
      points = w.points;
      there = w.there;
      written = w.written;
    } in
    record { wired = Writes-IsWired refs w' wired p.valid p.handlers; quiet = quiet_after w' refl }
  where
    quiet_after :
        {st' : Store ℕ} {q' : PlacementRequestQueue ℕ} (w : Writes st ref q' st')
        → st'.signals ≡ st.signals
        → (r : QueueRef) → Quiet st none r
        → Quiet st' (some ref) r
    quiet_after w signals r (inr (inl some_left)) = inr (inl (omega arith))
    quiet_after w signals r (inr (inr holds)) = absurd (cc)
    quiet_after w signals r (inl idle) = elim (ref-cases r w.index) [
      | inl here ↦ inr (inr (ap (λ x. some x) (w.points ∙ sym here)))
      | inr other ↦ inl (holds_request-other w r other ∙ idle)
    ]

-- A store with other signals.
pub signals-IsWired :
    (refs : List QueueRef) (st : Store ℕ) (n : ℕ)
    → IsWired refs st
    → IsWired refs (record st { signals = n })
signals-IsWired refs st n wired = record { queues = wired.queues; pointers = wired.pointers }
