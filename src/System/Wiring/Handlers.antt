-- ===== src/System/Wiring/Handlers.antt =====
-- The queues that configs_from allocates, and the handlers that add_push_handler gives them.
use kombiner.Prelude.{
  ℕ, zero, suc, ◌≤◌, ◌<◌, ◌≡◌, ◌∙◌, refl, sym, ap, subst, List, [], ◌∷◌, ◌++◌, some, arith, inl,
  inr, ◌⊎◌, length, length-append, length-set, get_elem?, get_elem?_lt, get_elem?-inside, set, All,
  Bool-cases, ltb, Yields, yields, Yields-bind, Yields-map,
}
use kombiner.Api.Config.{Queue}
use kombiner.Queue.PlacementRequest
use kombiner.Queue.PlacementRequest.{PlacementRequestQueue, run_handlers}
use kombiner.Queue.PlacementRequest.Contents.{IsValid, new_placement_request_queue-IsValid}
use kombiner.Queue.Store.{Store, QueueRef, alloc_queue, queue_add_push_handler}
use kombiner.Queue.Config.{QueueConfig, QueueConfigs, add_push_handler, configs_from}
use kombiner.Queue.Access.{Among}
use kombiner.Queue.Iterator.{resume}
use kombiner.Controller.New.Accepts.{IsAllocated, All-grows}
use kombiner.System.Invariant.{refs_of, Wakes, IsWired}

module _ {A : Type 0} where
  last-cases :
      (xs : List A) (x y : A) (k : ℕ)
      → get_elem? (xs ++ x ∷ []) k ≡ some y
      → (get_elem? xs k ≡ some y) ⊎ (x ≡ y)
  last-cases [] x y zero e = inr (cc)
  last-cases [] x y (suc k) e = absurd (cc)
  last-cases (z ∷ xs) x y zero e = inl e
  last-cases (z ∷ xs) x y (suc k) e = last-cases xs x y k e

  set-cases :
      (xs : List A) (j k : ℕ) (v y : A)
      → get_elem? (set xs j v) k ≡ some y
      → ((k ≡ j) × (v ≡ y)) ⊎ (get_elem? xs k ≡ some y)
  set-cases [] j k v y e = inr e
  set-cases (x ∷ xs) zero zero v y e = inl (refl, cc)
  set-cases (x ∷ xs) zero (suc k) v y e = inr e
  set-cases (x ∷ xs) (suc j) zero v y e = inr e
  set-cases (x ∷ xs) (suc j) (suc k) v y e = elim (set-cases xs j k v y e) [
    | inl (at, same) ↦ inl (ap suc at, same)
    | inr other ↦ inr other
  ]

  set_there :
      (xs : List A) (j : ℕ) (v : A) {x : A}
      → get_elem? xs j ≡ some x
      → get_elem? (set xs j v) j ≡ some v
  set_there [] j v e = absurd (cc)
  set_there (x ∷ xs) zero v e = refl
  set_there (x ∷ xs) (suc j) v e = set_there xs j v e

  some_inj : {x y : A} → some x ≡ some y → x ≡ y
  some_inj e = cc

abbrev pub AllValid : Store ℕ → Type 0
AllValid st = (k : ℕ) (q : PlacementRequestQueue ℕ) → get_elem? st.queues k ≡ some q → IsValid q

abbrev IsAwake : Store ℕ → ℕ → Type 0
IsAwake st k = (q : PlacementRequestQueue ℕ) → get_elem? st.queues k ≡ some q → Wakes q

alloc_queue-AllValid :
    (st : Store ℕ)
    → AllValid st
    → Yields
        (λ r.
          (r.0 ≡ some (length st.queues))
          × (length r.1.queues ≡ suc (length st.queues))
          × AllValid r.1)
        (alloc_queue st)
unfolding alloc_queue
alloc_queue-AllValid st all =
    Yields-bind new_placement_request_queue-IsValid λ fresh (valid, size, none_yet). yields (
      refl,
      omega (arith, length-append st.queues (fresh ∷ [])),
      (λ k q at. elim (last-cases st.queues fresh q k at) [
        | inl old ↦ all k q old
        | inr same ↦ subst (λ (x : PlacementRequestQueue ℕ). IsValid x) same valid
      ]),
    )

-- The configs lead to every queue that is new.
pub configs_from-AllValid :
    (st : Store ℕ) (queues : List Queue)
    → AllValid st
    → Yields
        (λ r.
          AllValid r.1
          × ((k : ℕ) → length st.queues ≤ k → k < length r.1.queues → Among (some k) (refs_of r.0)))
        (configs_from st queues)
unfolding configs_from
configs_from-AllValid st [] all = yields (all, (λ k h h'. absurd (omega arith)))
configs_from-AllValid st (queue ∷ queues) all =
    Yields-bind (alloc_queue-AllValid st all) λ (ref, st1) (points, size, all1).
      Yields-bind (configs_from-AllValid st1 queues all1) λ (configs, st2) (all2, covers). yields (
        all2,
        (λ k h h'. elim (Bool-cases (ltb (length st.queues) k)) [
          | inl more ↦ inr (covers k (ground arith) h')
          | inr less ↦ let at : k ≡ length st.queues = ground arith in inl (ap some at ∙ sym points)
        ]),
      )

-- A handler that was added last leaves a signal, whatever the others do.
resume-Wakes : (hs : List (ℕ → ℕ)) (n : ℕ) → 0 < run_handlers (hs ++ resume ∷ []) n
unfolding run_handlers resume
resume-Wakes [] n = ground arith
resume-Wakes (h ∷ hs) n = resume-Wakes hs (h n)

record Woken (st : Store ℕ) (refs : List QueueRef) (st' : Store ℕ) : Type 0 where
  all : AllValid st'
  size : length st'.queues ≡ length st.queues
  stays : (k : ℕ) → IsAwake st k → IsAwake st' k
  wakes : (k : ℕ) → Among (some k) refs → IsAwake st' k

set-Woken :
    (st : Store ℕ) (ref : QueueRef) (j : ℕ) (q : PlacementRequestQueue ℕ)
    → AllValid st
    → ref ≡ some j
    → get_elem? st.queues j ≡ some q
    → Woken st
        (ref ∷ [])
        (record st { queues = set st.queues j (PlacementRequest.add_push_handler q resume) })
unfolding PlacementRequest.add_push_handler
set-Woken st ref j q all points found =
    let q' = PlacementRequest.add_push_handler q resume in
    record {
      all = λ k x at. elim (set-cases st.queues j k q' x at) [
        | inl (here, same) ↦ subst (λ (y : PlacementRequestQueue ℕ). IsValid y) same (all j q found)
        | inr other ↦ all k x other
      ];
      size = length-set st.queues j q';
      stays = λ k awake x at. elim (set-cases st.queues j k q' x at) [
        | inl (here, same) ↦ subst Wakes same (resume-Wakes q.push_handlers)
        | inr other ↦ awake x other
      ];
      wakes = λ k listed x at. elim listed [
        | inl here ↦
            let same_index : k ≡ j = cc in
            let now = set_there st.queues j q' found in
            let same : q' ≡ x =
              some_inj
                (sym now ∙ subst (λ i. get_elem? (set st.queues j q') i ≡ some x) same_index at) in
            subst Wakes same (resume-Wakes q.push_handlers)
        | inr none_else ↦ absurd none_else
      ];
    }

queue_add_push_handler-Woken :
    (st : Store ℕ) (cfg : QueueConfig)
    → AllValid st
    → IsAllocated st cfg
    → Yields (Woken st (cfg.queue_ref ∷ [])) (queue_add_push_handler st cfg.queue_ref resume)
unfolding queue_add_push_handler
queue_add_push_handler-Woken st cfg all (j, points, low) =
    let (q, found) = get_elem?_lt st.queues j low in
    let woken = set-Woken st cfg.queue_ref j q all points found in
    let wakes =
      subst
        (λ ref.
          Woken st (ref ∷ [])
            (record st { queues = set st.queues j (PlacementRequest.add_push_handler q resume) }))
        points woken in
    rw points (rw found (yields wakes))

add_push_handler-Woken :
    (st : Store ℕ) (cfgs : QueueConfigs)
    → AllValid st
    → All (IsAllocated st) cfgs
    → Yields (Woken st (refs_of cfgs)) (add_push_handler st cfgs resume)
unfolding add_push_handler
add_push_handler-Woken st [] all h =
    yields (record { all = all; size = refl; stays = λ k a. a; wakes = λ k l. absurd l })
add_push_handler-Woken st (cfg ∷ cfgs) all h =
    Yields-bind (queue_add_push_handler-Woken st cfg all h.0) λ st1 w.
      Yields-map
        (add_push_handler-Woken st1 cfgs w.all (All-grows st st1 cfgs (omega (arith, w.size)) h.1))
        λ st2 v. record {
          all = v.all;
          size = v.size ∙ w.size;
          stays = λ k a. v.stays k (w.stays k a);
          wakes = λ k listed. elim listed [
            | inl here ↦ v.stays k (w.wakes k (inl here))
            | inr there ↦ v.wakes k there
          ];
        }

pointers_of :
    (st : Store ℕ) (cfgs : QueueConfigs)
    → All (IsAllocated st) cfgs
    → All (λ ref. (k : ℕ) × (ref ≡ some k) × (k < length st.queues)) (refs_of cfgs)
pointers_of st [] h = tt
pointers_of st (cfg ∷ cfgs) h = (h.0, pointers_of st cfgs h.1)

-- The configs lead to all queues, which are valid.
pub record Listed (cfgs : QueueConfigs) (st : Store ℕ) : Type 0 where
  pub all : AllValid st
  pub pointers : All (IsAllocated st) cfgs
  pub covers : (k : ℕ) → k < length st.queues → Among (some k) (refs_of cfgs)

pub add_push_handler-IsWired :
    (cfgs : QueueConfigs) (st : Store ℕ)
    → Listed cfgs st
    → Yields (IsWired (refs_of cfgs)) (add_push_handler st cfgs resume)
add_push_handler-IsWired cfgs st l =
    Yields-map (add_push_handler-Woken st cfgs l.all l.pointers) λ st' w. record {
      queues = λ k q at.
          let low = get_elem?-inside st'.queues k at in
          (w.all k q at, w.wakes k (l.covers k (omega (arith, low, w.size))) q at);
      pointers = pointers_of st' cfgs (All-grows st st' cfgs (omega (arith, w.size)) l.pointers);
    }
