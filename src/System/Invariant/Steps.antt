-- ===== src/System/Invariant/Steps.antt =====
-- Every step keeps the invariant.
use kombiner.Prelude.{
  All-map, ℕ, zero, suc, ◌<◌, ◌≡◌, refl, sym, subst, List, [], ◌∷◌, inl, inr, Option, none, some,
  All, value, ◌∙◌, value-injective,
}
use kombiner.Api.Placement.{PlacementRequest}
use kombiner.Queue.PlacementRequest.{PlacementRequestQueue, run_handlers}
use kombiner.Queue.Store.{Store, QueueRef, deref?, queue_len}
use kombiner.Queue.Config.{QueueConfigs}
use kombiner.Queue.Access.{
  Access, done, ask_len, ask_pop, draw, fail, Round, served, again, Reader, Among,
}
use kombiner.Queue.Access.Covers.{Among-All}
use kombiner.System.{
  Phase, starting, reading, sending, waiting, ended, failed, State, Step, Reach, here, next, after,
  stop, begin, break_down, look, take, roll, look_down, take_down, abort, return, hand_over, drop,
  wake, wake_to_stop, schedule, receive_nil, leave, insert, notify, cancel,
}
use kombiner.System.Invariant.{refs_of, Laws, Wakes, IsWired, Quiet, Holds, Inv}
use kombiner.System.Invariant.Returns.{look_down-absurd, take_down-absurd}
use kombiner.System.Invariant.Stores.{
  look-Quiet, Took, queue_pop-Took, queue_push-Inserted, signals-IsWired,
}

-- All queues are quiet when those found empty are all.
All-seen :
    (P : QueueRef → Type 0) (seen refs : List QueueRef)
    → All P seen
    → All (λ ref. Among ref seen) refs
    → All P refs
All-seen P seen refs h known = All-map refs (λ ref a. Among-All P seen ref h a) known

module _ {reader : Reader} {configs : QueueConfigs} (laws : Laws reader configs) where
  -- What holds of an iterator stays true while the queues become no less quiet.
  Holds-mono :
      (st st' : Store ℕ) {p p' : Option QueueRef} (phase : Phase reader.State)
      → ((r : QueueRef) → Quiet st p r → Quiet st' p' r)
      → Holds laws st p phase
      → Holds laws st' p' phase
  Holds-mono st st' starting mono h = tt
  Holds-mono st st' (reading t) mono (inl (seen, quiet, checks)) =
      inl (seen, All-map seen mono quiet, checks)
  Holds-mono st st' (reading t) mono (inr has) = inr has
  Holds-mono st st' (sending pr r) mono h = h
  Holds-mono st st' waiting mono h = All-map (refs_of configs) mono h
  Holds-mono st st' ended mono h = tt
  Holds-mono st st' failed mono h = h

  module _ (st : Store ℕ) (p : Option QueueRef) where
    abbrev pub At : Phase reader.State → Type 0
    At = Holds laws st p

    reading_good : (r : reader.State) → laws.Good r → At (reading (reader.round r))
    reading_good r good = inl ([], tt, laws.checks r good)

    after-Holds :
        (result : Round reader.State) → At (reading (done result)) → At (after reader.round result)
    after-Holds (served none r) (inl (seen, quiet, checks)) =
        All-seen (Quiet st p) seen (refs_of configs) quiet checks
    after-Holds (served (some pr) r) (inl (seen, quiet, checks)) = absurd checks
    after-Holds (again r) (inl (seen, quiet, good)) = reading_good r good
    after-Holds (served none r) (inr (pr, r', e, good)) = absurd (cc)
    after-Holds (served (some pr) r) (inr (pr', r', e, good)) =
        let same : r' ≡ r = cc in subst laws.Good same good
    after-Holds (again r) (inr (pr, r', e, good)) = absurd (cc)

    look-Holds :
        (ref : QueueRef) (k : ℕ → Access (Round reader.State)) (n : ℕ)
        → queue_len st ref ≡ value n
        → At (reading (ask_len ref k))
        → At (reading (k n))
    look-Holds ref k zero e (inl (seen, quiet, (listed, empty, busy))) =
        inl (ref ∷ seen, (look-Quiet st p ref e, quiet), empty)
    look-Holds ref k (suc n) e (inl (seen, quiet, (listed, empty, busy))) =
        inl (seen, quiet, busy n)
    look-Holds ref k n e (inr (pr, r, same, good)) = absurd (cc)

    take-Holds :
        (ref : QueueRef) (k : Option PlacementRequest → Access (Round reader.State))
        (o : Option PlacementRequest) (st' : Store ℕ)
        → Took (refs_of configs) st ref o st'
        → At (reading (ask_pop ref k))
        → Holds laws st' p (reading (k o))
    take-Holds ref k none st' took (inl (seen, quiet, (listed, empty, found))) =
        inl (ref ∷ seen, (took.found_none refl p, All-map seen (took.quiet p) quiet), empty)
    take-Holds ref k (some pr) st' took (inl (seen, quiet, (listed, empty, found))) =
        let (r, gives, good) = found pr in inr (pr, r, gives, good)
    take-Holds ref k o st' took (inr (pr, r, same, good)) = absurd (cc)

    roll-Holds :
        (n : ℕ) (k : ℕ → Access (Round reader.State)) (j : ℕ)
        → j < n
        → At (reading (draw n k))
        → At (reading (k j))
    roll-Holds n k j below (inl (seen, quiet, (pos, all))) = inl (seen, quiet, all j below)
    roll-Holds n k j below (inr (pr, r, same, good)) = absurd (cc)

    pub fail-absurd : At (reading fail) → ⊥
    fail-absurd (inl (seen, quiet, h)) = h
    fail-absurd (inr (pr, r, same, good)) = cc

  pub made_good : (r : reader.State) → reader.make configs ≡ value r → laws.Good r
  made_good r made =
      let (r', makes, good) = laws.makes in
      let same : r' ≡ r = value-injective (sym makes ∙ made) in subst laws.Good same good

  pub at_phase :
      {s : State reader configs} (phase : Phase reader.State)
      → Inv laws s
      → s.iterator ≡ phase
      → Holds laws s.store s.pushing phase
  at_phase {s} phase inv e = subst (λ ph. Holds laws s.store s.pushing ph) e inv.holds

  pub Step-Inv : {s t : State reader configs} → Step reader configs s t → Inv laws s → Inv laws t
  Step-Inv (stop at c) inv = record { wired = inv.wired; holds = tt }
  Step-Inv {s} (begin {r} at c made) inv = record {
    wired = inv.wired;
    holds = reading_good s.store s.pushing r (made_good r made);
  }
  Step-Inv (break_down at c breaks) inv = absurd (let makes = laws.makes.1 in cc)
  Step-Inv {s} (look {ref} {k} {n} at open_ e) inv = record {
    wired = inv.wired;
    holds = look-Holds s.store s.pushing ref k n e (at_phase (reading (ask_len ref k)) inv at);
  }
  Step-Inv {s} (look_down {ref} {k} at open_ e) inv =
      let here_ = at_phase (reading (ask_len ref k)) inv at in
      absurd (look_down-absurd laws s.store s.pushing ref k inv.wired here_ e)
  Step-Inv {s} (take_down {ref} {k} at open_ e) inv =
      let here_ = at_phase (reading (ask_pop ref k)) inv at in
      absurd (take_down-absurd laws s.store s.pushing ref k inv.wired here_ e)
  Step-Inv {s} (take {ref} {k} {o} {st} at open_ e) inv =
      let took = queue_pop-Took (refs_of configs) s.store st ref o inv.wired e in
      record {
        wired = took.wired;
        holds =
            take-Holds s.store s.pushing ref k o st took
              (at_phase (reading (ask_pop ref k)) inv at);
      }
  Step-Inv {s} (roll {n} {k} j at below) inv = record {
    wired = inv.wired;
    holds = roll-Holds s.store s.pushing n k j below (at_phase (reading (draw n k)) inv at);
  }
  Step-Inv {s} (abort at) inv =
      absurd (fail-absurd s.store s.pushing (at_phase (reading fail) inv at))
  Step-Inv {s} (return {result} at) inv = record {
    wired = inv.wired;
    holds = after-Holds s.store s.pushing result (at_phase (reading (done result)) inv at);
  }
  Step-Inv {s} (hand_over {pr} {r} at ready) inv = record {
    wired = inv.wired;
    holds = reading_good s.store s.pushing r (at_phase (sending pr r) inv at);
  }
  Step-Inv {s} (drop {pr} {r} at c) inv = record {
    wired = inv.wired;
    holds = reading_good s.store s.pushing r (at_phase (sending pr r) inv at);
  }
  Step-Inv {s} (wake {n} at e) inv = record {
    wired = signals-IsWired (refs_of configs) s.store n inv.wired;
    holds = tt;
  }
  Step-Inv (wake_to_stop at c) inv = record { wired = inv.wired; holds = tt }
  Step-Inv (schedule at) inv = record { wired = inv.wired; holds = inv.holds }
  Step-Inv (receive_nil at ready) inv = record { wired = inv.wired; holds = inv.holds }
  Step-Inv (leave at c) inv = record { wired = inv.wired; holds = inv.holds }
  Step-Inv {s} (insert {ref} {st} pr free e) inv =
      let inserted = queue_push-Inserted (refs_of configs) s.store st ref pr inv.wired e in
      record {
        wired = inserted.wired;
        holds =
            Holds-mono s.store (record st { signals = s.store.signals }) s.iterator inserted.quiet
              (subst (λ p. Holds laws s.store p s.iterator) free inv.holds);
      }
  Step-Inv {s} (notify {ref} {q} held at) inv =
      let n = run_handlers q.push_handlers s.store.signals in
      let rung : 0 < n = wakes s.store ref q inv.wired at s.store.signals in
      record {
        wired = signals-IsWired (refs_of configs) s.store n inv.wired;
        holds =
            Holds-mono s.store (record (s.store) { signals = n }) s.iterator
              (λ r quiet. inr (inl rung)) inv.holds;
      }
    where
      wakes :
          (st : Store ℕ) (r : QueueRef) (q : PlacementRequestQueue ℕ)
          → IsWired (refs_of configs) st
          → deref? st r ≡ some q
          → Wakes q
      wakes st none q wired e = absurd (cc)
      wakes st (some k) q wired e = (wired.queues k q e).1
  Step-Inv cancel inv = record { wired = inv.wired; holds = inv.holds }

  -- The queues at the start are empty or not; what counts is that they are wired.
  pub Reach-Inv :
      {st : Store ℕ} {s : State reader configs}
      → IsWired (refs_of configs) st
      → Reach reader configs st s
      → Inv laws s
  Reach-Inv wired here = record { wired = wired; holds = tt }
  Reach-Inv wired (next r step) = Step-Inv step (Reach-Inv wired r)
