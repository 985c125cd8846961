-- ===== src/Queue/RoundRobin/Rounds.antt =====
-- One call of the round-robin Read, access by access.
use kombiner.Prelude.{
  ℕ, ◌+◌, List, [], ◌∷◌, Bool, true, false, Option, none, some, ltb, if◌then◌else◌, length,
  get_elem?, set, Outcome, value, panic, exhausted,
}
use kombiner.Api.Placement.{PlacementRequest}
use kombiner.Queue.Access.{Access, done, ask_len, ask_pop, fail, Round, served, again, Reader}
use kombiner.Queue.RoundRobin.{ExtendedQueueConfig, RoundRobinReader, pick, new_round_robin_reader}

-- `empty`, and what follows it.
unfoldable pub empty_then : {A : Type 0} → List ExtendedQueueConfig → (Bool → Access A) → Access A
empty_then [] k = k true
empty_then (cfg ∷ cfgs) k =
    let rest = empty_then cfgs k in
    ask_len cfg.config.queue_ref λ n. if ltb 0 n then k false else rest

-- After the Pop.
unfoldable pub settle :
    ℕ
    → RoundRobinReader
    → ExtendedQueueConfig
    → Option PlacementRequest
    → Access (Round RoundRobinReader)
settle i r cfg (some pr) =
    let count = cfg.bindings_read + length pr.spec.bindings in
    done (
      served (some pr)
        (record { configs = set r.configs i (record cfg { bindings_read = count }) }))
settle i r cfg none =
    let spent = record cfg { bindings_read = cfg.maximum_bindings } in
    done (again (record { configs = set r.configs i spent }))

unfoldable pub pop_at :
    ℕ → RoundRobinReader → Option ExtendedQueueConfig → Access (Round RoundRobinReader)
unfolding settle
pop_at i r none = fail
pop_at i r (some cfg) = ask_pop cfg.config.queue_ref (settle i r cfg)

unfoldable pub picked : Outcome (ℕ × RoundRobinReader) → Access (Round RoundRobinReader)
unfolding pop_at
picked (value (i, r)) = pop_at i r (get_elem? r.configs i)
picked panic = fail
picked exhausted = fail

unfoldable pub after_empty : RoundRobinReader → Bool → Access (Round RoundRobinReader)
unfolding picked pick
after_empty r true = done (served none r)
after_empty r false = picked (pick r)

unfoldable pub round : RoundRobinReader → Access (Round RoundRobinReader)
unfolding empty_then after_empty
round r = empty_then r.configs (after_empty r)

abbrev pub round_robin : Reader
round_robin = record { State = RoundRobinReader; make = new_round_robin_reader; round = round }
