-- ===== src/Queue/Uniform/Rounds.antt =====
-- One call of the uniform Read, access by access.
use kombiner.Prelude.{
  ℕ, zero, suc, ◌+◌, ◌%◌, ◌^◌, Option, none, some, if◌then◌else◌, length, get_elem?, value,
}
use kombiner.Api.Placement.{PlacementRequest}
use kombiner.Queue.Config.{QueueConfig, QueueConfigs}
use kombiner.Queue.Access.{Access, done, ask_pop, draw, fail, Round, served, Reader}
use kombiner.Queue.Uniform.{
  UniformReader, delete, total_from, slot_from, is_positive, new_uniform_reader,
}

-- What follows the Pop: `rest` is the next round of the loop.
unfoldable pub found :
    UniformReader
    → Access (Round UniformReader)
    → Option PlacementRequest
    → Access (Round UniformReader)
found u rest (some pr) = done (served (some pr) u)
found u rest none = rest

unfoldable pub pop_from :
    UniformReader → Access (Round UniformReader) → Option QueueConfig → Access (Round UniformReader)
unfolding found
pop_from u rest none = fail
pop_from u rest (some cfg) = ask_pop cfg.queue_ref (found u rest)

-- From the index that `next` returns; without one it panics.
unfoldable pub chosen :
    UniformReader
    → QueueConfigs
    → (ℕ → Access (Round UniformReader))
    → Option ℕ
    → Access (Round UniformReader)
unfolding pop_from
chosen u cfgs rest none = fail
chosen u cfgs rest (some i) = pop_from u (rest i) (get_elem? cfgs i)

-- The loop of Read, with the rounds that are left.
unfoldable pub round_loop : ℕ → UniformReader → QueueConfigs → Access (Round UniformReader)
unfolding chosen total_from slot_from delete
round_loop zero u cfgs = done (served none u)
round_loop (suc n) u cfgs =
    let rest = λ (i : ℕ). round_loop n u (delete i cfgs) in
    let total = total_from 0 cfgs in
    if is_positive total
    then draw total (λ (k : ℕ). chosen u cfgs rest (slot_from ((k + 1) % 2 ^ 64) 0 cfgs))
    else fail

unfoldable pub round : UniformReader → Access (Round UniformReader)
unfolding round_loop
round u = round_loop (length u.configs) u u.configs

abbrev pub uniform : Reader
uniform = record {
  State = UniformReader;
  make = λ cfgs. value (new_uniform_reader cfgs);
  round = round;
}
