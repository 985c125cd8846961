-- ===== src/System/Tests.antt =====
-- Runs of the goroutines on small stores, and the theorems at concrete inputs.
use kombiner.Prelude.{
  ℕ, suc, Bool, ◌==◌, string_eq, count_of, ◌+◌, ◌≡◌, ◌≢◌, refl, [], ◌∷◌, inl, none, some, arith,
}
use kombiner.Api.Placement.{PlacementRequest}
use kombiner.Queue.PlacementRequest.{len}
use kombiner.Queue.RoundRobin.{RoundRobinReader}
use kombiner.Queue.RoundRobin.Rounds.{round_robin}
use kombiner.Queue.Config.{QueueConfig}
use kombiner.Queue.Uniform.{Rand}
use kombiner.System.{starting, State, Step, Reach, next, Steps, failed, crashed, wake}
use kombiner.Queue.RoundRobin.Choice.{holds_request}
use kombiner.System.Program.{started-wakes, started-never_fails}
use kombiner.Queue.Uniform.{UniformReader}
use kombiner.System.Wakeups.{no_lost_wakeup}
use kombiner.System.Progress.{iterator-Moves, Moves}
use kombiner.System.Requests.{requests_conserved, total}
use kombiner.System.Requests.Tally.{tally}
use kombiner.System.Shutdown.{Reach-IsRunning, IsRunning, shutdown_may_crash}
use kombiner.System.Samples.{
  idle, config, configs, laws, has_request, configuration, no_queues, controller, idle-IsWired,
  has_request-Reach, created_on_idle,
}

no_lost_wakeup_example :
    (t : State round_robin configs) × Step round_robin configs has_request t
    × (t.iterator ≡ starting)
    × (has_request.store.signals ≡ suc t.store.signals)
unfolding holds_request len
no_lost_wakeup_example =
    no_lost_wakeup round_robin configs laws idle has_request (some 0) idle-IsWired has_request-Reach
      refl (inl refl) refl (λ e. cc)

started-never_fails_example : has_request.iterator ≢ failed
started-never_fails_example =
    started-never_fails (λ name. name) none no_queues idle configuration controller has_request refl
      (λ e. cc) (omega arith, tt) (omega arith) created_on_idle has_request-Reach

-- The iterator has taken the signal.
abbrev restarted : State round_robin configs
restarted = record has_request {
  iterator = starting;
  store = record (has_request.store) { signals = 0 };
}

restarted-Reach : Reach round_robin configs idle restarted
restarted-Reach = next has_request-Reach (wake refl refl)

iterator-Moves_example : Moves round_robin configs restarted
iterator-Moves_example =
    iterator-Moves round_robin configs laws idle restarted idle-IsWired restarted-Reach refl
      (inl refl)

named : PlacementRequest → Bool
named pr = pr.meta.name == "r"

requests_conserved_example :
    total named has_request ≡ tally named idle.queues + count_of named has_request.pushed
requests_conserved_example =
    requests_conserved named laws idle has_request idle-IsWired has_request-Reach

Reach-IsRunning_example : IsRunning round_robin configs has_request
Reach-IsRunning_example =
    Reach-IsRunning round_robin configs idle has_request has_request-Reach refl

shutdown_may_crash_example :
    (t : State round_robin configs) × Steps round_robin configs has_request t
    × (t.controller ≡ crashed)
shutdown_may_crash_example = shutdown_may_crash round_robin configs has_request refl refl

-- The generator is not asked by this reader.
abbrev unused : Rand ℕ
unused = record { intn = λ n g. (0, g) }

abbrev reader : RoundRobinReader
reader = record {
  configs = record { config = config; maximum_bindings = 10; bindings_read = 0 } ∷ [];
}

abbrev heavier : QueueConfig
heavier = record config { queue = record (config.queue) { weight = 12 } }

abbrev uniform_reader : UniformReader
uniform_reader = record { configs = configs }

started-wakes_example :
    (t : State round_robin configs) × Step round_robin configs has_request t
    × (t.iterator ≡ starting)
    × (has_request.store.signals ≡ suc t.store.signals)
unfolding holds_request len
started-wakes_example =
    started-wakes (λ name. name) none no_queues idle configuration controller has_request (some 0)
      refl (λ e. cc) (omega arith, tt) (omega arith) created_on_idle has_request-Reach refl
      (inl refl) refl (λ e. cc)
