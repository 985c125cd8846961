-- ===== src/System/Shutdown.antt =====
-- What the end of the context changes.
use kombiner.Prelude.{ℕ, ◌≡◌, ◌≢◌, refl, [], false, none, some}
use kombiner.Queue.Store.{Store}
use kombiner.Queue.Config.{QueueConfigs}
use kombiner.Queue.Access.{Access, Round, Reader, served, again}
use kombiner.System.{
  Phase, waiting, ended, receiving, left, crashed, State, Step, Reach, here, next, Steps, stay,
  go_on, after, stop, begin, break_down, look, look_down, take, take_down, roll, abort, return,
  hand_over, drop, wake, wake_to_stop, schedule, receive_nil, leave, insert, notify, cancel,
}

after-ended :
    {R : Type 0} (rounds : R → Access (Round R)) (result : Round R) → after rounds result ≢ ended
after-ended rounds (served none r) = λ e. cc
after-ended rounds (served (some pr) r) = λ e. cc
after-ended rounds (again r) = λ e. cc

module _ (reader : Reader) (configs : QueueConfigs) where
  -- Of a state in which the context is not done.
  pub record IsRunning (s : State reader configs) : Type 0 where
    pub dropped : s.dropped ≡ []
    pub iterator : s.iterator ≢ ended
    pub stays : s.controller ≢ left
    pub lives : s.controller ≢ crashed

  abbrev Unless : State reader configs → Type 0
  Unless s = s.cancelled ≡ false → IsRunning s

  unended :
      (s : State reader configs) (phase : Phase reader.State)
      → phase ≢ ended
      → IsRunning s
      → IsRunning (record s { iterator = phase })
  unended s phase h r = record {
    dropped = r.dropped;
    iterator = h;
    stays = r.stays;
    lives = r.lives;
  }

  Step-IsRunning : {s t : State reader configs} → Step reader configs s t → Unless s → Unless t
  Step-IsRunning (stop at c) r f = absurd (cc)
  Step-IsRunning {s} (begin at c m) r f = unended s _ (λ e. cc) (r f)
  Step-IsRunning {s} (break_down at c m) r f = unended s _ (λ e. cc) (r f)
  Step-IsRunning {s} (look at free e) r f = unended s _ (λ e. cc) (r f)
  Step-IsRunning {s} (look_down at free e) r f = unended s _ (λ e. cc) (r f)
  Step-IsRunning {s} (take_down at free e) r f = unended s _ (λ e. cc) (r f)
  Step-IsRunning {s} (take at free e) r f =
      let q = r f in
      record { dropped = q.dropped; iterator = λ e. cc; stays = q.stays; lives = q.lives }
  Step-IsRunning {s} (roll j at h) r f = unended s _ (λ e. cc) (r f)
  Step-IsRunning {s} (abort at) r f = unended s _ (λ e. cc) (r f)
  Step-IsRunning {s} (return {result} at) r f = unended s _ (after-ended reader.round result) (r f)
  Step-IsRunning (hand_over at ready) r f = record {
    dropped = (r f).dropped;
    iterator = λ e. cc;
    stays = λ e. cc;
    lives = λ e. cc;
  }
  Step-IsRunning (drop at c) r f = absurd (cc)
  Step-IsRunning (wake at e) r f =
      let q = r f in
      record { dropped = q.dropped; iterator = λ e. cc; stays = q.stays; lives = q.lives }
  Step-IsRunning (wake_to_stop at c) r f = absurd (cc)
  Step-IsRunning (schedule at) r f =
      let q = r f in
      record { dropped = q.dropped; iterator = q.iterator; stays = λ e. cc; lives = λ e. cc }
  Step-IsRunning (receive_nil at ready) r f = absurd ((r f).iterator at)
  Step-IsRunning (leave at c) r f = absurd (cc)
  Step-IsRunning (insert pr free e) r f =
      let q = r f in
      record { dropped = q.dropped; iterator = q.iterator; stays = q.stays; lives = q.lives }
  Step-IsRunning (notify h a) r f =
      let q = r f in
      record { dropped = q.dropped; iterator = q.iterator; stays = q.stays; lives = q.lives }
  Step-IsRunning cancel r f = absurd (cc)

  -- As long as the context is not done, no request is dropped, the iterator does not end, and the
  -- controller neither returns nor is handed a nil request.
  pub Reach-IsRunning :
      (st : Store ℕ) (s : State reader configs)
      → Reach reader configs st s
      → s.cancelled ≡ false
      → IsRunning s
  Reach-IsRunning st s here f = record {
    dropped = refl;
    iterator = λ e. cc;
    stays = λ e. cc;
    lives = λ e. cc;
  }
  Reach-IsRunning st s (next {s = before} reach step) f =
      Step-IsRunning step (Reach-IsRunning st before reach) f

  -- Once the context ends, the controller may crash: from every state in which the iterator waits and the
  -- controller receives, there are steps to one in which ScheduleOne is called on a nil request.
  pub shutdown_may_crash :
      (s : State reader configs)
      → s.iterator ≡ waiting
      → s.controller ≡ receiving
      → (t : State reader configs) × Steps reader configs s t × (t.controller ≡ crashed)
  shutdown_may_crash s at ready = (
    _,
    go_on (go_on (go_on (go_on stay cancel) (wake_to_stop at refl)) (stop refl refl))
        (receive_nil refl ready),
    refl,
  )
