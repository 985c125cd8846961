-- ===== src/Scheduler/Waits.antt =====
-- What Bind reports once the request is created.
use kombiner.Prelude.{
  ℕ, ◌≡◌, ◌≢◌, refl, ◌∙◌, String, ◌∷◌, true, false, none, some, arith, ◌==◌, string_eq, eq_iff,
  if◌then◌else◌, value,
}
use kombiner.Api.Placement.{PlacementRequest, result_unknown, result_success}
use kombiner.Api.Scheduler.{PlacementRequestBinderArgs}
use kombiner.Cluster.{
  Cluster, Log, Answer, found, failed, get_request, create_request, delete_request,
}
use kombiner.Scheduler.{
  Pod, Framework, Session, Condition, judge, request_for, delete_existing, create_after,
  is_resolved, report, wait_for, submit, bind,
}

-- Rounds of a poll that were not done and had no error.
pub data Rounds (f : Condition) (s : Session) : Session → Type 0 where
  first : Rounds f s s
  again : {s1 s2 : Session} → Rounds f s s1 → f s1 ≡ ((false, none), s2) → Rounds f s s2

-- What the wait package says of a poll that returns no error: after such rounds, the condition held.
abbrev pub PollsUntilDone : Framework → Type 0
PollsUntilDone fw =
    (timeout : ℕ) (f : Condition) (s s' : Session)
    → fw.poll timeout f s ≡ (none, s')
    → (s1 : Session) × Rounds f s s1 × (f s1 ≡ ((true, none), s'))

-- The condition holds only of an answer of the API with a result.
judge-true :
    (s s' : Session) (calls : Log) (a : Answer PlacementRequest)
    → judge s calls a ≡ ((true, none), s')
    → (a ≡ found s'.request) × (s'.request.status.result ≢ result_unknown)
unfolding judge
judge-true s s' calls (failed err) e = absurd (ground arith)
judge-true s s' calls (found pr) e =
    (ground arith, ground (arith, eq_iff pr.status.result result_unknown))

module _ (fw : Framework) (c : Cluster) (args : PlacementRequestBinderArgs) (pod : Pod)
    (node : String) (log log1 : Log) (timeout : ℕ) where
  -- The session in which the poll starts.
  abbrev pub start : Session
  start = record {
    log = create_request (request_for fw pod node) ∷ log1;
    request = request_for fw pod node;
  }

  -- Bind comes to its poll: the pod has a UID, an old request is out of the way, and the new request
  -- is created.
  pub record IsWaiting : Type 0 where
    pub named : pod.uid ≢ ""
    pub cleared : delete_existing fw c pod.namespace pod.uid log ≡ (none, log1)
    pub created : c.create_error log1 (request_for fw pod node) ≡ none
    pub bounded : args.timeout ≡ some timeout

  bind-waits :
      IsWaiting
      → bind fw c args pod node log ≡ value (wait_for fw c pod.namespace pod.uid timeout start)
  unfolding bind request_for create_after submit
  bind-waits w =
      let uid : (pod.uid == "") ≡ false = ground (arith, w.named, eq_iff pod.uid "") in
      rw uid (rw (w.cleared) (rw (w.created, submit) (rw (w.bounded) refl)))

  -- If the poll of a waiting Bind returns without an error, Bind reports the request that the API gave
  -- last, which has a result: success with its message if the result is Success, and otherwise an
  -- error with its message. No further call is made.
  pub bind-reports :
      (s' : Session)
      → PollsUntilDone fw
      → IsWaiting
      → fw.poll timeout (is_resolved fw c pod.namespace pod.uid) start ≡ (none, s')
      → (bind fw c args pod node log
          ≡ value (
            (if s'.request.status.result == result_success
                then fw.success s'.request.status.message
                else fw.as_status (some (s'.request.status.message))),
            s'.log,
          ))
        × (s'.request.status.result ≢ result_unknown)
        × (older : Log) × (c.request_of older pod.namespace pod.uid ≡ found s'.request)
  unfolding wait_for report
  bind-reports s' laws w done =
      let (s1, rounds, held) =
        laws timeout (is_resolved fw c pod.namespace pod.uid) start s' done in
      let (answer, known) =
        judge-true s1 s' (get_request pod.namespace pod.uid ∷ s1.log)
          (c.request_of s1.log pod.namespace pod.uid) (unfold is_resolved in held) in
      (bind-waits w ∙ rw done refl, known, s1.log, answer)

  -- If the poll of a waiting Bind ends in an error, by a timeout or a failed read, and the request is
  -- then deleted without an error, Bind returns the status of no error at all, whatever the error was.
  pub bind-forgets_error :
      (err : String) (s' : Session)
      → IsWaiting
      → fw.poll timeout (is_resolved fw c pod.namespace pod.uid) start ≡ (some err, s')
      → c.delete_error s'.log pod.namespace pod.uid ≡ none
      → bind fw c args pod node log
        ≡ value (fw.as_status none, delete_request pod.namespace pod.uid ∷ s'.log)
  unfolding wait_for report
  bind-forgets_error err s' w ended deleted = bind-waits w ∙ rw ended (rw deleted refl)
