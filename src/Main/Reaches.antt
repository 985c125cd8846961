-- ===== src/Main/Reaches.antt =====
-- When the program comes to the call of Run, and what its iterator then delivers.
use kombiner.Prelude.{
  ℕ, ◌≡◌, ◌↔◌, ◌<◌, ◌^◌, ◌∙◌, refl, ap, subst, String, List, [], true, false, Option, none, some,
  inr, All, value,
}
use kombiner.Api.Config.{Configuration}
use kombiner.Configuration.Accepts.{IsWellFormed}
use kombiner.Queue.Config.{lookup}
use kombiner.Queue.Access.{Among}
use kombiner.Queue.RoundRobin.Choice.{holds_request}
use kombiner.Queue.Store.{Store, QueueRef}
use kombiner.Queue.Iterator.{created}
use kombiner.Controller.New.{PlacementRequestController, new}
use kombiner.Clientset.{Clientset}
use kombiner.Clientset.Packages.{Config}
use kombiner.Clientset.Chains.{new_for_config-IsMade}
use kombiner.System.{State, Reach, waiting, receiving}
use kombiner.System.Invariant.{refs_of}
use kombiner.System.Delivery.{Delivers}
use kombiner.System.Program.{reader, configs, IsSmall, total_weight, started-Delivers}
use kombiner.Informers.{
  start, start_loop, start_one, informer_for, resync_period, new_shared_informer_factory,
  new_shared_informer_factory_with_options, apply_options,
}
use kombiner.Informers.Requests.{
  informer, lister, kombiner_group, v1alpha1, placement_requests, default_informer,
  new_filtered_placement_request_informer,
}
use kombiner.Main.{
  print_error, read_config, Environment, Running, ran, get_config, started, registered, with_client,
  with_agent, client_of, with_kube_config, with_config, main,
}
use kombiner.Main.Ran.{request_informer, IsServed, Connects, with_kube_config-Connects}
use kombiner.Main.Loads.{get_config_lem, get_config_same}

module _ (env : Environment) where
  -- What the program has come through before Run.
  pub record HasRun (config : Configuration) (kube_config : Option (Config env.rest)) (st : Store ℕ)
      (x : Running env.library) : Type 0 where
    pub well_formed : IsWellFormed config
    pub printed : print_error env config ≡ none
    pub cluster : Config env.rest
    pub found : kube_config ≡ some cluster
    pub client : Clientset env.rest
    pub connects : Connects env (with_agent env cluster) client
    pub served : IsServed env (env.as_interface client) config st x

  with_config-ran :
      (kube_config : Option (Config env.rest)) (st : Store ℕ) (x : Running env.library)
      (config : Configuration) (err : Option String)
      → with_config env kube_config st (config, err) ≡ value (ran x)
      → (err ≡ none)
        × (c : Config env.rest) × (kube_config ≡ some c)
        × (with_kube_config env config st (with_agent env c) ≡ value (ran x))
  unfolding with_config
  with_config-ran kube_config st x config (some err) e = absurd (cc)
  with_config-ran none st x config none e = absurd (cc)
  with_config-ran (some c) st x config none e = (refl, c, refl, e)

  -- If the program comes to the call of Run, and ToAggregate gives no error for exactly the empty list
  -- of field errors, then the file was read and decoded to a well-formed configuration that could be
  -- printed, the clients of Kubernetes and of the requests are made of the cluster's configuration with
  -- the program's user agent, New has created the controller from the configuration of the file, and
  -- the informer of the requests of all namespaces has taken the handlers, has been run, once and alone,
  -- and is the one that the controller's lister reads.
  pub main-HasRun :
      (path : String) (kube_config : Option (Config env.rest)) (st : Store ℕ)
      (x : Running env.library)
      → ((errs : List (env.field.Error)) → (env.field.to_aggregate errs ≡ none) ↔ (errs ≡ []))
      → main env path kube_config st ≡ value (ran x)
      → ((read_config env path).0 ≡ none) × HasRun (read_config env path).1 kube_config st x
  unfolding main
  main-HasRun path kube_config st x aggregates e =
      let got = get_config env path in
      let (fine, c, found, e1) = with_config-ran kube_config st x got.0 got.1 e in
      let (read, well, printed) = (get_config_lem env path aggregates).0 fine in
      let e2 =
        subst (λ config. with_kube_config env config st (with_agent env c) ≡ value (ran x))
          (get_config_same env path) e1 in
      let (client, connects, served) =
        with_kube_config-Connects env (read_config env path).1 st (with_agent env c) x e2 in
      (
        read,
        record {
          well_formed = well;
          printed = printed;
          cluster = c;
          found = found;
          client = client;
          connects = connects;
          served = served;
        },
      )

  with_client-runs :
      (prcli : env.library.Client) (config : Configuration) (st st' : Store ℕ)
      (c : PlacementRequestController)
      → env.add_event_handler (request_informer env prcli) ≡ none
      → new env.quote none st config ≡ value (created c, st')
      → (x : Running env.library) × (with_client env prcli config st ≡ value (ran x))
        × (x.controller ≡ c)
        × (x.store ≡ st')
  unfolding with_client registered started lister informer informer_for default_informer
      resync_period lookup kombiner_group v1alpha1 placement_requests
      new_filtered_placement_request_informer new_shared_informer_factory
      new_shared_informer_factory_with_options apply_options start start_loop start_one
  with_client-runs prcli config st st' c handled made =
      let taken = ap (λ o. new env.quote o st config) handled ∙ made in
      let (prlister, (i, f)) = registered env prcli in
      let x : Running env.library = record {
        controller = c;
        store = st';
        requests = prlister;
        factory = start f.informers f;
      } in
      (x, rw taken refl, refl, refl)

  with_kube_config-runs :
      {kubecli : env.Kube} (config : Configuration) (st : Store ℕ) (c : Config env.rest)
      (client : Clientset env.rest)
      → env.kubernetes_for c ≡ inr kubecli
      → client_of env c ≡ inr client
      → with_kube_config env config st c ≡ with_client env (env.as_interface client) config st
  unfolding with_kube_config
  with_kube_config-runs config st c client kube requests =
      rw (kube, requests, with_kube_config) refl

  -- The program does come to the call of Run, on the controller that New creates, when the file is read
  -- and decoded to a well-formed configuration that can be printed, the cluster's configuration is there,
  -- the clients are made of it, the informer takes the handlers and New creates a controller; it needs
  -- that ToAggregate gives no error for exactly the empty list of field errors.
  pub main-runs :
      (path : String) (cluster : Config env.rest) (client : Clientset env.rest) (st st' : Store ℕ)
      (c : PlacementRequestController)
      → ((errs : List (env.field.Error)) → (env.field.to_aggregate errs ≡ none) ↔ (errs ≡ []))
      → (read_config env path).0 ≡ none
      → IsWellFormed (read_config env path).1
      → print_error env (read_config env path).1 ≡ none
      → Connects env (with_agent env cluster) client
      → env.add_event_handler (request_informer env (env.as_interface client)) ≡ none
      → new env.quote none st (read_config env path).1 ≡ value (created c, st')
      → (x : Running env.library) × (main env path (some cluster) st ≡ value (ran x))
        × (x.controller ≡ c)
        × (x.store ≡ st')
  unfolding main with_config
  main-runs path cluster client st st' c aggregates read well printed connects handled made =
      let (x, ends, controller, store) =
        with_client-runs (env.as_interface client) (read_config env path).1 st st' c handled made in
      let fine = (get_config_lem env path aggregates).1 (read, well, printed) in
      let (kubecli, kube) = connects.kubernetes in
      let requests =
        (new_for_config-IsMade env.http_client_for env.rest_client_for env.discovery_client_for
            (with_agent env cluster) client).1
          connects.requests in
      let same = get_config_same env path in
      let got : get_config env path ≡ ((read_config env path).1, none) = λ i. (same i, fine i) in
      let clients =
        with_kube_config-runs (read_config env path).1 st (with_agent env cluster) client kube
          requests in
      (x, ap (with_config env (some cluster) st) got ∙ clients ∙ ends, controller, store)

  -- From the start of the program on: once it has come to the call of Run with no queues before it, on a
  -- configuration whose weights are below 2 ^ 53 and sum up to an int, and ToAggregate gives no error
  -- for exactly the empty list of field errors, the iterator of its controller can always deliver: from
  -- every reachable state in which it waits, the controller receives, the context is not done, no Push
  -- is under way and one of the queues holds a request, there are steps after which one more request
  -- has been handed to the controller.
  pub main-Delivers :
      (path : String) (kube_config : Option (Config env.rest)) (st : Store ℕ)
      (x : Running env.library)
      (s : State
        (reader env.quote none st x.store (read_config env path).1 x.controller)
        (configs env.quote none st x.store (read_config env path).1 x.controller))
      (ref : QueueRef)
      → ((errs : List (env.field.Error)) → (env.field.to_aggregate errs ≡ none) ↔ (errs ≡ []))
      → main env path kube_config st ≡ value (ran x)
      → st.queues ≡ []
      → All IsSmall (read_config env path).1.queues
      → total_weight (read_config env path).1.queues < 2 ^ 63
      → Reach
          (reader env.quote none st x.store (read_config env path).1 x.controller)
          (configs env.quote none st x.store (read_config env path).1 x.controller)
          x.store
          s
      → s.pushing ≡ none
      → s.cancelled ≡ false
      → s.controller ≡ receiving
      → s.iterator ≡ waiting
      → Among ref
          (refs_of (configs env.quote none st x.store (read_config env path).1 x.controller))
      → holds_request s.store ref ≡ true
      → Delivers
          (reader env.quote none st x.store (read_config env path).1 x.controller)
          (configs env.quote none st x.store (read_config env path).1 x.controller)
          s
  main-Delivers path kube_config st x s ref aggregates e empty small sum =
      let (read, run) = main-HasRun path kube_config st x aggregates e in
      let served = run.served in
      started-Delivers env.quote none st x.store (read_config env path).1 x.controller s ref empty
        (run.well_formed.0) small sum (served.created_by_new)
