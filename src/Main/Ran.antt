-- ===== src/Main/Ran.antt =====
-- What holds once the program has come to the call of Run.
use kombiner.Prelude.{
  ℕ, ◌≡◌, ◌≢◌, ◌⊎◌, ◌∙◌, refl, sym, ap, subst, String, [], ◌∷◌, Option, none, inl, inr, Outcome,
  value, panic, exhausted, Yields-inv, ◌>>=◌, value-injective,
}
use kombiner.Api.Config.{Configuration}
use kombiner.Queue.Config.{lookup}
use kombiner.Queue.Store.{Store}
use kombiner.Queue.Iterator.{Created, created, refused}
use kombiner.Controller.New.{PlacementRequestController, new}
use kombiner.Controller.New.Accepts.{Built, new-Built}
use kombiner.Clientset.{Clientset}
use kombiner.Clientset.Packages.{Config}
use kombiner.Clientset.Chains.{IsMade, new_for_config-IsMade}
use kombiner.Informers.{
  start, start_loop, start_one, informer_for, resync_period, new_shared_informer_factory,
  new_shared_informer_factory_with_options, apply_options,
}
use kombiner.Informers.Requests.{
  informer, lister, kombiner_group, v1alpha1, placement_requests, default_informer,
  new_filtered_placement_request_informer, list_watch,
}
use kombiner.Main.{
  resync, Running, Exit, ran, started, registered, with_client, with_kube_config, Environment,
  client_of,
}

Sum-cases : {A B : Type 0} (s : A ⊎ B) → ((a : A) × (s ≡ inl a)) ⊎ ((b : B) × (s ≡ inr b))
Sum-cases (inl a) = inl (a, refl)
Sum-cases (inr b) = inr (b, refl)

new_created :
    (quote : String → String) (answer : Option String) (st st' : Store ℕ) (cfg : Configuration)
    (c : PlacementRequestController)
    → new quote answer st cfg ≡ value (created c, st')
    → answer ≡ none
new_created quote answer st st' cfg c made =
    let (r, run, (configs, queues, built)) = Yields-inv (new-Built quote answer st cfg) in
    let same : r ≡ (created c, st') = value-injective (sym run ∙ made) in
    let (accepted, given) =
      subst (λ x. Built configs cfg.fairness_algorithm answer x.0) same built in
    (accepted.0 tt).3

module _ (env : Environment) where
  -- The informer of the requests of all namespaces, with no filter.
  abbrev pub request_informer : env.library.Client → env.library.Informer
  request_informer prcli = env.library.set_transform none (
      env.new_shared_index_informer (list_watch env.library prcli "" none) resync
        env.namespace_indexers)

  -- New has created the controller from the configuration; the informer has taken its handlers, it is
  -- the only one that has been run, once, and the lister reads it.
  pub record IsServed (prcli : env.library.Client) (config : Configuration) (st : Store ℕ)
      (x : Running env.library) : Type 0 where
    pub handled : env.add_event_handler (request_informer prcli) ≡ none
    pub created_by_new : new env.quote none st config ≡ value (created x.controller, x.store)
    pub runs : x.factory.runs ≡ ("PlacementRequest", request_informer prcli) ∷ []
    pub informers : x.factory.informers ≡ ("PlacementRequest", request_informer prcli) ∷ []
    pub reads :
        x.requests ≡ env.library.new_lister (env.library.get_indexer (request_informer prcli))

  split :
      (m : Outcome (Created PlacementRequestController × Store ℕ))
      (f : Created PlacementRequestController × Store ℕ → Exit env.library)
      {x : Running env.library}
      → ((err : String) (st : Store ℕ) → (y : Running env.library) → f (refused err, st) ≢ ran y)
      → (m >>= λ r. value (f r)) ≡ value (ran x)
      → (c : PlacementRequestController) × (st' : Store ℕ) × (m ≡ value (created c, st'))
        × (f (created c, st') ≡ ran x)
  split (value (created c, st')) f never e = (c, st', refl, value-injective e)
  split (value (refused err, st')) f never e = absurd (never err st' _ (value-injective e))
  split panic f never e = absurd (cc)
  split exhausted f never e = absurd (cc)

  ran-injective : {x y : Running env.library} → ran x ≡ ran y → x ≡ y
  ran-injective e = cc

  with_client-IsServed :
      (prcli : env.library.Client) (config : Configuration) (st : Store ℕ) (x : Running env.library)
      → with_client env prcli config st ≡ value (ran x)
      → IsServed prcli config st x
  unfolding with_client registered started lister informer informer_for default_informer
      resync_period lookup kombiner_group v1alpha1 placement_requests
      new_filtered_placement_request_informer new_shared_informer_factory
      new_shared_informer_factory_with_options apply_options start start_loop start_one
  with_client-IsServed prcli config st x e =
      let (c, st', made, end) =
        split (new env.quote (env.add_event_handler (request_informer prcli)) st config) _
          (λ err st' y e. absurd (cc)) e in
      let same = ran-injective end in
      let quiet =
        new_created env.quote (env.add_event_handler (request_informer prcli)) st st' config c
          made in
      let with_none = ap (λ o. new env.quote o st config) (sym quiet) ∙ made in
      record {
        handled = quiet;
        created_by_new =
            with_none
            ∙ ap (λ (y : Running env.library). value (created y.controller, y.store)) same;
        runs = sym (ap (λ (y : Running env.library). y.factory.runs) same);
        informers = sym (ap (λ (y : Running env.library). y.factory.informers) same);
        reads = sym (ap (λ (y : Running env.library). y.requests) same);
      }

  -- The clients of Kubernetes and of the requests are made of one configuration.
  pub record Connects (c : Config env.rest) (prcli : Clientset env.rest) : Type 0 where
    pub kubernetes : (kubecli : env.Kube) × (env.kubernetes_for c ≡ inr kubecli)
    pub requests : IsMade env.http_client_for env.rest_client_for env.discovery_client_for c prcli

  pub with_kube_config-Connects :
      (config : Configuration) (st : Store ℕ) (c : Config env.rest) (x : Running env.library)
      → with_kube_config env config st c ≡ value (ran x)
      → (prcli : Clientset env.rest) × Connects c prcli
        × IsServed (env.as_interface prcli) config st x
  unfolding with_kube_config
  with_kube_config-Connects config st c x e = elim (Sum-cases (env.kubernetes_for c)) [
    | inl (err, bad) ↦ absurd (let k = rw (bad, with_kube_config) at e in cc)
    | inr (kubecli, good) ↦ elim (Sum-cases (client_of env c)) [
      | inl (err, bad) ↦ absurd (let k = rw (good, bad, with_kube_config) at e in cc)
      | inr (prcli, made) ↦ (
        prcli,
        record {
          kubernetes = (kubecli, good);
          requests =
              (new_for_config-IsMade env.http_client_for env.rest_client_for
                  env.discovery_client_for c prcli).0
                made;
        },
        with_client-IsServed (env.as_interface prcli) config st x
            (rw (good, made, with_kube_config) at e),
      )
    ]
  ]
