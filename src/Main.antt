-- ===== src/Main.antt =====
-- cmd/kombiner-controller/main.go: the start of the controller's program, up to the call of Run. The
-- cluster's configuration and the client of Kubernetes are parameters, and so are
-- the answers of the client library.
pub mod Ran
pub mod Loads
pub mod Reaches
mod Tests
use kombiner.Prelude.{
  ℕ, String, List, [], ◌⊎◌, Option, none, some, inl, inr, ◌==◌, string_eq, if◌then◌else◌, Outcome,
  value, ◌>>=◌,
}
use kombiner.Api.Config.{Configuration}
use kombiner.Configuration.{Field, load}
use kombiner.Configuration.Codec.{from_file, encode}
use kombiner.Queue.Store.{Store}
use kombiner.Queue.Iterator.{Created, created, refused}
use kombiner.Controller.New.{PlacementRequestController, new}
use kombiner.Clientset.{Clientset, new_for_config}
use kombiner.Clientset.Packages.{Result, Rest, Config}
use kombiner.Informers.{start, new_shared_informer_factory}
use kombiner.Informers.Requests.{
  Library, ListWatch, Factory, RequestInterface, informer, lister, kombiner_group, v1alpha1,
  placement_requests,
}

-- 30 seconds, in nanoseconds.
abbrev pub resync : ℕ
resync = 30000000000

-- What Run is called on: the controller, the state that New has left, the lister that it was given and
-- the factory after its Start.
pub record Running (l : Library) : Type 0 where
  pub controller : PlacementRequestController
  pub store : Store ℕ
  pub requests : l.Lister
  pub factory : Factory l

-- How the program gets on: it logs an error and returns, GetConfigOrDie ends it, or it calls Run.
pub data Exit (l : Library) : Type 0 where
  stopped : String → Exit l
  died : Exit l
  ran : Running l → Exit l

-- What the program is run with: the functions of the libraries.
pub record Environment : Type 1 where
  pub field : Field
  pub Content : Type 0
  pub read_file : String → String ⊎ Content
  pub decode_into : Content → Configuration → Option String × Configuration
  pub Info : Type 0
  pub find_info : String → Option Info
  pub encode_with : Info → Configuration → String ⊎ String
  pub quote : String → String
  pub library : Library
  pub Indexers : Type 0
  pub namespace_indexers : Indexers
  pub new_shared_index_informer : ListWatch library → ℕ → Indexers → library.Informer
  pub add_event_handler : library.Informer → Option String
  pub rest : Rest
  pub as_interface : Clientset rest → library.Client
  pub Kube : Type 0
  pub agent : String
  pub kubernetes_for : Config rest → Result Kube
  pub http_client_for : Config rest → Result (rest.HttpClient)
  pub rest_client_for : Config rest → rest.HttpClient → Result (rest.RestClient)
  pub discovery_client_for : Config rest → rest.HttpClient → Result (rest.DiscoveryClient)

module _ (env : Environment) where
  -- The configuration before it is read, as Load declares it.
  abbrev pub empty : Configuration
  empty = record {
    queues = [];
    fairness_algorithm = "";
    plugins = record { validate = record { enabled = []; disabled = [] } };
  }

  -- The error and the configuration that reading leaves.
  unfoldable pub read_config : String → Option String × Configuration
  unfolding from_file
  read_config path = from_file env.read_file env.decode_into path empty

  -- The error of Encode; its text is only logged.
  unfoldable pub print_error : Configuration → Option String
  unfolding encode
  print_error config = elim (encode env.quote env.find_info env.encode_with config) [
    | inl err ↦ some err
    | inr text ↦ none
  ]

  -- From the second call of getConfig on.
  unfoldable pub encoded : Configuration × Option String → Configuration × Option String
  unfolding print_error
  encoded (config, some err) = (config, some err)
  encoded (config, none) = (config, print_error config)

  unfoldable pub get_config : String → Configuration × Option String
  unfolding load encoded read_config
  get_config path = encoded (load env.field (read_config path))

  abbrev pub informer_of :
      RequestInterface env.library
      → Factory env.library
      → env.library.Informer × Factory env.library
  informer_of p f = informer env.library env.namespace_indexers env.new_shared_index_informer p f

  abbrev pub lister_of :
      RequestInterface env.library → Factory env.library → env.library.Lister × Factory env.library
  lister_of p f = lister env.library env.namespace_indexers env.new_shared_index_informer p f

  abbrev pub client_of : Config env.rest → Result (Clientset env.rest)
  client_of c =
      new_for_config env.rest env.http_client_for env.rest_client_for env.discovery_client_for c

  -- The factory has one informer, so its map has one order.
  unfoldable pub started :
      env.library.Lister
      → Factory env.library
      → Created PlacementRequestController × Store ℕ
      → Exit env.library
  unfolding start
  started requests f (refused err, st) = stopped "error creating controller"
  started requests f (created c, st) =
      ran
        (record { controller = c; store = st; requests = requests; factory = start f.informers f })

  -- New asks the new factory for the lister, then for the informer to add its handlers to.
  unfoldable pub registered :
      env.library.Client → env.library.Lister × (env.library.Informer × Factory env.library)
  unfolding lister informer kombiner_group v1alpha1 placement_requests new_shared_informer_factory
  registered prcli =
      let f : Factory env.library = new_shared_informer_factory prcli resync in
      let requests =
        placement_requests env.library (v1alpha1 env.library (kombiner_group env.library f)) in
      let (prlister, f1) = lister_of requests f in (prlister, informer_of requests f1)

  -- From the factories on.
  unfoldable pub with_client :
      env.library.Client → Configuration → Store ℕ → Outcome (Exit env.library)
  unfolding started registered new
  with_client prcli config st =
      let (prlister, (i, f)) = registered prcli in
      new env.quote (env.add_event_handler i) st config >>= λ r. value (started prlister f r)

  -- The user agent with the program's version.
  unfoldable pub with_agent : Config env.rest → Config env.rest
  with_agent c = if c.user_agent == "" then record c { user_agent = env.agent } else c

  unfoldable pub with_kube_config :
      Configuration → Store ℕ → Config env.rest → Outcome (Exit env.library)
  unfolding with_client new_for_config
  with_kube_config config st c = elim (env.kubernetes_for c) [
    | inl err ↦ value (stopped "error building kubernetes client")
    | inr kubecli ↦ elim (client_of c) [
      | inl err ↦ value (stopped "error building kubernetes clientset")
      | inr prcli ↦ with_client (env.as_interface prcli) config st
    ]
  ]

  -- `kube_config` is what GetConfigOrDie finds; it dies where there is none.
  unfoldable pub with_config :
      Option (Config env.rest)
      → Store ℕ
      → Configuration × Option String
      → Outcome (Exit env.library)
  unfolding with_kube_config with_agent
  with_config kube_config st (config, some err) = value (stopped "Unable to load the configuration")
  with_config none st (config, none) = value died
  with_config (some c) st (config, none) = with_kube_config config st (with_agent c)

  unfoldable pub main : String → Option (Config env.rest) → Store ℕ → Outcome (Exit env.library)
  unfolding with_config get_config
  main path kube_config st = with_config kube_config st (get_config path)
