-- ===== src/Main/Tests.antt =====
-- A start of the program with plain libraries, and the theorems at it.
use kombiner.Prelude.{
  ℕ, ◌≡◌, ◌≢◌, ◌↔◌, refl, String, List, [], ◌∷◌, Bool, true, false, Option, none, some, inl, inr,
  arith, value, ◌==◌, string_eq, eq_iff, nat_eq, if◌then◌else◌,
}
use kombiner.Api.Config.{Configuration}
use kombiner.Configuration.{
  Field, load, validate, validate_queues, validate_queues_from, validate_queue,
}
use kombiner.Configuration.Codec.{from_file, encode}
use kombiner.Configuration.Accepts.{IsWellFormed}
use kombiner.Clientset.Packages.{pos, Rest, Config}
use kombiner.Clientset.{Clientset}
use kombiner.Informers.Requests.{Library}
use kombiner.System.Samples.{
  idle, configs, has_request, has_request-Reach, configuration, no_queues, controller,
  created_on_idle,
}
use kombiner.Main.{Environment, Running, stopped, ran, main, with_agent}
use kombiner.Queue.PlacementRequest
use kombiner.Queue.PlacementRequest.{new_placement_request_queue, len}
use kombiner.Queue.Heap
use kombiner.Queue.Prioritized
use kombiner.Queue.Config
use kombiner.Queue.Config.{lookup, add_push_handler}
use kombiner.Queue.Store.{alloc_queue, queue_add_push_handler}
use kombiner.Queue.RoundRobin.Choice.{holds_request}
use kombiner.Queue.RoundRobin.Rounds.{round_robin}
use kombiner.System.Delivery.{Delivers}
use kombiner.Controller.New.{new}
use kombiner.Clientset.V1alpha1
use kombiner.Clientset.V1alpha1.{with_user_agent, set_config_defaults}
use kombiner.Clientset.{rate_limited, new_for_config, new_for_config_and_client}
use kombiner.Informers.{
  start, start_loop, start_one, informer_for, resync_period, new_shared_informer_factory,
  new_shared_informer_factory_with_options, apply_options,
}
use kombiner.Informers.Requests.{
  informer, lister, kombiner_group, v1alpha1, placement_requests, default_informer,
  new_filtered_placement_request_informer, list_watch,
}
use kombiner.Main.{
  read_config, print_error, get_config, encoded, with_config, with_kube_config, with_client,
  registered, started,
}
use kombiner.Main.Ran.{Connects}
use kombiner.Main.Reaches.{main-runs, main-HasRun, main-Delivers, HasRun}

first_of : List String → Option String
first_of [] = none
first_of (err ∷ errs) = some err

abbrev field : Field
field = record {
  FieldPath = String;
  Error = String;
  new_path = λ name. name;
  index = λ path i. path;
  child = λ path name. name;
  required = λ path detail. path;
  invalid = λ path n detail. path;
  to_aggregate = first_of;
}

first_of-aggregates : (errs : List String) → (first_of errs ≡ none) ↔ (errs ≡ [])
unfolding first_of
first_of-aggregates [] = ((λ h. refl), (λ h. refl))
first_of-aggregates (err ∷ errs) = ((λ h. absurd (cc)), (λ h. absurd (cc)))

-- An informer is the namespace and the options that it lists with, and its period.
abbrev library : Library
library = record {
  Client = String × String;
  Options = ℕ;
  Context = Bool;
  Listed = String × ℕ;
  Watch = String × ℕ;
  Informer = (String × ℕ) × ℕ;
  Transform = ℕ;
  Indexer = String;
  Lister = String;
  GenericLister = String;
  background = true;
  list = λ client namespace ctx options. (namespace, options);
  watch = λ client namespace ctx options. (namespace, options);
  set_transform = λ transform i. i;
  get_indexer = λ i. i.0.0;
  new_lister = λ indexer. indexer;
  new_generic_lister = λ indexer group resource. resource;
}

-- A REST client is the path of its API, a discovery client is the user agent.
abbrev rest : Rest
rest = record {
  Limiter = ℕ;
  Qps = ℕ;
  HttpClient = String;
  RestClient = String;
  DiscoveryClient = String;
  Other = Bool;
  qps_positive = λ qps. if qps == 0 then false else true;
  default_user_agent = "client-go";
  new_token_bucket = λ qps burst. qps;
}

abbrev env : Environment
env = record {
  field = field;
  Content = Configuration;
  read_file = λ path. if path == "config.yaml" then inr configuration else inl "no such file";
  decode_into = λ content cfg. (none, content);
  Info = String;
  find_info = λ media_type. some media_type;
  encode_with = λ info config. inr info;
  quote = λ name. name;
  library = library;
  Indexers = String;
  namespace_indexers = "namespace";
  new_shared_index_informer = λ watched period indexers. (watched.list_func 1, period);
  add_event_handler = λ i. none;
  rest = rest;
  as_interface = λ cs. (cs.discovery_client, cs.kombiner_v1alpha1);
  Kube = String;
  agent = "kombiner/0.1.0";
  kubernetes_for = λ c. inr c.user_agent;
  http_client_for = λ c. inr c.user_agent;
  rest_client_for = λ c h. inr c.api_path;
  discovery_client_for = λ c h. inr c.user_agent;
}

abbrev cluster : Config rest
cluster = record {
  user_agent = "";
  rate_limiter = none;
  qps = 20;
  burst = pos 30;
  group = "";
  version = "";
  api_path = "";
  has_serializer = false;
  other = true;
}

abbrev client : Clientset rest
client = record { discovery_client = "kombiner/0.1.0"; kombiner_v1alpha1 = "/apis" }

abbrev limited : Config rest
limited = record cluster { user_agent = "kombiner/0.1.0"; rate_limiter = some 20 }

named_agent : ◌≢◌ {A = String} "kombiner/0.1.0" ""
named_agent e = let t = (eq_iff "kombiner/0.1.0" "").1 e in cc

connected : Connects env (with_agent env cluster) client
unfolding with_agent with_user_agent set_config_defaults
connected = record {
  kubernetes = ("kombiner/0.1.0", refl);
  requests = (
    with_agent env cluster,
    "kombiner/0.1.0",
    limited,
    set_config_defaults env.rest limited,
    record {
      user_agent = inr (named_agent, refl);
      limits = record { rate_limiter = refl; qps = refl; burst = refl; other = refl };
      group = refl;
      version = refl;
      api_path = refl;
      has_serializer = refl;
    },
    refl,
    inr (inr (refl, refl, refl, refl)),
    record {
      user_agent = inr (named_agent, refl);
      limits = record { rate_limiter = refl; qps = refl; burst = refl; other = refl };
      group = refl;
      version = refl;
      api_path = refl;
      has_serializer = refl;
    },
    refl,
    refl,
  );
}

well_formed : IsWellFormed configuration
well_formed =
    ((λ e. cc), ((λ e. absurd (let t = (eq_iff "a" "").1 e in cc), omega arith, omega arith), tt))

abbrev informer_run : (String × ℕ) × ℕ
informer_run = (("", 1), 30000000000)

-- What Run is called on.
abbrev running : Running library
running = record {
  controller = controller;
  store = idle;
  requests = "";
  factory = record {
    client = ("kombiner/0.1.0", "/apis");
    namespace = "";
    tweak_list_options = none;
    default_resync = 30000000000;
    custom_resync = [];
    transform = none;
    informers = ("PlacementRequest", informer_run) ∷ [];
    started_informers = ("PlacementRequest", true) ∷ [];
    wg = 1;
    shutting_down = false;
    runs = ("PlacementRequest", informer_run) ∷ [];
  };
}

run_main : main env "config.yaml" (some cluster) no_queues ≡ value (ran running)
unfolding main get_config encoded print_error encode read_config from_file load validate
    validate_queues validate_queues_from validate_queue first_of with_config with_agent
    with_kube_config new_for_config new_for_config_and_client rate_limited
    V1alpha1.new_for_config_and_client set_config_defaults with_user_agent with_client registered
    started lister informer informer_for default_informer resync_period lookup kombiner_group
    v1alpha1 placement_requests new_filtered_placement_request_informer list_watch
    new_shared_informer_factory new_shared_informer_factory_with_options apply_options start
    start_loop start_one new alloc_queue new_placement_request_queue Heap.init Prioritized.len
    Config.validate add_push_handler queue_add_push_handler PlacementRequest.add_push_handler
run_main = refl

-- A file that is not there, and no cluster.
main_stops :
    main env "other.yaml" none no_queues ≡ value (stopped "Unable to load the configuration")
unfolding main get_config encoded load read_config from_file with_config
main_stops = refl

main-HasRun_example :
    ((read_config env "config.yaml").0 ≡ none)
    × HasRun env (read_config env "config.yaml").1 (some cluster) no_queues running
main-HasRun_example =
    main-HasRun env "config.yaml" (some cluster) no_queues running first_of-aggregates run_main

main-runs_example :
    (x : Running library) × (main env "config.yaml" (some cluster) no_queues ≡ value (ran x))
    × (x.controller ≡ controller)
    × (x.store ≡ idle)
unfolding read_config from_file print_error encode
main-runs_example =
    main-runs env "config.yaml" cluster client no_queues idle controller first_of-aggregates refl
      well_formed refl connected refl created_on_idle

main-Delivers_example : Delivers round_robin configs has_request
unfolding holds_request len read_config from_file
main-Delivers_example =
    main-Delivers env "config.yaml" (some cluster) no_queues running has_request (some 0)
      first_of-aggregates run_main refl (omega arith, tt) (omega arith) has_request-Reach refl refl
      refl refl (inl refl) refl
