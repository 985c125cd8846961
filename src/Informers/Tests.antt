-- ===== src/Informers/Tests.antt =====
-- Tests of the informer factory: informers that are pairs of a type's name and a period.
use kombiner.Prelude.{ℕ, ◌≡◌, ◌≤◌, refl, String, List, [], ◌∷◌, Bool, true, false, Option, inr, ltb}
use mathlib.Core.List.{Permᴰ}
use kombiner.Queue.Config.{lookup}
use kombiner.Informers.{
  SharedInformerFactory, SharedInformerOption, informer_for, start, start_loop, start_one, shutdown,
  new_shared_informer_factory_with_options, apply_options, with_custom_resync_config,
  with_namespace, wait_for_cache_sync, resync_period,
}
use kombiner.Informers.Runs.{IsConsistent}
use kombiner.Informers.Histories.{Later, now, asked, started}
use kombiner.Informers.New.{custom, named, new_factory-IsConsistent}
use kombiner.Informers.Starting.{start-runs, shutdown-final}
use kombiner.Informers.Requests.{
  Library, ListWatch, Factory, GroupVersionResource, Interface, informer, lister, default_informer,
  new_filtered_placement_request_informer, list_watch, for_resource, kombiner_group, v1alpha1,
  placement_requests,
}
use kombiner.Informers.Requests.Paths.{informer-shared}

-- A client is its name, an informer has a name and a period; there are no transforms.
abbrev Shared : Type 0
Shared = SharedInformerFactory String ℕ ℕ (String × ℕ)

abbrev keep : Option ℕ → String × ℕ → String × ℕ
keep transform i = i

abbrev make : String → String → ℕ → String × ℕ
make name client period = (name, period)

abbrev options : List (SharedInformerOption String ℕ ℕ (String × ℕ))
options = with_custom_resync_config (("Pod", 5) ∷ []) ∷ with_namespace "apps" ∷ []

abbrev new_factory : Shared
new_factory = new_shared_informer_factory_with_options "client" 30 options

abbrev two_types : Shared
two_types =
    (informer_for keep "Node" (make "nodes")
      (informer_for keep "Pod" (make "pods") new_factory).1).1

abbrev two_asked : Later keep new_factory two_types
two_asked = asked "Node" (make "nodes") (asked "Pod" (make "pods") now)

abbrev two_entries : List (String × (String × ℕ))
two_entries = ("Pod", ("pods", 5)) ∷ ("Node", ("nodes", 30)) ∷ []

entries_of_two : two_types.informers ≡ ("Node", ("nodes", 30)) ∷ ("Pod", ("pods", 5)) ∷ []
unfolding informer_for resync_period lookup new_shared_informer_factory_with_options apply_options
    with_custom_resync_config with_namespace
entries_of_two = refl

any_order : Permᴰ two_types.informers two_entries
unfolding informer_for resync_period lookup new_shared_informer_factory_with_options apply_options
    with_custom_resync_config with_namespace
any_order = Permᴰ.swap refl refl

still_any_order : Permᴰ (start two_entries two_types).informers two_entries
unfolding start start_loop start_one informer_for resync_period lookup
    new_shared_informer_factory_with_options apply_options with_custom_resync_config with_namespace
still_any_order = Permᴰ.swap refl refl

any_order_down : Permᴰ (shutdown two_types).informers two_entries
unfolding shutdown informer_for resync_period lookup new_shared_informer_factory_with_options
    apply_options with_custom_resync_config with_namespace
any_order_down = Permᴰ.swap refl refl

not_down : two_types.shutting_down ≡ false
unfolding informer_for resync_period lookup new_shared_informer_factory_with_options apply_options
    with_custom_resync_config with_namespace
not_down = refl

-- Start twice runs each informer once.
started_twice :
    (start two_entries (start two_entries two_types)).runs
    ≡ ("Node", ("nodes", 30)) ∷ ("Pod", ("pods", 5)) ∷ []
unfolding start start_loop start_one informer_for resync_period lookup
    new_shared_informer_factory_with_options apply_options with_custom_resync_config with_namespace
started_twice = refl

new_factory-IsConsistent_example : IsConsistent (start two_entries (start two_entries two_types))
new_factory-IsConsistent_example =
    new_factory-IsConsistent keep "client" 30 options
      (start two_entries (start two_entries two_types))
      (custom (("Pod", 5) ∷ []), (named "apps", tt))
      (started two_entries (started two_entries two_asked any_order) still_any_order)

start-runs_example :
    (lookup "Node" (start two_entries two_types).runs ≡ lookup "Node" two_types.informers)
    × (wait_for_cache_sync (λ i. ltb 10 i.1) two_entries (start two_entries two_types)
        ≡ ("Pod", false) ∷ ("Node", true) ∷ [])
start-runs_example =
    start-runs keep "client" 30 options two_types two_entries (λ (i : String × ℕ). ltb 10 i.1)
      "Node" (custom (("Pod", 5) ∷ []), (named "apps", tt)) two_asked any_order not_down

shutdown-final_example :
    ((start two_entries (shutdown two_types)).shutting_down ≡ true)
    × ((start two_entries (shutdown two_types)).runs ≡ two_types.runs)
    × ((start two_entries (shutdown two_types)).wg ≤ two_types.wg)
shutdown-final_example =
    shutdown-final keep two_types (start two_entries (shutdown two_types))
      (started two_entries now any_order_down)

-- Requests listed are a namespace and the options; an informer is what it lists, and its period.
abbrev library : Library
library = record {
  Client = String;
  Options = ℕ;
  Context = Bool;
  Listed = String × ℕ;
  Watch = String × ℕ;
  Informer = (String × ℕ) × ℕ;
  Transform = ℕ;
  Indexer = String;
  Lister = String;
  GenericLister = String;
  background = true;
  list = λ client namespace ctx options. (namespace, options);
  watch = λ client namespace ctx options. (namespace, options);
  set_transform = λ transform i. i;
  get_indexer = λ i. i.0.0;
  new_lister = λ indexer. indexer;
  new_generic_lister = λ indexer group resource. resource;
}

abbrev new_informer : ListWatch library → ℕ → String → (String × ℕ) × ℕ
new_informer watched period indexers = (watched.list_func 1, period)

abbrev requests : Factory library
requests = new_shared_informer_factory_with_options "client" 30 (with_namespace "apps" ∷ [])

abbrev request_resource : GroupVersionResource
request_resource = record {
  group = "kombiner.x-k8s.io";
  version = "v1alpha1";
  resource = "placementrequests";
}

abbrev request_path : Interface (ℕ → ℕ)
request_path = placement_requests library (v1alpha1 library (kombiner_group library requests))

abbrev with_informer : Factory library
with_informer = (informer library "namespace" new_informer request_path requests).1

informer-shared_example :
    (informer library "namespace" new_informer request_path with_informer
      ≡ ((("apps", 1), 30), with_informer))
    × (lister library "namespace" new_informer request_path with_informer ≡ ("apps", with_informer))
    × (for_resource library "namespace" new_informer
          (λ r. r.resource)
          request_resource
          with_informer
        ≡ (
          inr (record {
            informer = (("apps", 1), 30);
            group = "kombiner.x-k8s.io";
            resource = "placementrequests";
          }),
          with_informer,
        ))
unfolding informer informer_for default_informer new_filtered_placement_request_informer list_watch
    resync_period lookup new_shared_informer_factory_with_options apply_options with_namespace
    kombiner_group v1alpha1 placement_requests
informer-shared_example =
    informer-shared library "namespace" new_informer "client" 30 (with_namespace "apps" ∷ [])
      requests with_informer request_path (λ (r : GroupVersionResource). r.resource)
      request_resource (named "apps", tt) now now (refl, refl, refl)
