-- ===== src/Api/Tests.antt =====
-- Copies and conversions at concrete inputs.
use kombiner.Prelude.{arith, String, ℕ, ◌≡◌, refl, List, [], ◌∷◌, Option, none, some, Yields, value}
use kombiner.Api.Placement.{ObjectMeta, Binding, PlacementRequest}
use kombiner.Api.Scheduler.{PlacementRequestBinderArgs, internal, external, internal_to_v1alpha1}
use kombiner.Api.DeepCopy.{Memory, RequestStruct, deep_copy}
use kombiner.Api.DeepCopy.Fresh.{Shows}
use kombiner.Api.DeepCopy.Arguments.{
  ArgumentsStruct, copy_arguments, deep_copy_arguments, deep_copy_arguments_object, IsApart,
  copy_arguments-IsApart,
}
use kombiner.Api.Config.{Configuration}
use kombiner.Api.DeepCopy.RequestList.{RequestListStruct, ListMemory}
use kombiner.Api.DeepCopy.Configuration.{
  ConfigurationMemory, ConfigurationStruct, copy_configuration, deep_copy_object,
}
use kombiner.Api.DeepCopy.Configuration.Fresh.{
  ShowsConfiguration, IsNewConfiguration, copy_configuration-IsNewConfiguration,
}

abbrev meta : ObjectMeta
meta = record {
  name = "r";
  namespace = "default";
  creation_timestamp = record { seconds = 20; nanoseconds = 0 };
  deletion_timestamp = none;
  owner_references = [];
}

abbrev bindings : List Binding
bindings = record { pod_name = "p"; pod_uid = "u"; node_name = "n" } ∷ []

abbrev memory : Memory
memory = record { bindings = bindings ∷ []; results = [] }

abbrev struct : RequestStruct
struct = record {
  meta = meta;
  spec = record { policy = "Lenient"; priority = 0; scheduler_name = "a"; bindings = some 0 };
  status = record { result = ""; reason = ""; message = ""; bindings = none };
}

abbrev request : PlacementRequest
request = record {
  meta = meta;
  spec = record { policy = "Lenient"; priority = 0; scheduler_name = "a"; bindings = bindings };
  status = record { result = ""; reason = ""; message = ""; bindings = [] };
}

shown : Shows memory struct request
shown = record {
  meta = refl;
  policy = refl;
  priority = refl;
  scheduler_name = refl;
  bindings = refl;
  result = refl;
  reason = refl;
  message = refl;
  results = refl;
}

nil_stays : deep_copy (λ m. m) none memory ≡ value (none, memory)
unfolding deep_copy
nil_stays = refl

abbrev args : Option ℕ → PlacementRequestBinderArgs
args timeout = record { type_meta = record { kind = "k"; api_version = "v" }; timeout = timeout }

timeout_taken :
    internal_to_v1alpha1 (internal (args (some 3))) (external (args none))
    ≡ value (external (args (some 3)))
unfolding internal_to_v1alpha1
timeout_taken = refl

abbrev config_memory : ConfigurationMemory
config_memory = record {
  texts = ("Fit" ∷ []) ∷ [];
  queues =
      (record {
        scheduler_name = "a";
        weight = 1;
        max_size = 9;
        plugins = record { validate = record { enabled = some 0; disabled = none } };
      }
        ∷ [])
      ∷ [];
}

abbrev config_struct : ConfigurationStruct
config_struct = record {
  queues = some 0;
  fairness_algorithm = "Uniform";
  plugins = record { validate = record { enabled = none; disabled = some 0 } };
}

abbrev configuration : Configuration
configuration = record {
  queues =
      record {
        scheduler_name = "a";
        weight = 1;
        max_size = 9;
        plugins = record { validate = record { enabled = "Fit" ∷ []; disabled = [] } };
      }
      ∷ [];
  fairness_algorithm = "Uniform";
  plugins = record { validate = record { enabled = []; disabled = "Fit" ∷ [] } };
}

config_shown : ShowsConfiguration config_memory config_struct configuration
config_shown = record {
  structs = _;
  there = refl;
  queues = (
    record { scheduler_name = refl; weight = refl; max_size = refl; plugins = (refl, refl) },
    tt,
  );
  fairness_algorithm = refl;
  plugins = (refl, refl);
}

nil_configuration : deep_copy_object none config_memory ≡ value (none, config_memory)
unfolding deep_copy_object
nil_configuration = refl

copy_configuration-IsNewConfiguration_example :
    Yields
      (λ r.
        ShowsConfiguration r.1 r.0 configuration
        × ShowsConfiguration r.1 config_struct configuration
        × IsNewConfiguration config_memory r.1 r.0)
      (copy_configuration config_struct config_memory)
copy_configuration-IsNewConfiguration_example =
    copy_configuration-IsNewConfiguration config_memory config_struct configuration config_shown

abbrev list_memory : ListMemory
list_memory = record { memory = memory; requests = (struct ∷ struct ∷ []) ∷ [] }

abbrev list_struct : RequestListStruct String
list_struct = record { meta = "v1"; items = some 0 }

abbrev arguments : ArgumentsStruct
arguments = record { type_meta = record { kind = "a"; api_version = "v1" }; timeout = some 1 }

copy_of_nil : deep_copy_arguments_object none (5 ∷ []) ≡ value (none, 5 ∷ [])
unfolding deep_copy_arguments_object deep_copy_arguments
copy_of_nil = refl

copy_arguments-IsApart_example :
    Yields (IsApart arguments (5 ∷ 7 ∷ [])) (copy_arguments arguments (5 ∷ 7 ∷ []))
copy_arguments-IsApart_example = copy_arguments-IsApart arguments (5 ∷ 7 ∷ []) (omega arith)
