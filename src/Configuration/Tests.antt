-- ===== src/Configuration/Tests.antt =====
-- Load with plain field errors, and the theorem at a concrete input.
use kombiner.Prelude.{ℕ, ◌≡◌, ◌↔◌, refl, String, List, [], ◌∷◌, Option, none, some}
use kombiner.Api.Config.{Configuration, Plugins, uniform}
use kombiner.Configuration.{Field, load}
use kombiner.Configuration.Accepts.{IsWellFormed, load_lem}

first_of : List String → Option String
first_of [] = none
first_of (err ∷ errs) = some err

abbrev field : Field
field = record {
  FieldPath = String;
  Error = String;
  new_path = λ name. name;
  index = λ path i. path;
  child = λ path name. name;
  required = λ path detail. path;
  invalid = λ path n detail. path;
  to_aggregate = first_of;
}

first_of_lem : (errs : List String) → (first_of errs ≡ none) ↔ (errs ≡ [])
unfolding first_of
first_of_lem [] = ((λ h. refl), (λ h. refl))
first_of_lem (err ∷ errs) = ((λ h. absurd (cc)), (λ h. absurd (cc)))

abbrev no_plugins : Plugins
no_plugins = record { validate = record { enabled = []; disabled = [] } }

abbrev configuration : ℕ → Configuration
configuration weight = record {
  queues =
      record { scheduler_name = "a"; weight = weight; max_size = 9; plugins = no_plugins } ∷ [];
  fairness_algorithm = uniform;
  plugins = no_plugins;
}

weightless : (load field (none, configuration 0)).1 ≡ some "weight"
unfolding load first_of
weightless = refl

abbrev no_error : Option String
no_error = none

load_lem_example :
    ((load field (none, configuration 0)).1 ≡ none)
    ↔ ((no_error ≡ none) × IsWellFormed (configuration 0))
load_lem_example = load_lem field first_of_lem (none, configuration 0)
