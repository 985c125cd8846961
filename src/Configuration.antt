-- ===== src/Configuration.antt =====
-- pkg/config: the validation of the controller's configuration and Load. The field errors of the
-- apimachinery library, and the reading and decoding of the file, are parameters.
pub mod Accepts
pub mod Codec
mod Tests
use kombiner.Prelude.{
  ℕ, suc, String, List, [], ◌∷◌, ◌++◌, Option, none, some, ltb, ◌==◌, nat_eq, string_eq,
  if◌then◌else◌, length,
}
use kombiner.Api.Config.{Queue, Configuration}

-- The package `field`; the last is the method ToAggregate of its list of errors.
pub record Field : Type 1 where
  pub FieldPath : Type 0
  pub Error : Type 0
  pub new_path : String → FieldPath
  pub index : FieldPath → ℕ → FieldPath
  pub child : FieldPath → String → FieldPath
  pub required : FieldPath → String → Error
  pub invalid : FieldPath → ℕ → String → Error
  pub to_aggregate : List Error → Option String

abbrev non_empty_err_str : String
non_empty_err_str = "must be non-empty"

abbrev must_be_positive_integer_err_str : String
must_be_positive_integer_err_str = "must be a positive integer"

module _ (field : Field) where
  abbrev queues_path : field.FieldPath
  queues_path = field.new_path "queues"

  -- The errors of the queue at an index, in the order of the three checks.
  unfoldable pub validate_queue : ℕ → Queue → List (field.Error)
  validate_queue idx queue =
      let at = field.index queues_path idx in
      (if queue.scheduler_name == ""
        then field.required (field.child at "schedulerName") non_empty_err_str ∷ []
        else [])
      ++ (if ltb queue.weight 1
          then field.invalid (field.child at "weight") queue.weight must_be_positive_integer_err_str
            ∷ []
          else [])
      ++ (if ltb queue.max_size 1
          then field.invalid (field.child at "maxSize") queue.max_size
              must_be_positive_integer_err_str
            ∷ []
          else [])

  -- The loop over the queues, from an index on.
  unfoldable pub validate_queues_from : ℕ → List Queue → List (field.Error)
  unfolding validate_queue
  validate_queues_from idx [] = []
  validate_queues_from idx (queue ∷ queues) =
      validate_queue idx queue ++ validate_queues_from (suc idx) queues

  unfoldable pub validate_queues : Configuration → List (field.Error)
  unfolding validate_queues_from
  validate_queues c =
      if length c.queues == 0
      then field.required queues_path non_empty_err_str ∷ []
      else validate_queues_from 0 c.queues

  unfoldable pub validate : Configuration → List (field.Error)
  unfolding validate_queues
  validate c = validate_queues c

  -- What is made of the file's contents: `decoded` is the error of fromFile and what it wrote.
  unfoldable pub load : Option String × Configuration → Configuration × Option String
  unfolding validate
  load (some err, cfg) = (cfg, some err)
  load (none, cfg) = (cfg, field.to_aggregate (validate cfg))
