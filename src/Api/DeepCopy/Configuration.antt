-- ===== src/Api/DeepCopy/Configuration.antt =====
-- pkg/apis/config/v1alpha1/zz_generated.deepcopy.go: the copies of a configuration, whose slices are
-- indices into the arrays of a memory. The type's kind and version, which are texts, are left out.
pub mod Grows
pub mod Queues
pub mod Fresh
use kombiner.Prelude.{
  ℕ, List, [], ◌∷◌, ◌++◌, Option, none, some, String, length, get_elem?, Outcome, value, ◌>>=◌,
  or_panic,
}
use kombiner.Api.Config.{FairnessAlgorithm}
use kombiner.Api.DeepCopy.{copy_slice}

-- The arrays of texts.
abbrev pub Texts : Type 0
Texts = List (List String)

pub record PluginSetStruct : Type 0 where
  pub enabled : Option ℕ
  pub disabled : Option ℕ

pub record PluginsStruct : Type 0 where
  pub validate : PluginSetStruct

pub record QueueStruct : Type 0 where
  pub scheduler_name : String
  pub weight : ℕ
  pub max_size : ℕ
  pub plugins : PluginsStruct

pub record ConfigurationStruct : Type 0 where
  pub queues : Option ℕ
  pub fairness_algorithm : FairnessAlgorithm
  pub plugins : PluginsStruct

pub record ConfigurationMemory : Type 0 where
  pub texts : Texts
  pub queues : List (List QueueStruct)

unfoldable pub copy_plugin_set : PluginSetStruct → Texts → Outcome (PluginSetStruct × Texts)
unfolding copy_slice
copy_plugin_set set texts = do
  (enabled, texts1) ← copy_slice texts set.enabled
  (disabled, texts2) ← copy_slice texts1 set.disabled
  value (record { enabled = enabled; disabled = disabled }, texts2)

unfoldable pub copy_plugins : PluginsStruct → Texts → Outcome (PluginsStruct × Texts)
unfolding copy_plugin_set
copy_plugins plugins texts = do
  (validate, texts') ← copy_plugin_set plugins.validate texts
  value (record { validate = validate }, texts')

unfoldable pub copy_queue : QueueStruct → Texts → Outcome (QueueStruct × Texts)
unfolding copy_plugins
copy_queue queue texts = do
  (plugins, texts') ← copy_plugins queue.plugins texts
  value (record queue { plugins = plugins }, texts')

-- The loop over the queues.
unfoldable pub copy_queues : List QueueStruct → Texts → Outcome (List QueueStruct × Texts)
unfolding copy_queue
copy_queues [] texts = value ([], texts)
copy_queues (queue ∷ queues) texts = do
  (copy, texts1) ← copy_queue queue texts
  (copies, texts2) ← copy_queues queues texts1
  value (copy ∷ copies, texts2)

-- A nil slice stays nil.
unfoldable pub copy_queue_slice :
    Option ℕ → ConfigurationMemory → Outcome (Option ℕ × ConfigurationMemory)
unfolding copy_queues
copy_queue_slice none mem = value (none, mem)
copy_queue_slice (some k) mem = do
  queues ← or_panic (get_elem? mem.queues k)
  (copies, texts) ← copy_queues queues mem.texts
  value (some (length mem.queues), record { texts = texts; queues = mem.queues ++ copies ∷ [] })

unfoldable pub copy_configuration :
    ConfigurationStruct → ConfigurationMemory → Outcome (ConfigurationStruct × ConfigurationMemory)
unfolding copy_queue_slice copy_plugins
copy_configuration c mem = do
  (queues, mem1) ← copy_queue_slice c.queues mem
  (plugins, texts) ← copy_plugins c.plugins mem1.texts
  value (record c { queues = queues; plugins = plugins }, record mem1 { texts = texts })

-- DeepCopy of a pointer: nil for nil.
unfoldable pub copy_pointer :
    {A M : Type 0} → (A → M → Outcome (A × M)) → Option A → M → Outcome (Option A × M)
copy_pointer copy_into none mem = value (none, mem)
copy_pointer copy_into (some a) mem = do (copy, mem') ← copy_into a mem; value (some copy, mem')

unfoldable pub deep_copy_plugin_set :
    Option PluginSetStruct → Texts → Outcome (Option PluginSetStruct × Texts)
unfolding copy_pointer copy_plugin_set
deep_copy_plugin_set p texts = copy_pointer copy_plugin_set p texts

unfoldable pub deep_copy_plugins :
    Option PluginsStruct → Texts → Outcome (Option PluginsStruct × Texts)
unfolding copy_pointer copy_plugins
deep_copy_plugins p texts = copy_pointer copy_plugins p texts

unfoldable pub deep_copy_queue : Option QueueStruct → Texts → Outcome (Option QueueStruct × Texts)
unfolding copy_pointer copy_queue
deep_copy_queue p texts = copy_pointer copy_queue p texts

unfoldable pub deep_copy_configuration :
    Option ConfigurationStruct
    → ConfigurationMemory
    → Outcome (Option ConfigurationStruct × ConfigurationMemory)
unfolding copy_pointer copy_configuration
deep_copy_configuration p mem = copy_pointer copy_configuration p mem

-- DeepCopyObject: a nil copy gives a nil object.
unfoldable pub deep_copy_object :
    Option ConfigurationStruct
    → ConfigurationMemory
    → Outcome (Option ConfigurationStruct × ConfigurationMemory)
unfolding deep_copy_configuration
deep_copy_object p mem = do
  (copy, mem') ← deep_copy_configuration p mem
  elim copy [ some c ↦ value (some c, mem') | none ↦ value (none, mem') ]
