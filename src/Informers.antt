-- ===== src/Informers.antt =====
-- pkg/generated/informers/externalversions: the factory of shared informers, generated with the client,
-- and the ways through the group and the version to the informer of requests. A reflect.Type is its
-- name; the library's informers, clients, list options and transforms are parameters.
pub mod Runs
pub mod Histories
pub mod New
pub mod Sharing
pub mod Starting
pub mod Requests
mod Tests
use kombiner.Prelude.{
  ℕ, suc, ◌+◌, ◌-◌, String, List, [], ◌∷◌, Bool, true, false, Option, none, some, if◌then◌else◌,
}
use kombiner.Queue.Config.{lookup}

-- `runs` is the history of the goroutines: the informers that were run, the last one first. `wg` is the
-- counter of the WaitGroup.
pub record SharedInformerFactory (C T X I : Type 0) : Type 0 where
  pub client : C
  pub namespace : String
  pub tweak_list_options : Option T
  pub default_resync : ℕ
  pub custom_resync : List (String × ℕ)
  pub transform : Option X
  pub informers : List (String × I)
  pub started_informers : List (String × Bool)
  pub wg : ℕ
  pub shutting_down : Bool
  pub runs : List (String × I)

-- A missing key reads as false.
abbrev pub is_started : List (String × Bool) → String → Bool
is_started started ty = elim (lookup ty started) [ some b ↦ b | none ↦ false ]

module _ {I : Type 0} where
  -- The informers that WaitForCacheSync waits for.
  unfoldable pub started_of : List (String × Bool) → List (String × I) → List (String × I)
  started_of started [] = []
  started_of started ((ty, informer) ∷ entries) =
      let rest = started_of started entries in
      if is_started started ty then (ty, informer) ∷ rest else rest

  -- The library's wait is a parameter.
  unfoldable pub wait_all : (I → Bool) → List (String × I) → List (String × Bool)
  wait_all wait [] = []
  wait_all wait ((ty, informer) ∷ entries) = (ty, wait informer) ∷ wait_all wait entries

abbrev pub SharedInformerOption : Type 0 → Type 0 → Type 0 → Type 0 → Type 0
SharedInformerOption C T X I = SharedInformerFactory C T X I → SharedInformerFactory C T X I

module _ {C T X I : Type 0} where
  -- The loop over the config, of types and periods.
  unfoldable pub with_custom_resync_config : List (String × ℕ) → SharedInformerOption C T X I
  with_custom_resync_config [] f = f
  with_custom_resync_config ((ty, period) ∷ config) f =
      with_custom_resync_config config (record f { custom_resync = (ty, period) ∷ f.custom_resync })

  unfoldable pub with_tweak_list_options : Option T → SharedInformerOption C T X I
  with_tweak_list_options tweak f = record f { tweak_list_options = tweak }

  unfoldable pub with_namespace : String → SharedInformerOption C T X I
  with_namespace namespace f = record f { namespace = namespace }

  unfoldable pub with_transform : Option X → SharedInformerOption C T X I
  with_transform transform f = record f { transform = transform }

  unfoldable pub apply_options :
      List (SharedInformerOption C T X I)
      → SharedInformerFactory C T X I
      → SharedInformerFactory C T X I
  apply_options [] f = f
  apply_options (opt ∷ opts) f = apply_options opts (opt f)

  -- NamespaceAll is the empty text.
  unfoldable pub new_shared_informer_factory_with_options :
      C → ℕ → List (SharedInformerOption C T X I) → SharedInformerFactory C T X I
  unfolding apply_options
  new_shared_informer_factory_with_options client default_resync opts = apply_options opts (record {
    client = client;
    namespace = "";
    tweak_list_options = none;
    default_resync = default_resync;
    custom_resync = [];
    transform = none;
    informers = [];
    started_informers = [];
    wg = 0;
    shutting_down = false;
    runs = [];
  })

  unfoldable pub new_shared_informer_factory : C → ℕ → SharedInformerFactory C T X I
  unfolding new_shared_informer_factory_with_options
  new_shared_informer_factory client default_resync =
      new_shared_informer_factory_with_options client default_resync []

  unfoldable pub new_filtered_shared_informer_factory :
      C → ℕ → String → Option T → SharedInformerFactory C T X I
  unfolding new_shared_informer_factory_with_options with_namespace with_tweak_list_options
  new_filtered_shared_informer_factory client default_resync namespace tweak =
      new_shared_informer_factory_with_options client default_resync
        (with_namespace namespace ∷ with_tweak_list_options tweak ∷ [])

  -- One informer of the loop of Start: a goroutine that runs it.
  unfoldable pub start_one :
      String × I → SharedInformerFactory C T X I → SharedInformerFactory C T X I
  start_one (ty, informer) f = if is_started f.started_informers ty then f else record f {
    wg = suc f.wg;
    runs = (ty, informer) ∷ f.runs;
    started_informers = (ty, true) ∷ f.started_informers;
  }

  unfoldable pub start_loop :
      List (String × I) → SharedInformerFactory C T X I → SharedInformerFactory C T X I
  unfolding start_one
  start_loop [] f = f
  start_loop (entry ∷ entries) f = start_loop entries (start_one entry f)

  -- `walk` is the entries of the map in the order in which the loop meets them.
  unfoldable pub start :
      List (String × I) → SharedInformerFactory C T X I → SharedInformerFactory C T X I
  unfolding start_loop
  start walk f = if f.shutting_down then f else start_loop walk f

  -- A goroutine ends.
  unfoldable pub finish : SharedInformerFactory C T X I → SharedInformerFactory C T X I
  finish f = record f { wg = f.wg - 1 }

  -- Shutdown up to the wait, which is over when `wg` is 0.
  unfoldable pub shutdown : SharedInformerFactory C T X I → SharedInformerFactory C T X I
  shutdown f = record f { shutting_down = true }

  -- The walks of its two loops are the entries in the order of the first.
  unfoldable pub wait_for_cache_sync :
      (I → Bool) → List (String × I) → SharedInformerFactory C T X I → List (String × Bool)
  unfolding started_of wait_all
  wait_for_cache_sync wait walk f = wait_all wait (started_of f.started_informers walk)

  unfoldable pub resync_period : SharedInformerFactory C T X I → String → ℕ
  unfolding lookup
  resync_period f ty = elim (lookup ty f.custom_resync) [
    | some period ↦ period
    | none ↦ f.default_resync
  ]

  -- SetTransform is a parameter too.
  module _ (set_transform : Option X → I → I) where
    unfoldable pub informer_for :
        String → (C → ℕ → I) → SharedInformerFactory C T X I → I × SharedInformerFactory C T X I
    unfolding resync_period lookup
    informer_for ty new_func f = elim (lookup ty f.informers) [
      | some informer ↦ (informer, f)
      | none ↦
          let informer = set_transform f.transform (new_func f.client (resync_period f ty)) in
          (informer, record f { informers = (ty, informer) ∷ f.informers })
    ]
