-- ===== src/Informers/Requests.antt =====
-- pkg/generated/informers/externalversions: generic.go and, under kombiner, interface.go of the group,
-- interface.go and placementrequest.go of the version. The client's calls, the library's informers,
-- indexers and listers are parameters; the factory that the objects point to is passed along.
pub mod Paths
use Prim.Native.String.{◌++◌}
use kombiner.Prelude.{
  ℕ, String, Bool, true, false, Option, none, some, ◌&&◌, ◌==◌, string_eq, if◌then◌else◌, ◌⊎◌, inl,
  inr,
}
use kombiner.Informers.{SharedInformerFactory, informer_for}

pub record Interface (T : Type 0) : Type 0 where
  pub namespace : String
  pub tweak_list_options : Option T

pub record GroupVersionResource : Type 0 where
  pub group : String
  pub version : String
  pub resource : String

pub record GenericInformer (I : Type 0) : Type 0 where
  pub informer : I
  pub group : String
  pub resource : String

-- The library's client of the requests, with its options, contexts and answers.
pub record Library : Type 1 where
  pub Client : Type 0
  pub Options : Type 0
  pub Context : Type 0
  pub Listed : Type 0
  pub Watch : Type 0
  pub Informer : Type 0
  pub Transform : Type 0
  pub Indexer : Type 0
  pub Lister : Type 0
  pub GenericLister : Type 0
  pub background : Context
  pub list : Client → String → Context → Options → Listed
  pub watch : Client → String → Context → Options → Watch
  pub set_transform : Option Transform → Informer → Informer
  pub get_indexer : Informer → Indexer
  pub new_lister : Indexer → Lister
  pub new_generic_lister : Indexer → String → String → GenericLister

module _ (l : Library) where
  pub record ListWatch : Type 0 where
    pub list_func : l.Options → l.Listed
    pub watch_func : l.Options → l.Watch
    pub list_with_context_func : l.Context → l.Options → l.Listed
    pub watch_func_with_context : l.Context → l.Options → l.Watch

  abbrev pub Factory : Type 0
  Factory = SharedInformerFactory (l.Client) (l.Options → l.Options) (l.Transform) (l.Informer)

  abbrev pub RequestInterface : Type 0
  RequestInterface = Interface (l.Options → l.Options)

  -- The call through a pointer that may be nil.
  abbrev pub tweaked : Option (l.Options → l.Options) → l.Options → l.Options
  tweaked none options = options
  tweaked (some tweak) options = tweak options

  unfoldable pub list_watch : l.Client → String → Option (l.Options → l.Options) → ListWatch
  list_watch client namespace tweak = record {
    list_func = λ options. l.list client namespace l.background (tweaked tweak options);
    watch_func = λ options. l.watch client namespace l.background (tweaked tweak options);
    list_with_context_func = λ ctx options. l.list client namespace ctx (tweaked tweak options);
    watch_func_with_context = λ ctx options. l.watch client namespace ctx (tweaked tweak options);
  }

  -- The methods Kombiner, V1alpha1 and PlacementRequests, which hand the factory's fields on.
  unfoldable pub kombiner_group : Factory → RequestInterface
  kombiner_group f = record { namespace = f.namespace; tweak_list_options = f.tweak_list_options }

  unfoldable pub v1alpha1 : RequestInterface → RequestInterface
  v1alpha1 g = record { namespace = g.namespace; tweak_list_options = g.tweak_list_options }

  unfoldable pub placement_requests : RequestInterface → RequestInterface
  placement_requests v = record {
    namespace = v.namespace;
    tweak_list_options = v.tweak_list_options;
  }

  unfoldable pub generic_lister : GenericInformer (l.Informer) → l.GenericLister
  generic_lister g = l.new_generic_lister (l.get_indexer g.informer) g.group g.resource

  module _ {Indexers : Type 0} (namespace_indexers : Indexers)
      (new_shared_index_informer : ListWatch → ℕ → Indexers → l.Informer) where
    unfoldable pub new_filtered_placement_request_informer :
        l.Client → String → ℕ → Indexers → Option (l.Options → l.Options) → l.Informer
    unfolding list_watch
    new_filtered_placement_request_informer client namespace resync_period indexers tweak =
        new_shared_index_informer (list_watch client namespace tweak) resync_period indexers

    unfoldable pub new_placement_request_informer : l.Client → String → ℕ → Indexers → l.Informer
    unfolding new_filtered_placement_request_informer
    new_placement_request_informer client namespace resync_period indexers =
        new_filtered_placement_request_informer client namespace resync_period indexers none

    unfoldable pub default_informer : RequestInterface → l.Client → ℕ → l.Informer
    unfolding new_filtered_placement_request_informer
    default_informer p client resync_period =
        new_filtered_placement_request_informer client p.namespace resync_period namespace_indexers
          p.tweak_list_options

    -- The name of the type stands for the empty request that tells it.
    unfoldable pub informer : RequestInterface → Factory → l.Informer × Factory
    unfolding default_informer informer_for
    informer p f = informer_for l.set_transform "PlacementRequest" (default_informer p) f

    unfoldable pub lister : RequestInterface → Factory → l.Lister × Factory
    unfolding informer
    lister p f = let (i, f') = informer p f in (l.new_lister (l.get_indexer i), f')

    -- `format` is the library's print of a resource.
    unfoldable pub for_resource :
        (GroupVersionResource → String)
        → GroupVersionResource
        → Factory
        → (String ⊎ GenericInformer (l.Informer)) × Factory
    unfolding informer kombiner_group v1alpha1 placement_requests
    for_resource format resource f =
        if resource.group == "kombiner.x-k8s.io"
          && resource.version == "v1alpha1"
          && resource.resource == "placementrequests"
        then (let (i, f') = informer (placement_requests (v1alpha1 (kombiner_group f))) f in
            (
              inr (record { informer = i; group = resource.group; resource = resource.resource }),
              f',
            ))
        else (inl ("no informer found for " ++ format resource), f)
