-- ===== src/Informers/Requests/Paths.antt =====
-- Every way to the informer of requests leads to the same one.
use kombiner.Prelude.{ℕ, ◌≡◌, ◌∙◌, refl, ap, String, List, true, ◌==◌, string_eq, eq_iff, inr, All}
use kombiner.Informers.{SharedInformerOption, new_shared_informer_factory_with_options}
use kombiner.Informers.Histories.{Later}
use kombiner.Informers.New.{IsOption}
use kombiner.Informers.Sharing.{informer_for-shared}
use kombiner.Informers.Requests.{
  Library, Factory, GroupVersionResource, ListWatch, RequestInterface, informer, lister,
  for_resource, kombiner_group, v1alpha1, placement_requests, default_informer,
}

abbrev pub IsRequests : GroupVersionResource → Type 0
IsRequests r =
    (r.group ≡ "kombiner.x-k8s.io") × (r.version ≡ "v1alpha1") × (r.resource ≡ "placementrequests")

module _ (l : Library) {Indexers : Type 0} (namespace_indexers : Indexers)
    (new_shared_index_informer : ListWatch l → ℕ → Indexers → l.Informer) where
  -- The accessors of a factory.
  abbrev requests_of : Factory l → RequestInterface l
  requests_of f = placement_requests l (v1alpha1 l (kombiner_group l f))

  for_resource_requests :
      (f : Factory l) (format : GroupVersionResource → String) (resource : GroupVersionResource)
      → IsRequests resource
      → for_resource l namespace_indexers new_shared_index_informer format resource f ≡ (
          let (i, f') = informer l namespace_indexers new_shared_index_informer (requests_of f) f in
          (inr (record { informer = i; group = resource.group; resource = resource.resource }), f'))
  unfolding for_resource
  for_resource_requests f format resource (g, v, r) =
      let group : (resource.group == "kombiner.x-k8s.io") ≡ true = (eq_iff _ _).1 g in
      let version : (resource.version == "v1alpha1") ≡ true = (eq_iff _ _).1 v in
      let name : (resource.resource == "placementrequests") ≡ true = (eq_iff _ _).1 r in
      simp (group, version, name) refl

  -- The informer of requests that a factory gives once, by way of its group and version, is the one that
  -- Informer, Lister and ForResource for requests give after any later calls, and those change nothing:
  -- both listers read its indexer.
  pub informer-shared :
      (client : l.Client) (default_resync : ℕ)
      (opts : List
        (SharedInformerOption (l.Client) (l.Options → l.Options) (l.Transform) (l.Informer)))
      (f g : Factory l) (p : RequestInterface l) (format : GroupVersionResource → String)
      (resource : GroupVersionResource)
      → All IsOption opts
      → Later l.set_transform
          (new_shared_informer_factory_with_options client default_resync opts)
          f
      → Later l.set_transform
          (informer l namespace_indexers new_shared_index_informer (requests_of f) f).1
          g
      → IsRequests resource
      → (let (i, f') = informer l namespace_indexers new_shared_index_informer (requests_of f) f in
          (informer l namespace_indexers new_shared_index_informer p g ≡ (i, g))
          × (lister l namespace_indexers new_shared_index_informer p g
              ≡ (l.new_lister (l.get_indexer i), g))
          × (for_resource l namespace_indexers new_shared_index_informer format resource g ≡ (
            inr (record { informer = i; group = resource.group; resource = resource.resource }),
            g,
          )))
  unfolding informer lister for_resource
  informer-shared client default_resync opts f g p format resource hs before later kind =
      let find = λ (q : RequestInterface l).
        informer_for-shared l.set_transform client default_resync opts f g "PlacementRequest"
          (default_informer l namespace_indexers new_shared_index_informer (requests_of f))
          (default_informer l namespace_indexers new_shared_index_informer q) hs before later in
      (
        find p,
        ap (λ r. (l.new_lister (l.get_indexer r.0), r.1)) (find p),
        for_resource_requests g format resource kind
            ∙ ap
                (λ r. (
                  inr (record {
                    informer = r.0;
                    group = resource.group;
                    resource = resource.resource;
                  }),
                  r.1,
                ))
                (find (requests_of g)),
      )
