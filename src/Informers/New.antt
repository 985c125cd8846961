-- ===== src/Informers/New.antt =====
-- New informer factories, with the options of the package.
use kombiner.Prelude.{
  ℕ, ◌≡◌, ◌∙◌, refl, sym, ap, subst, arith, String, List, [], ◌∷◌, Option, All, map,
}
use kombiner.Informers.{
  SharedInformerFactory, SharedInformerOption, new_shared_informer_factory_with_options,
  apply_options, with_custom_resync_config, with_tweak_list_options, with_namespace, with_transform,
}
use kombiner.Informers.Runs.{AreDistinct, mark, IsRegistered, IsConsistent}
use kombiner.Informers.Histories.{Later, Later-IsConsistent}

module _ {C T X I : Type 0} where
  -- The options of the package.
  pub data IsOption : SharedInformerOption C T X I → Type 0 where
    custom : (config : List (String × ℕ)) → IsOption (with_custom_resync_config config)
    tweaked : (tweak : Option T) → IsOption (with_tweak_list_options tweak)
    named : (namespace : String) → IsOption (with_namespace namespace)
    transformed : (transform : Option X) → IsOption (with_transform transform)

  IsNew : SharedInformerFactory C T X I → Type 0
  IsNew f = (f.informers ≡ []) × (f.started_informers ≡ []) × (f.runs ≡ []) × (f.wg ≡ 0)

  custom-IsNew :
      (config : List (String × ℕ)) (f : SharedInformerFactory C T X I)
      → IsNew f
      → IsNew (with_custom_resync_config config f)
  unfolding with_custom_resync_config IsNew
  custom-IsNew [] f h = h
  custom-IsNew ((ty, period) ∷ config) f h =
      custom-IsNew config (record f { custom_resync = (ty, period) ∷ f.custom_resync }) h

  option-IsNew :
      {opt : SharedInformerOption C T X I} (f : SharedInformerFactory C T X I)
      → IsOption opt
      → IsNew f
      → IsNew (opt f)
  unfolding with_tweak_list_options with_namespace with_transform IsNew
  option-IsNew f (custom config) h = custom-IsNew config f h
  option-IsNew f (tweaked tweak) h = h
  option-IsNew f (named namespace) h = h
  option-IsNew f (transformed transform) h = h

  apply_options-IsNew :
      (opts : List (SharedInformerOption C T X I)) (f : SharedInformerFactory C T X I)
      → All IsOption opts
      → IsNew f
      → IsNew (apply_options opts f)
  unfolding apply_options
  apply_options-IsNew [] f hs h = h
  apply_options-IsNew (opt ∷ opts) f hs h =
      apply_options-IsNew opts (opt f) hs.1 (option-IsNew f hs.0 h)

  IsNew-IsConsistent : (f : SharedInformerFactory C T X I) → IsNew f → IsConsistent f
  unfolding IsNew
  IsNew-IsConsistent f (no_informers, no_types, no_runs, idle) = record {
    marked = no_types ∙ ap (map mark) (sym no_runs);
    registered = subst (All (IsRegistered f)) (sym no_runs) tt;
    once = subst AreDistinct (sym no_runs) tt;
    keys = subst AreDistinct (sym no_informers) tt;
    counted = rw idle (omega arith);
  }

module _ {C T X I : Type 0} (set_transform : Option X → I → I) where
  -- From a new factory with options of the package on, after any calls of InformerFor, Start and
  -- Shutdown and any ends of goroutines: the started types are those of the goroutines, a type has at
  -- most one goroutine, which runs the type's registered informer, a type has one informer, and the
  -- wait group counts at most the goroutines.
  pub new_factory-IsConsistent :
      (client : C) (default_resync : ℕ) (opts : List (SharedInformerOption C T X I))
      (f : SharedInformerFactory C T X I)
      → All IsOption opts
      → Later set_transform (new_shared_informer_factory_with_options client default_resync opts) f
      → IsConsistent f
  unfolding new_shared_informer_factory_with_options IsNew
  new_factory-IsConsistent client default_resync opts f hs later =
      Later-IsConsistent set_transform
        (IsNew-IsConsistent _ (apply_options-IsNew opts _ hs (refl, refl, refl, refl))) later
