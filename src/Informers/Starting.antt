-- ===== src/Informers/Starting.antt =====
-- Start, WaitForCacheSync and Shutdown: one goroutine for a type, and none after the end.
use kombiner.Prelude.{
  ℕ, ◌≤◌, ◌≡◌, ◌∙◌, refl, sym, ap, subst, arith, String, List, [], ◌∷◌, Bool, true, false, Option,
  some, inl, inr, All, All-permᴰ, Option-cases, map,
}
use mathlib.Core.List.{Permᴰ}
use mathlib.Core.List.Permᴰ
use kombiner.Queue.Config.{lookup}
use kombiner.Queue.Config.Lookup.{All-lookup}
use kombiner.Informers.{
  SharedInformerFactory, SharedInformerOption, is_started, start, start_loop, finish, shutdown,
  new_shared_informer_factory_with_options, started_of, wait_all, wait_for_cache_sync,
}
use kombiner.Informers.Runs.{is_started-mark, IsRegistered, IsConsistent}
use kombiner.Informers.Histories.{
  Later, now, asked, started, ended, shut, start-Starts, informer_for_known, informer_for_new,
  start_up, start_down,
}
use kombiner.Informers.New.{IsOption, new_factory-IsConsistent}

module _ {C T X I : Type 0} (set_transform : Option X → I → I) where
  started_of-all :
      (wait : I → Bool) (f : SharedInformerFactory C T X I) (walk : List (String × I))
      → IsConsistent f
      → All (λ e. lookup e.0 f.runs ≡ some e.1) walk
      → wait_all wait (started_of f.started_informers walk)
        ≡ map (λ (e : String × I). (e.0, wait e.1)) walk
  unfolding started_of wait_all
  started_of-all wait f [] c run = refl
  started_of-all wait f ((ty, i) ∷ walk) c run =
      let marked : is_started f.started_informers ty ≡ true =
        ap (λ m. is_started m ty) c.marked ∙ is_started-mark ty f.runs ∙ (rw run.0 refl) in
      rw marked (ap (λ rest. (ty, wait i) ∷ rest) (started_of-all wait f walk c run.1))

  same_keys :
      (f : SharedInformerFactory C T X I) (ty : String)
      → IsConsistent f
      → All (λ (e : String × I). lookup e.0 f.runs ≡ some e.1) f.informers
      → lookup ty f.runs ≡ lookup ty f.informers
  same_keys f ty c run = elim (Option-cases (lookup ty f.informers)) [
    | inr (i, known) ↦
        All-lookup (λ (e : String × I). lookup e.0 f.runs ≡ some e.1) ty i f.informers run known
        ∙ sym known
    | inl unknown ↦ elim (Option-cases (lookup ty f.runs)) [
      | inl none_ran ↦ none_ran ∙ sym unknown
      | inr (i, ran) ↦
          let known = All-lookup (IsRegistered f) ty i f.runs c.registered ran in absurd (cc)
    ]
  ]

  -- From a new factory with options of the package on, after any calls, and while it is not shutting
  -- down: after Start the history of the goroutines holds for every type one run, that of its registered
  -- informer, and none for a type without one. (Of an informer whose goroutine has ended that is the
  -- run that ended: Start does not run it again.) And WaitForCacheSync, called right after it with the map in the same order, answers for every
  -- registered informer what the library's wait says of it.
  pub start-runs :
      (client : C) (default_resync : ℕ) (opts : List (SharedInformerOption C T X I))
      (f : SharedInformerFactory C T X I) (walk : List (String × I)) (wait : I → Bool) (ty : String)
      → All IsOption opts
      → Later set_transform (new_shared_informer_factory_with_options client default_resync opts) f
      → Permᴰ f.informers walk
      → f.shutting_down ≡ false
      → (lookup ty (start walk f).runs ≡ lookup ty f.informers)
        × (wait_for_cache_sync wait walk (start walk f)
            ≡ map (λ (e : String × I). (e.0, wait e.1)) walk)
  unfolding wait_for_cache_sync
  start-runs client default_resync opts f walk wait ty hs before same up =
      let c = new_factory-IsConsistent set_transform client default_resync opts f hs before in
      let loop = start-Starts set_transform walk f c same in
      let all =
        subst (All (λ (e : String × I). lookup e.0 (start_loop walk f).runs ≡ some e.1))
          (sym loop.informers)
          (All-permᴰ (λ (e : String × I). lookup e.0 (start_loop walk f).runs ≡ some e.1)
            (Permᴰ.symm same) loop.all_run) in
      subst
        (λ g.
          (lookup ty g.runs ≡ lookup ty f.informers)
          × (wait_for_cache_sync wait walk g ≡ map (λ (e : String × I). (e.0, wait e.1)) walk))
        (sym (start_up set_transform walk f up))
        (
          same_keys (start_loop walk f) ty loop.consistent all ∙ ap (lookup ty) loop.informers,
          started_of-all wait (start_loop walk f) walk loop.consistent loop.all_run,
        )

  -- Once Shutdown has been called no informer is run any more, whatever is called after it, the
  -- factory stays in shutdown, and the counter that Shutdown waits for never rises.
  pub shutdown-final :
      (f g : SharedInformerFactory C T X I)
      → Later set_transform (shutdown f) g
      → (g.shutting_down ≡ true) × (g.runs ≡ f.runs) × (g.wg ≤ f.wg)
  unfolding shutdown finish
  shutdown-final f _ now = (refl, refl, omega arith)
  shutdown-final f _ (asked {g = h} ty new_func l) =
      let before = shutdown-final f h l in
      elim (Option-cases (lookup ty h.informers)) [
        | inr (i, old) ↦ rw (informer_for_known set_transform ty new_func h old) before
        | inl fresh ↦ rw (informer_for_new set_transform ty new_func h fresh) before
      ]
  shutdown-final f _ (started {g = h} walk l same) =
      let before = shutdown-final f h l in rw (start_down set_transform walk h before.0) before
  shutdown-final f _ (ended {g = h} l running) =
      let (down, runs, less) = shutdown-final f h l in (down, runs, omega (arith, less))
  shutdown-final f _ (shut {g = h} l) =
      let (down, runs, less) = shutdown-final f h l in (refl, runs, less)
