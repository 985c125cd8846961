-- ===== src/Informers/Sharing.antt =====
-- InformerFor: one informer for a type.
use kombiner.Prelude.{
  ℕ, ◌≡◌, ◌∙◌, sym, ap, subst, String, List, Option, some, inl, inr, All, Option-cases, Bool-cases,
}
use kombiner.Queue.Config.{lookup}
use kombiner.Queue.Config.Lookup.{lookup-hit, lookup-miss}
use kombiner.Informers.{
  SharedInformerFactory, SharedInformerOption, informer_for, finish, shutdown,
  new_shared_informer_factory_with_options,
}
use kombiner.Informers.Runs.{IsConsistent}
use kombiner.Informers.Histories.{
  Later, now, asked, started, ended, shut, start-Starts, Later-IsConsistent, informer_for_known,
  informer_for_new, start_up, start_down,
}
use kombiner.Informers.New.{IsOption, new_factory-IsConsistent}

module _ {C T X I : Type 0} (set_transform : Option X → I → I) where
  -- A registered informer stays.
  Later-keeps :
      {f g : SharedInformerFactory C T X I} (ty : String) (informer : I)
      → IsConsistent f
      → Later set_transform f g
      → lookup ty f.informers ≡ some informer
      → lookup ty g.informers ≡ some informer
  unfolding finish shutdown
  Later-keeps ty informer c now known = known
  Later-keeps ty informer c (asked {g} ty' new_func l) known =
      let before = Later-keeps ty informer c l known in
      elim (Option-cases (lookup ty' g.informers)) [
        | inr (i, old) ↦
            subst (λ r. lookup ty r.1.informers ≡ some informer)
              (sym (informer_for_known set_transform ty' new_func g old)) before
        | inl fresh ↦
            subst (λ r. lookup ty r.1.informers ≡ some informer)
              (sym (informer_for_new set_transform ty' new_func g fresh))
              (lookup-miss ty ty' _ g.informers (λ same. absurd (cc)) ∙ before)
      ]
  Later-keeps ty informer c (started {g} walk l same) known =
      let before = Later-keeps ty informer c l known in
      elim (Bool-cases g.shutting_down) [
        | inl down ↦
            subst (λ r. lookup ty r.informers ≡ some informer)
              (sym (start_down set_transform walk g down)) before
        | inr up ↦
            let loop =
              start-Starts set_transform walk g (Later-IsConsistent set_transform c l) same in
            subst (λ r. lookup ty r.informers ≡ some informer)
              (sym (start_up set_transform walk g up)) (ap (lookup ty) loop.informers ∙ before)
      ]
  Later-keeps ty informer c (ended l running) known = Later-keeps ty informer c l known
  Later-keeps ty informer c (shut l) known = Later-keeps ty informer c l known

  informer_for-registers :
      (ty : String) (new_func : C → ℕ → I) (f : SharedInformerFactory C T X I)
      → lookup ty (informer_for set_transform ty new_func f).1.informers
        ≡ some (informer_for set_transform ty new_func f).0
  informer_for-registers ty new_func f = elim (Option-cases (lookup ty f.informers)) [
    | inr (i, old) ↦ rw (informer_for_known set_transform ty new_func f old) old
    | inl fresh ↦
        rw (informer_for_new set_transform ty new_func f fresh) (lookup-hit ty _ f.informers)
  ]

  -- The informer that InformerFor has returned for a type is returned by every later call of it for that
  -- type, whatever constructor it is given, and such a call changes nothing.
  pub informer_for-shared :
      (client : C) (default_resync : ℕ) (opts : List (SharedInformerOption C T X I))
      (f g : SharedInformerFactory C T X I) (ty : String) (new_func new_func' : C → ℕ → I)
      → All IsOption opts
      → Later set_transform (new_shared_informer_factory_with_options client default_resync opts) f
      → Later set_transform (informer_for set_transform ty new_func f).1 g
      → informer_for set_transform ty new_func' g
        ≡ ((informer_for set_transform ty new_func f).0, g)
  informer_for-shared client default_resync opts f g ty new_func new_func' hs before later =
      let c =
        new_factory-IsConsistent set_transform client default_resync opts
          (informer_for set_transform ty new_func f).1 hs (asked ty new_func before) in
      informer_for_known set_transform ty new_func' g (
        Later-keeps ty (informer_for set_transform ty new_func f).0 c later
          (informer_for-registers ty new_func f))
