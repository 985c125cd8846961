-- ===== src/Informers/Histories.antt =====
-- The calls of the informer factory's methods in any order, and what holds after them.
use kombiner.Prelude.{
  ℕ, ◌<◌, ◌≡◌, ◌∙◌, refl, sym, subst, arith, String, List, [], ◌∷◌, true, false, Option, none, some,
  inl, inr, All, All-map, All-permᴰ, Option-cases, Bool-cases,
}
use mathlib.Core.List.{Permᴰ}
use kombiner.Queue.Config.{lookup}
use kombiner.Queue.Config.Lookup.{lookup-hit, lookup-miss}
use kombiner.Informers.{
  SharedInformerFactory, informer_for, resync_period, start, start_loop, finish, shutdown,
}
use kombiner.Informers.Runs.{AreDistinct, IsRegistered, IsConsistent, Starts, start_loop-Starts}

module _ {V : Type 0} where
  -- In a map each entry is the one that its key finds.
  AreDistinct-All : (m : List (String × V)) → AreDistinct m → All (λ e. lookup e.0 m ≡ some e.1) m
  AreDistinct-All [] h = tt
  AreDistinct-All ((k, v) ∷ m) h = (
    lookup-hit k v m,
    All-map m (λ (j, w) found. lookup-miss j k v m (λ same. absurd (cc)) ∙ found)
        (AreDistinct-All m h.1),
  )

module _ {C T X I : Type 0} (set_transform : Option X → I → I) where
  -- Some calls after another; a goroutine ends only while one runs, and Start walks the map in any order.
  pub data Later (f : SharedInformerFactory C T X I) : SharedInformerFactory C T X I → Type 0 where
    now : Later f f
    asked :
        {g : SharedInformerFactory C T X I} (ty : String) (new_func : C → ℕ → I)
        → Later f g
        → Later f (informer_for set_transform ty new_func g).1
    started :
        {g : SharedInformerFactory C T X I} (walk : List (String × I))
        → Later f g
        → Permᴰ g.informers walk
        → Later f (start walk g)
    ended : {g : SharedInformerFactory C T X I} → Later f g → 0 < g.wg → Later f (finish g)
    shut : {g : SharedInformerFactory C T X I} → Later f g → Later f (shutdown g)

  pub start-Starts :
      (walk : List (String × I)) (f : SharedInformerFactory C T X I)
      → IsConsistent f
      → Permᴰ f.informers walk
      → Starts f walk (start_loop walk f)
  start-Starts walk f h same =
      start_loop-Starts walk f h
        (All-permᴰ (IsRegistered f) same (AreDistinct-All f.informers h.keys))

  pub informer_for_known :
      {informer : I} (ty : String) (new_func : C → ℕ → I) (f : SharedInformerFactory C T X I)
      → lookup ty f.informers ≡ some informer
      → informer_for set_transform ty new_func f ≡ (informer, f)
  unfolding informer_for
  informer_for_known ty new_func f known = rw (known, informer_for) refl

  pub informer_for_new :
      (ty : String) (new_func : C → ℕ → I) (f : SharedInformerFactory C T X I)
      → lookup ty f.informers ≡ none
      → informer_for set_transform ty new_func f ≡ (
          let informer = set_transform f.transform (new_func f.client (resync_period f ty)) in
          (informer, record f { informers = (ty, informer) ∷ f.informers }))
  unfolding informer_for
  informer_for_new ty new_func f unknown = rw (unknown, informer_for) refl

  informer_for-IsConsistent :
      (ty : String) (new_func : C → ℕ → I) (f : SharedInformerFactory C T X I)
      → IsConsistent f
      → IsConsistent (informer_for set_transform ty new_func f).1
  informer_for-IsConsistent ty new_func f h = elim (Option-cases (lookup ty f.informers)) [
    | inr (i, known) ↦
        subst (λ r. IsConsistent r.1) (sym (informer_for_known ty new_func f known)) h
    | inl unknown ↦
        subst (λ r. IsConsistent r.1) (sym (informer_for_new ty new_func f unknown))
          (record {
            marked = h.marked;
            registered =
                All-map f.runs
                  (λ (j, w) at. lookup-miss j ty _ f.informers (λ same. absurd (cc)) ∙ at)
                  h.registered;
            once = h.once;
            keys = (unknown, h.keys);
            counted = h.counted;
          })
  ]

  pub start_down :
      (walk : List (String × I)) (f : SharedInformerFactory C T X I)
      → f.shutting_down ≡ true
      → start walk f ≡ f
  unfolding start
  start_down walk f down = simp down refl

  pub start_up :
      (walk : List (String × I)) (f : SharedInformerFactory C T X I)
      → f.shutting_down ≡ false
      → start walk f ≡ start_loop walk f
  unfolding start
  start_up walk f up = simp up refl

  start-IsConsistent :
      (walk : List (String × I)) (f : SharedInformerFactory C T X I)
      → IsConsistent f
      → Permᴰ f.informers walk
      → IsConsistent (start walk f)
  start-IsConsistent walk f h same = elim (Bool-cases f.shutting_down) [
    | inl down ↦ subst IsConsistent (sym (start_down walk f down)) h
    | inr up ↦
        subst IsConsistent (sym (start_up walk f up)) ((start-Starts walk f h same).consistent)
  ]

  pub Later-IsConsistent :
      {f g : SharedInformerFactory C T X I} → IsConsistent f → Later f g → IsConsistent g
  unfolding finish shutdown
  Later-IsConsistent h now = h
  Later-IsConsistent h (asked {g} ty new_func l) =
      informer_for-IsConsistent ty new_func g (Later-IsConsistent h l)
  Later-IsConsistent h (started {g} walk l same) =
      start-IsConsistent walk g (Later-IsConsistent h l) same
  Later-IsConsistent h (ended {g} l running) =
      let c = Later-IsConsistent h l in
      record {
        marked = c.marked;
        registered = c.registered;
        once = c.once;
        keys = c.keys;
        counted = omega (arith, c.counted);
      }
  Later-IsConsistent h (shut {g} l) =
      let c = Later-IsConsistent h l in
      record {
        marked = c.marked;
        registered = c.registered;
        once = c.once;
        keys = c.keys;
        counted = c.counted;
      }
