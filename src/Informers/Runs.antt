-- ===== src/Informers/Runs.antt =====
-- The goroutines of the informer factory, over any calls of its methods.
use kombiner.Prelude.{
  ◌≤◌, ◌≡◌, ◌∙◌, refl, sym, ap, subst, arith, String, List, [], ◌∷◌, Bool, true, false, none, some,
  inl, inr, string_eq, All, Option-cases, length, map,
}
use kombiner.Queue.Config.{lookup}
use kombiner.Queue.Config.Lookup.{lookup-hit, lookup-miss, All-lookup}
use kombiner.Informers.{SharedInformerFactory, is_started, start_one, start_loop}

module _ {V : Type 0} where
  -- No key stands twice.
  abbrev pub AreDistinct : List (String × V) → Type 0
  AreDistinct [] = Unit
  AreDistinct ((k, v) ∷ m) = (lookup k m ≡ none) × AreDistinct m

  abbrev pub mark : String × V → String × Bool
  mark (k, v) = (k, true)

  pub is_started-mark :
      (k : String) (m : List (String × V))
      → is_started (map mark m) k ≡ (elim (lookup k m) [ some v ↦ true | none ↦ false ])
  unfolding lookup
  is_started-mark k [] = refl
  is_started-mark k ((j, v) ∷ m) = ground (arith, is_started-mark k m)

module _ {C T X I : Type 0} where
  -- An entry of the map of informers.
  abbrev pub IsRegistered : SharedInformerFactory C T X I → String × I → Type 0
  IsRegistered f (ty, informer) = lookup ty f.informers ≡ some informer

  -- The goroutines are those of the started types, one for each, which runs the type's informer. Those
  -- that have not ended are counted.
  pub record IsConsistent (f : SharedInformerFactory C T X I) : Type 0 where
    pub marked : f.started_informers ≡ map mark f.runs
    pub registered : All (IsRegistered f) f.runs
    pub once : AreDistinct f.runs
    pub keys : AreDistinct f.informers
    pub counted : f.wg ≤ length f.runs

  -- What a part of the loop of Start does from `f` to `g`, for the entries that it has met.
  pub record Starts (f : SharedInformerFactory C T X I) (entries : List (String × I))
      (g : SharedInformerFactory C T X I) : Type 0 where
    pub consistent : IsConsistent g
    pub informers : g.informers ≡ f.informers
    pub all_run : All (λ e. lookup e.0 g.runs ≡ some e.1) entries
    pub kept : (k : String) (i : I) → lookup k f.runs ≡ some i → lookup k g.runs ≡ some i

  start_one-Starts :
      (ty : String) (i : I) (f : SharedInformerFactory C T X I)
      → IsConsistent f
      → lookup ty f.informers ≡ some i
      → Starts f ((ty, i) ∷ []) (start_one (ty, i) f)
  unfolding start_one
  start_one-Starts ty i f h at =
      let answer = ap (λ m. is_started m ty) h.marked ∙ is_started-mark ty f.runs in
      elim (Option-cases (lookup ty f.runs)) [
        | inr (j, ran) ↦
            let yes_started : is_started f.started_informers ty ≡ true = answer ∙ (rw ran refl) in
            let same = All-lookup (IsRegistered f) ty j f.runs h.registered ran in
            rw yes_started
              (record { consistent = h; informers = refl; all_run = (cc, tt); kept = λ k v e. e })
        | inl fresh ↦
            let not_started : is_started f.started_informers ty ≡ false =
              answer ∙ (rw fresh refl) in
            rw not_started (record {
              consistent = record {
                marked = ap (λ m. (ty, true) ∷ m) h.marked;
                registered = (at, h.registered);
                once = (fresh, h.once);
                keys = h.keys;
                counted = omega (arith, h.counted);
              };
              informers = refl;
              all_run = (lookup-hit ty i f.runs, tt);
              kept = λ k v e. lookup-miss k ty i f.runs (λ s. absurd (cc)) ∙ e;
            })
      ]

  pub start_loop-Starts :
      (entries : List (String × I)) (f : SharedInformerFactory C T X I)
      → IsConsistent f
      → All (IsRegistered f) entries
      → Starts f entries (start_loop entries f)
  unfolding start_loop
  start_loop-Starts [] f h at = record {
    consistent = h;
    informers = refl;
    all_run = tt;
    kept = λ k v e. e;
  }
  start_loop-Starts ((ty, i) ∷ entries) f h at =
      let one = start_one-Starts ty i f h at.0 in
      let rest = start_loop-Starts entries (start_one (ty, i) f) one.consistent (
        subst (λ m. All (λ (e : String × I). lookup e.0 m ≡ some e.1) entries) (sym one.informers)
          at.1) in
      record {
        consistent = rest.consistent;
        informers = rest.informers ∙ one.informers;
        all_run = (rest.kept ty i one.all_run.0, rest.all_run);
        kept = λ k v e. rest.kept k v (one.kept k v e);
      }
