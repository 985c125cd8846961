-- ===== src/Queue/Config/Accepts.antt =====
-- Which configurations Validate accepts, and what ToMap makes of them.
use kombiner.Prelude.{
  ℕ, zero, suc, ◌<◌, ◌≡◌, ◌≢◌, ◌↔◌, ◌∙◌, sym, refl, List, [], ◌∷◌, Bool, true, Option, none, some,
  arith, String, nat_eq, string_eq, eq_iff, get_elem?, All, Option-cases, inl, inr,
}
use mathlib.Core.Path.{subst}
use kombiner.Queue.Config.Lookup.{lookup-miss, lookup-hit, lookup-none}
use kombiner.Queue.Config.{
  QueueConfig, QueueConfigs, validate_config, lookup, validate_loop, validate, to_map_from, to_map,
}

-- Every field that the program reads is set.
abbrev pub IsComplete : QueueConfig → Type 0
IsComplete c =
    (c.queue.scheduler_name ≢ "")
    × (0 < c.queue.weight)
    × (0 < c.queue.max_size)
    × (c.queue_ref ≢ none)

-- No name stands twice.
abbrev pub NamesDiffer : QueueConfigs → Type 0
NamesDiffer [] = Unit
NamesDiffer (cfg ∷ cfgs) =
    All (λ other. cfg.queue.scheduler_name ≢ other.queue.scheduler_name) cfgs × NamesDiffer cfgs

none≢some : {k : ℕ} (r : Option ℕ) → r ≡ some k → r ≢ none
none≢some r e h = cc

validate_config_iff : (c : QueueConfig) → (validate_config c ≡ none) ↔ IsComplete c
unfolding validate_config
validate_config_iff c = elim (Option-cases c.queue_ref) [
  | inl e ↦ (
    (λ h. absurd (ground (arith, e, eq_iff c.queue.scheduler_name ""))),
    (λ (a, b, d, f). absurd (f e)),
  )
  | inr (k, e) ↦ (
    (λ h. (
      ground (arith, e, eq_iff c.queue.scheduler_name ""),
      ground (arith, e),
      ground (arith, e),
      none≢some c.queue_ref e,
    )),
    (λ (a, b, d, f). ground (arith, e, eq_iff c.queue.scheduler_name "")),
  )
]

-- No name of the configs is among those seen.
abbrev AreNew : List (String × Bool) → QueueConfigs → Type 0
AreNew seen cfgs = All (λ c. lookup c.queue.scheduler_name seen ≡ none) cfgs

AreNew-seen :
    (name : String) (seen : List (String × Bool)) (cfgs : QueueConfigs)
    → AreNew ((name, true) ∷ seen) cfgs
    → All (λ other. name ≢ other.queue.scheduler_name) cfgs × AreNew seen cfgs
AreNew-seen name seen [] h = (tt, tt)
AreNew-seen name seen (cfg ∷ cfgs) h =
    let (differ, new) = lookup-none cfg.queue.scheduler_name name true seen h.0 in
    let (others, rest) = AreNew-seen name seen cfgs h.1 in ((differ, others), (new, rest))

AreNew-add :
    (name : String) (seen : List (String × Bool)) (cfgs : QueueConfigs)
    → All (λ other. name ≢ other.queue.scheduler_name) cfgs
    → AreNew seen cfgs
    → AreNew ((name, true) ∷ seen) cfgs
AreNew-add name seen [] h new = tt
AreNew-add name seen (cfg ∷ cfgs) h new = (
  lookup-miss cfg.queue.scheduler_name name true seen h.0 ∙ new.0,
  AreNew-add name seen cfgs h.1 new.1,
)

AreNew-empty : (cfgs : QueueConfigs) → AreNew [] cfgs
unfolding lookup
AreNew-empty [] = tt
AreNew-empty (cfg ∷ cfgs) = (refl, AreNew-empty cfgs)

module _ (quote : String → String) where
  accepted :
      (seen : List (String × Bool)) (cfgs : QueueConfigs)
      → All IsComplete cfgs
      → NamesDiffer cfgs
      → AreNew seen cfgs
      → validate_loop quote seen cfgs ≡ none
  unfolding validate_loop
  accepted seen [] complete differ new = refl
  accepted seen (cfg ∷ cfgs) complete differ new =
      rw (new.0, validate_loop)
        (rw ((validate_config_iff cfg).1 complete.0) (
          accepted ((cfg.queue.scheduler_name, true) ∷ seen) cfgs complete.1 differ.1
            (AreNew-add cfg.queue.scheduler_name seen cfgs differ.0 new.1)))

  accepting :
      (seen : List (String × Bool)) (cfgs : QueueConfigs)
      → validate_loop quote seen cfgs ≡ none
      → All IsComplete cfgs × NamesDiffer cfgs × AreNew seen cfgs
  unfolding validate_loop
  accepting seen [] h = (tt, tt, tt)
  accepting seen (cfg ∷ cfgs) h =
      let name = cfg.queue.scheduler_name in
      elim (Option-cases (lookup name seen)) [
        | inr (v, old) ↦ absurd (let e = rw (old, validate_loop) at h in cc)
        | inl new ↦ elim (Option-cases (validate_config cfg)) [
          | inr (err, bad) ↦ absurd (let e = rw bad at (rw (new, validate_loop) at h) in cc)
          | inl good ↦
              let (complete, differ, rest) =
                accepting ((name, true) ∷ seen) cfgs (rw good at (rw (new, validate_loop) at h)) in
              let (others, older) = AreNew-seen name seen cfgs rest in
              (((validate_config_iff cfg).0 good, complete), (others, differ), (new, older))
        ]
      ]

  -- Validate returns no error exactly if every config has a name, a weight and a size over 0 and a
  -- queue, and no two have the same name.
  pub validate_lem :
      (cfgs : QueueConfigs)
      → (validate quote cfgs ≡ none) ↔ (All IsComplete cfgs × NamesDiffer cfgs)
  unfolding validate
  validate_lem cfgs = (
    (λ h. let (complete, differ, _) = accepting [] cfgs h in (complete, differ)),
    (λ (complete, differ). accepted [] cfgs complete differ (AreNew-empty cfgs)),
  )

to_map_from-keeps :
    (m : List (String × QueueConfig)) (k : String) (v : QueueConfig) (cfgs : QueueConfigs)
    → lookup k m ≡ some v
    → All (λ other. k ≢ other.queue.scheduler_name) cfgs
    → lookup k (to_map_from m cfgs) ≡ some v
unfolding to_map_from
to_map_from-keeps m k v [] e h = e
to_map_from-keeps m k v (cfg ∷ cfgs) e h =
    let name = cfg.queue.scheduler_name in
    to_map_from-keeps ((name, cfg) ∷ m) k v cfgs
      (lookup-miss k name cfg m (λ same. h.0 (sym same)) ∙ e) h.1

to_map_from-finds :
    (m : List (String × QueueConfig)) (cfgs : QueueConfigs) (i : ℕ) {cfg : QueueConfig}
    → NamesDiffer cfgs
    → get_elem? cfgs i ≡ some cfg
    → lookup cfg.queue.scheduler_name (to_map_from m cfgs) ≡ some cfg
unfolding to_map_from
to_map_from-finds m [] i d e = absurd (cc)
to_map_from-finds m (c ∷ cs) zero {cfg} d e =
    let same : c ≡ cfg = cc in
    let name = c.queue.scheduler_name in
    subst
      (λ (x : QueueConfig). lookup x.queue.scheduler_name (to_map_from ((name, c) ∷ m) cs) ≡ some x)
      same (to_map_from-keeps ((name, c) ∷ m) name c cs (lookup-hit name c m) d.0)
to_map_from-finds m (c ∷ cs) (suc i) d e =
    to_map_from-finds ((c.queue.scheduler_name, c) ∷ m) cs i d.1 e

-- Once Validate has accepted the configs, the map of ToMap has each of them under its name.
pub lookup-to_map :
    (quote : String → String) (cfgs : QueueConfigs) (i : ℕ) (cfg : QueueConfig)
    → validate quote cfgs ≡ none
    → get_elem? cfgs i ≡ some cfg
    → lookup cfg.queue.scheduler_name (to_map cfgs) ≡ some cfg
unfolding to_map
lookup-to_map quote cfgs i cfg ok at =
    to_map_from-finds [] cfgs i ((validate_lem quote cfgs).0 ok).1 at
