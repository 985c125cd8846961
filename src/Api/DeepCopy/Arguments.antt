-- ===== src/Api/DeepCopy/Arguments.antt =====
-- pkg/apis/scheduler/zz_generated.deepcopy.go: the copies of the plugin's arguments. The pointer to the
-- timeout is an index into the memory of durations, or `none` for nil. The file of the same name under
-- v1alpha1 is the same but for its package.
use kombiner.Prelude.{
  ℕ, ◌≤◌, ◌<◌, ◌≡◌, refl, List, [], ◌∷◌, ◌++◌, Option, none, some, length, get_elem?, Outcome,
  value, ◌>>=◌, or_panic, Yields, yields, Yields-bind, get_elem?-append, get_elem?_lt, arith,
}
use kombiner.Api.Scheduler.{TypeMeta}
use kombiner.Api.DeepCopy.Fresh.{get_elem?-last}

pub record ArgumentsStruct : Type 0 where
  pub type_meta : TypeMeta
  pub timeout : Option ℕ

abbrev pub Durations : Type 0
Durations = List ℕ

-- What a pointer shows; none for nil.
abbrev pub shown : Option ℕ → Durations → Option ℕ
shown none mem = none
shown (some p) mem = get_elem? mem p

-- A new duration, unless the pointer is nil; one that leads nowhere is a panic.
unfoldable pub copy_duration : Option ℕ → Durations → Outcome (Option ℕ × Durations)
copy_duration none mem = value (none, mem)
copy_duration (some p) mem = do
  d ← or_panic (get_elem? mem p)
  value (some (length mem), mem ++ d ∷ [])

unfoldable pub copy_arguments : ArgumentsStruct → Durations → Outcome (ArgumentsStruct × Durations)
unfolding copy_duration
copy_arguments args mem = do
  (timeout, mem') ← copy_duration args.timeout mem
  value (record args { timeout = timeout }, mem')

-- A nil pointer gives nil.
unfoldable pub deep_copy_arguments :
    Option ArgumentsStruct → Durations → Outcome (Option ArgumentsStruct × Durations)
unfolding copy_arguments
deep_copy_arguments none mem = value (none, mem)
deep_copy_arguments (some args) mem = do
  (copy, mem') ← copy_arguments args mem
  value (some copy, mem')

-- A nil copy gives a nil object.
unfoldable pub deep_copy_arguments_object :
    Option ArgumentsStruct → Durations → Outcome (Option ArgumentsStruct × Durations)
unfolding deep_copy_arguments
deep_copy_arguments_object args mem = do
  (copy, mem') ← deep_copy_arguments args mem
  elim copy [ none ↦ value (none, mem') | some c ↦ value (some c, mem') ]

-- A valid pointer: nil or a place of the memory.
abbrev pub IsPointer : Option ℕ → Durations → Type 0
IsPointer none mem = Unit
IsPointer (some p) mem = p < length mem

-- Nil, or a new place.
abbrev pub IsNew : Option ℕ → Durations → Type 0
IsNew none mem = Unit
IsNew (some p) mem = length mem ≤ p

-- The copy shows the timeout that the original shows, its pointer is nil or new, and every place that
-- was there shows what it showed.
abbrev pub IsApart : ArgumentsStruct → Durations → ArgumentsStruct × Durations → Type 0
IsApart args mem (copy, mem') =
    (copy.type_meta ≡ args.type_meta)
    × (shown copy.timeout mem' ≡ shown args.timeout mem)
    × IsNew copy.timeout mem
    × ((p : ℕ) → p < length mem → get_elem? mem' p ≡ get_elem? mem p)

copy_duration-IsApart :
    (pointer : Option ℕ) (mem : Durations)
    → IsPointer pointer mem
    → Yields
        (λ r.
          (shown r.0 r.1 ≡ shown pointer mem)
          × IsNew r.0 mem
          × ((p : ℕ) → p < length mem → get_elem? r.1 p ≡ get_elem? mem p))
        (copy_duration pointer mem)
unfolding copy_duration
copy_duration-IsApart none mem valid = yields (refl, tt, (λ p low. refl))
copy_duration-IsApart (some p) mem valid =
    let (d, at) = get_elem?_lt mem p valid in
    rw at
      (yields (get_elem?-last mem d, omega arith, (λ k low. get_elem?-append mem (d ∷ []) k low)))

-- The copy of arguments whose pointer is nil or valid returns; it shows the type and the timeout that
-- they show, its own pointer is nil or leads to a new place, and every place that was there shows what
-- it showed.
pub copy_arguments-IsApart :
    (args : ArgumentsStruct) (mem : Durations)
    → IsPointer args.timeout mem
    → Yields (IsApart args mem) (copy_arguments args mem)
unfolding copy_arguments
copy_arguments-IsApart args mem valid =
    Yields-bind (copy_duration-IsApart args.timeout mem valid)
      λ (timeout, mem') (same, new, kept). yields (refl, same, new, kept)
