-- ===== src/Api/Scheduler.antt =====
-- pkg/apis/scheduler and pkg/apis/scheduler/v1alpha1: the arguments of the binder plugin, their
-- default and the conversions between the internal and the external version. A `*metav1.Duration`
-- is Option of an int64, given by its 64 bits; what it points to is never written.
use kombiner.Prelude.{ℕ, ◌*◌, ◌^◌, String, Option, none, some, Outcome, value, panic}

pub record TypeMeta : Type 0 where
  pub kind : String
  pub api_version : String

-- Both versions have the same fields.
pub record PlacementRequestBinderArgs : Type 0 where
  pub type_meta : TypeMeta
  pub timeout : Option ℕ

-- A value of an interface type: one of the two versions, or something else.
pub data Object : Type 0 where
  internal : PlacementRequestBinderArgs → Object
  external : PlacementRequestBinderArgs → Object
  other : Object

abbrev pub minute : ℕ
minute = 60 * 10 ^ 9

unfoldable pub set_defaults : PlacementRequestBinderArgs → PlacementRequestBinderArgs
set_defaults pr = elim pr.timeout [ none ↦ record pr { timeout = some minute } | some _ ↦ pr ]

-- A failed type assertion is a panic. The second argument is the object that is written.
unfoldable pub internal_to_v1alpha1 : Object → Object → Outcome Object
internal_to_v1alpha1 (internal i) (external o) = value (external (record o { timeout = i.timeout }))
internal_to_v1alpha1 _ _ = panic

unfoldable pub v1alpha1_to_internal : Object → Object → Outcome Object
v1alpha1_to_internal (external i) (internal o) = value (internal (record o { timeout = i.timeout }))
v1alpha1_to_internal _ _ = panic
