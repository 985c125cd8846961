-- ===== src/Clientset/Packages.antt =====
-- The packages of the client library, as parameters: rest, discovery and flowcontrol.
use kombiner.Prelude.{ℕ, zero, suc, String, Bool, true, false, Option, ◌⊎◌, inl, inr}

-- Go's int.
pub data ℤ : Type 0 where
  pos : ℕ → ℤ
  negsuc : ℕ → ℤ

abbrev pub is_positive : ℤ → Bool
is_positive (pos zero) = false
is_positive (pos (suc n)) = true
is_positive (negsuc n) = false

-- A result or the text of an error.
abbrev pub Result : Type 0 → Type 0
Result A = String ⊎ A

infixl 5 ◌and_then◌
abbrev pub ◌and_then◌ : {A B : Type 0} → Result A → (A → Result B) → Result B
inl err and_then f = inl err
inr a and_then f = f a

-- The packages of the client library; `qps_positive` is the comparison of QPS with 0.
pub record Rest : Type 1 where
  pub Limiter : Type 0
  pub Qps : Type 0
  pub HttpClient : Type 0
  pub RestClient : Type 0
  pub DiscoveryClient : Type 0
  pub Other : Type 0
  pub qps_positive : Qps → Bool
  pub default_user_agent : String
  pub new_token_bucket : Qps → ℤ → Limiter

pub record Config (r : Rest) : Type 0 where
  pub user_agent : String
  pub rate_limiter : Option (r.Limiter)
  pub qps : r.Qps
  pub burst : ℤ
  pub group : String
  pub version : String
  pub api_path : String
  pub has_serializer : Bool
  pub other : r.Other
