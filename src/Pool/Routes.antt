-- ===== src/Pool/Routes.antt =====
-- internal/pool/pool_schedule.go: the keys and counters of the routes.
use llm_broker.Prelude.{ℕ, ◌+◌, String, Bool, true, ◌&&◌, ◌≡◌, ◌↔◌, Eq, ◌==◌, string_eq, arith}
use text.Mathlib.TextEquality.{eq_iff}
use llm_broker.Prelude.Int.{ℤ, clip}

pub record RouteKey : Type 0 where
  pub provider : String
  pub bucket : String
  pub class : String

abbrev pub route_beq : RouteKey → RouteKey → Bool
route_beq a b = a.provider == b.provider && (a.bucket == b.bucket && a.class == b.class)

pub route_beq_iff : (a b : RouteKey) → (route_beq a b ≡ true) ↔ (a ≡ b)
route_beq_iff a b = (
  (λ h.
      ground
        (arith, eq_iff a.provider b.provider, eq_iff a.bucket b.bucket, eq_iff a.class b.class)),
  (λ h.
      ground
        (arith, eq_iff a.provider b.provider, eq_iff a.bucket b.bucket, eq_iff a.class b.class)),
)

instance abbrev pub route_eq : Eq RouteKey
route_eq = record { same = route_beq; same_iff = route_beq_iff }

pub record RouteLoad : Type 0 where
  pub inflight : ℕ
  pub last_assigned : ℕ

abbrev pub idle_load : RouteLoad
idle_load = record { inflight = 0; last_assigned = 0 }

-- Go's float64 and math.Sqrt, which the repository only uses, on numbers that are not negative: such
-- a float is its bit pattern, and patterns are ordered as the floats are.
pub record Float64 : Type 0 where
  pub of_int : ℕ → ℕ
  pub add : ℕ → ℕ → ℕ
  pub div : ℕ → ℕ → ℕ
  pub sqrt : ℕ → ℕ

unfoldable pub bucket_priority_weight : Float64 → ℤ → ℕ
bucket_priority_weight f priority = f.add (f.of_int 1) (f.sqrt (f.of_int (clip priority)))

unfoldable pub score : Float64 → RouteLoad → ℤ → ℕ
unfolding bucket_priority_weight
score f load priority = f.div (f.of_int (load.inflight + 1)) (bucket_priority_weight f priority)
