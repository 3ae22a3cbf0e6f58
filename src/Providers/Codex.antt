-- ===== src/Providers/Codex.antt =====
-- internal/driver/codex_support.go, codex_admin.go and codex_models.go: the state that the Codex
-- driver keeps of an account's limits, and what it tells the scheduler by it. Times are Unix seconds,
-- those before 1970 are left out. Floating point and the JSON of a state are given.
pub mod Models
pub mod Captured
pub mod Resting
use llm_broker.Prelude.{
  ℕ, zero, suc, ◌+◌, ◌/◌, ◌*◌, String, Bool, true, false, ◌&&◌, ◌||◌, List, [], ◌∷◌, Option, none,
  some, Map, lookup, insert, ltb, nat_beq, str_lt, ◌==◌, string_eq, ◌<>◌, if◌then◌else◌,
}
use llm_broker.Driver.{SchedulerDriver}
use llm_broker.Domain.{Account}
use llm_broker.Pool.Cleanup.{unix, from_unix}
use llm_broker.Prelude.Int.{ℤ, pos, ltb_ℤ}
use llm_broker.Providers.Codex.Models.{codex_model_family}

-- float64, as far as the driver uses it: `u > 0`, `u >= 0.99`, a percentage of a header divided by
-- 100, 100, `(1 - u) * 100`, `<`, and the conversion to an integer.
pub record Floats : Type 1 where
  pub F : Type 0
  pub naught : F
  pub is_positive : F → Bool
  pub is_full : F → Bool
  pub percentage : String → Option F
  pub hundred : F
  pub left_of : F → F
  pub is_less : F → F → Bool
  pub to_int : F → ℤ

pub record FamilyLimits (F : Type 0) : Type 0 where
  pub primary_util : F
  pub primary_reset : ℕ
  pub secondary_util : F
  pub secondary_reset : ℕ
  pub limit_name : String

-- `legacy` holds the flat fields of old states; it has no name.
pub record CodexState (F : Type 0) : Type 0 where
  pub families : Map String (FamilyLimits F)
  pub legacy : FamilyLimits F

-- What json.Unmarshal and json.Marshal make of a state; `filled` is what the first leaves in an empty
-- state, also where it fails.
pub record StateJson (F : Type 0) : Type 0 where
  pub decode : String → Option (CodexState F)
  pub filled : String → CodexState F
  pub encode : CodexState F → String

abbrev pub insert_text : String → List String → List String
insert_text t [] = t ∷ []
insert_text t (u ∷ us) = if str_lt u t then u ∷ insert_text t us else t ∷ (u ∷ us)

-- sort.Strings
unfoldable pub sort_texts : List String → List String
sort_texts [] = []
sort_texts (t ∷ ts) = insert_text t (sort_texts ts)

abbrev pub keys : {V : Type 0} → Map String V → List String
keys [] = []
keys ((k, v) ∷ m) = k ∷ keys m

module _ (fl : Floats) where
  open fl use {F, naught, is_positive, is_full, percentage, hundred, left_of, is_less, to_int}

  abbrev pub no_limits : FamilyLimits F
  no_limits = record {
    primary_util = naught;
    primary_reset = 0;
    secondary_util = naught;
    secondary_reset = 0;
    limit_name = "";
  }

  -- The test that the flat fields hold limits.
  abbrev pub has_limits : FamilyLimits F → Bool
  has_limits f =
      is_positive f.primary_util
      || ltb 0 f.primary_reset
      || is_positive f.secondary_util
      || ltb 0 f.secondary_reset

  abbrev pub flat_limits : CodexState F → FamilyLimits F
  flat_limits s = record s.legacy { limit_name = "" }

  unfoldable pub family : CodexState F → String → FamilyLimits F
  family s prefix = elim (lookup prefix s.families) [
    | some f ↦ f
    | none ↦ if prefix == "" && has_limits s.legacy then flat_limits s else no_limits
  ]

  unfoldable pub known_families : Bool → List String → List String
  unfolding sort_texts
  known_families legacy [] = if legacy then "" ∷ [] else []
  known_families legacy (k ∷ ks) = sort_texts (k ∷ ks)

  unfoldable pub all_families : CodexState F → List String
  unfolding known_families
  all_families s = known_families (has_limits s.legacy) (keys s.families)

  is_stale_family : ℕ → FamilyLimits F → Bool
  is_stale_family now f =
      (ltb 0 f.primary_reset && ltb f.primary_reset now)
      || (ltb 0 f.secondary_reset && ltb f.secondary_reset now)
      || (is_positive f.primary_util && nat_beq f.primary_reset 0)
      || (is_positive f.secondary_util && nat_beq f.secondary_reset 0)

  any_stale : ℕ → CodexState F → List String → Bool
  unfolding is_stale_family
  any_stale now s [] = false
  any_stale now s (p ∷ ps) = is_stale_family now (family s p) || any_stale now s ps

  unfoldable pub codex_is_stale : Option (CodexState F) → ℕ → Bool
  unfolding any_stale
  codex_is_stale none now = false
  codex_is_stale (some s) now = any_stale now s (all_families s)

  -- 0 if the family is not exhausted.
  unfoldable pub compute_family_cooldown : FamilyLimits F → ℕ → ℕ
  compute_family_cooldown f now =
      let cooldown : ℕ =
        if is_full f.primary_util && ltb now f.primary_reset then f.primary_reset else 0 in
      if is_full f.secondary_util && ltb now f.secondary_reset && ltb cooldown f.secondary_reset
      then f.secondary_reset
      else cooldown

  -- The loop, with the earliest cooldown so far.
  unfoldable pub earliest_cooldown : CodexState F → ℕ → List String → ℕ → ℕ
  unfolding compute_family_cooldown
  earliest_cooldown s now [] earliest = earliest
  earliest_cooldown s now (p ∷ ps) earliest =
      let cooldown : ℕ = compute_family_cooldown (family s p) now in
      let rest : ℕ =
        earliest_cooldown s now ps
          (if nat_beq earliest 0 || ltb cooldown earliest then cooldown else earliest) in
      if nat_beq cooldown 0 then 0 else rest

  unfoldable pub codex_exhausted_cooldown : Option (CodexState F) → ℕ → ℕ
  unfolding earliest_cooldown all_families
  codex_exhausted_cooldown none now = 0
  codex_exhausted_cooldown (some s) now = earliest_cooldown s now (all_families s) 0

  -- The test of `CanServe` on the limits of the model's family.
  unfoldable pub serves : FamilyLimits F → ℕ → Bool
  serves f now =
      if is_full f.primary_util && ltb now f.primary_reset
      then false
      else if is_full f.secondary_util && ltb now f.secondary_reset
      then false
      else true

  unfoldable pub can_serve : Option (CodexState F) → String → ℕ → Bool
  unfolding serves family codex_model_family
  can_serve none model now = true
  can_serve (some s) model now = serves (family s (codex_model_family model)) now

  abbrev left_in : F → F
  left_in u = if is_positive u then left_of u else hundred

  -- What is left of the tighter window.
  unfoldable pub family_left : FamilyLimits F → ℤ
  family_left f = to_int (
      if is_less (left_in f.secondary_util) (left_in f.primary_util)
      then left_in f.secondary_util
      else left_in f.primary_util)

  unfoldable pub codex_family_priority : Option (CodexState F) → String → ℤ
  unfolding family_left family
  codex_family_priority none prefix = pos 50
  codex_family_priority (some s) prefix = family_left (family s prefix)

  best_left : CodexState F → List String → ℤ → ℤ
  unfolding family_left
  best_left s [] best = best
  best_left s (p ∷ ps) best =
      let here : ℤ = family_left (family s p) in
      best_left s ps (if ltb_ℤ best here then here else best)

  -- `best == 0` follows if no family is known.
  unfoldable pub auto_priority : Option (CodexState F) → ℤ
  unfolding best_left all_families
  auto_priority none = pos 50
  auto_priority (some s) = elim (all_families s) [
    | [] ↦ pos 50
    | p ∷ ps ↦ best_left s (p ∷ ps) (pos 0)
  ]

  abbrev to_time : ℕ → ℕ
  to_time seconds = if nat_beq seconds 0 then 0 else from_unix seconds

  unfoldable pub codex_bucket_key : Account → String
  codex_bucket_key a = "codex:" <> (if a.subject == "" then a.id else a.subject)

  -- The part of the driver that the pool schedules by, with the pool's times.
  unfoldable pub codex_scheduler : StateJson F → SchedulerDriver
  unfolding can_serve codex_family_priority codex_is_stale codex_exhausted_cooldown codex_bucket_key
      unix from_unix
  codex_scheduler json = record {
    provider = "codex";
    bucket_key = codex_bucket_key;
    assess_capacity = λ state model now. record {
      eligible = can_serve (json.decode state) model (unix now);
      priority = codex_family_priority (json.decode state) (codex_model_family model);
      class = codex_model_family model;
    };
    is_stale = λ state now. codex_is_stale (json.decode state) (unix now);
    compute_exhausted_cooldown =
        λ state now. to_time (codex_exhausted_cooldown (json.decode state) (unix now));
  }
