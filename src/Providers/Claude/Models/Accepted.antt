-- ===== src/Providers/Claude/Models/Accepted.antt =====
-- Which models the Claude driver accepts, also of those that the compat interface hands to it.
use Prim.Native.String.{String}
use mathlib.Core.Path.{subst}
use text.Mathlib.TextEquality.{eq_iff}
use llm_broker.Prelude.{
  ℕ, Bool, true, false, ◌&&◌, ◌||◌, List, [], ◌∷◌, Option, none, some, ◌≡◌, refl, ap, ◌∙◌, inl, inr,
  arith, Mem, map, ◌==◌, string_eq, Bool-cases, Option-cases, is_some,
}
use llm_broker.Domain.Surfaces.{runes, same_codes, trim_space, is_space, to_lower}
use llm_broker.Providers.Claude.Models.{
  ClaudeModelEntry, Normalized, accepted, invalid, claude_model_entries, first_claude,
  claude_model_entry_for_id, normalize_trimmed, normalize_claude_model_id,
}
use llm_broker.Server.Chat.Models.{aliases, alias_of, canonical_claude_model}

every : {A : Type 0} → (A → Bool) → List A → Bool
every p [] = true
every p (x ∷ xs) = p x && every p xs

every_at :
    {A : Type 0} → (p : A → Bool) (xs : List A) (a : A) → every p xs ≡ true → Mem a xs → p a ≡ true
unfolding every
every_at p [] a h m = elim m [ ]
every_at p (x ∷ xs) a h (inl e) = ap p e ∙ ground (arith, h)
every_at p (x ∷ xs) a h (inr m) = every_at p xs a (ground (arith, h)) m

first_claude-Mem :
    (id : List ℕ) (es : List ClaudeModelEntry) {e : ClaudeModelEntry}
    → first_claude id es ≡ some e
    → Mem e es
unfolding first_claude
first_claude-Mem id [] q = ground arith
first_claude-Mem id (d ∷ es) q =
    elim (Bool-cases (same_codes id (runes d.public_id) || same_codes id (runes d.upstream_id))) [
      | inl t ↦ inl (ground (arith, rw t at q))
      | inr t ↦ inr (first_claude-Mem id es (rw t at q))
    ]

accepted_id : Normalized → Option String
accepted_id (accepted u) = some u
accepted_id (invalid message) = none

accepted_id-some :
    (n : Normalized) → is_some (accepted_id n) ≡ true → (id : String) × (n ≡ accepted id)
unfolding accepted_id
accepted_id-some (accepted u) h = (u, refl)
accepted_id-some (invalid message) h = ground arith

stays : String → Option String → Bool
stays id none = false
stays id (some u) = u == id

stays-accepted : (id : String) (n : Normalized) → stays id (accepted_id n) ≡ true → n ≡ accepted id
unfolding stays accepted_id
stays-accepted id (accepted u) h = ground (arith, h, eq_iff u id)
stays-accepted id (invalid message) h = ground arith

-- A model that is named by the table of aliases.
unfoldable pub is_alias : List ℕ → List (String × String) → Bool
is_alias model [] = false
is_alias model ((name, canonical) ∷ others) = same_codes model (runes name) || is_alias model others

module _ (quote : List ℕ → List ℕ) where
  is_stable : ClaudeModelEntry → Bool
  is_stable e =
      stays e.upstream_id (accepted_id (normalize_claude_model_id quote (runes e.upstream_id)))

  all_stable : every is_stable claude_model_entries ≡ true
  unfolding every is_stable stays accepted_id normalize_claude_model_id same_codes is_space
  all_stable = refl

  stable_at :
      (e : ClaudeModelEntry)
      → Mem e claude_model_entries
      → normalize_claude_model_id quote (runes e.upstream_id) ≡ accepted e.upstream_id
  unfolding is_stable
  stable_at e m =
      stays-accepted e.upstream_id (normalize_claude_model_id quote (runes e.upstream_id))
        (every_at is_stable claude_model_entries e all_stable m)

  entry-Mem :
      (model : List ℕ) (e : ClaudeModelEntry)
      → claude_model_entry_for_id model ≡ some e
      → Mem e claude_model_entries
  unfolding claude_model_entry_for_id
  entry-Mem model e q = first_claude-Mem (map to_lower (trim_space model)) claude_model_entries q

  normalize_trimmed-entry :
      (trimmed : List ℕ) (id : String)
      → normalize_trimmed quote trimmed ≡ accepted id
      → (e : ClaudeModelEntry) × Mem e claude_model_entries × (e.upstream_id ≡ id)
  unfolding normalize_trimmed
  normalize_trimmed-entry [] id q = ground arith
  normalize_trimmed-entry (c ∷ cs) id q =
      elim (Option-cases (claude_model_entry_for_id (map to_lower (c ∷ cs)))) [
        | inl t ↦ let z : ⊥ = ground (arith, rw (normalize_trimmed, t) at q) in elim z [ ]
        | inr (e, t) ↦ (
          e,
          entry-Mem (map to_lower (c ∷ cs)) e t,
          ground (arith, rw (normalize_trimmed, t) at q),
        )
      ]

  -- A model that was accepted is the id of the upstream, and that id is accepted as it is.
  pub normalize_claude_model_id_idem :
      (model : List ℕ) (id : String)
      → normalize_claude_model_id quote model ≡ accepted id
      → normalize_claude_model_id quote (runes id) ≡ accepted id
  unfolding normalize_claude_model_id
  normalize_claude_model_id_idem model id q =
      let (e, m, same) = normalize_trimmed-entry (trim_space model) id q in
      subst (λ i. normalize_claude_model_id quote (runes i) ≡ accepted i) same (stable_at e m)

  is_served : String × String → Bool
  is_served row = is_some (accepted_id (normalize_claude_model_id quote (runes row.1)))

  all_served : every is_served aliases ≡ true
  unfolding every is_served accepted_id normalize_claude_model_id same_codes is_space
  all_served = refl

  alias_of-served :
      (model : List ℕ) (rows : List (String × String))
      → every is_served rows ≡ true
      → is_alias model rows ≡ true
      → is_some (accepted_id (normalize_claude_model_id quote (alias_of model rows))) ≡ true
  unfolding every is_served is_alias alias_of
  alias_of-served model [] h a = ground arith
  alias_of-served model (row ∷ rows) h a = elim (Bool-cases (same_codes model (runes row.0))) [
    | inl t ↦ rw t (ground (arith, h))
    | inr t ↦ rw t (alias_of-served model rows (ground (arith, h)) (rw t at a))
  ]

  -- What the compat interface makes of a model that is an alias of its table, in any case of letters
  -- and with spaces around it, the driver accepts. `lower` is strings.ToLower.
  pub normalize_claude_model_id-canonical_claude_model :
      (lower : List ℕ → List ℕ) (model : List ℕ)
      → is_alias (lower (trim_space model)) aliases ≡ true
      → (id : String) × (normalize_claude_model_id quote (canonical_claude_model lower model)
          ≡ accepted id)
  unfolding canonical_claude_model
  normalize_claude_model_id-canonical_claude_model lower model a =
      accepted_id-some (normalize_claude_model_id quote (canonical_claude_model lower model))
        (alias_of-served (lower (trim_space model)) aliases all_served a)
