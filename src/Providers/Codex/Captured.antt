-- ===== src/Providers/Codex/Captured.antt =====
-- internal/driver/codex_support.go: captureHeaders, discoverCodexFamilyPrefixes and
-- parseCodexFamilyHeaders. Headers are by their names in lower case, with their first values.
use Prim.Native.String.{len, slice}
use text.Mathlib.Text.{find?, starts_with}
use text.Mathlib.TextEquality.{eq_iff}
use llm_broker.Prelude.{
  ℕ, zero, suc, ◌+◌, ◌-◌, ◌*◌, ◌^◌, String, Bool, true, false, ◌&&◌, ◌||◌, List, [], ◌∷◌, Option,
  none, some, ◌≡◌, refl, ap, ◌∙◌, inl, inr, arith, Map, lookup, insert, lookup-insert, ltb, leb,
  nat_beq, is_some, ◌==◌, string_eq, ◌<>◌, Bool-cases, Option-cases, if◌then◌else◌,
}
use llm_broker.Prelude.Int.{ℤ, pos, negsuc}
use llm_broker.Domain.Surfaces.{runes}
use llm_broker.Providers.Codex.{
  Floats, FamilyLimits, CodexState, StateJson, sort_texts, no_limits, has_limits, flat_limits,
  family,
}

abbrev pub Headers : Type 0
Headers = Map String String

-- http.Header.Get
abbrev pub get_header : Headers → String → String
get_header hs name = elim (lookup name hs) [ none ↦ "" | some v ↦ v ]

unfoldable pub digits_value : ℕ → List ℕ → Option ℕ
digits_value acc [] = some acc
digits_value acc (c ∷ cs) =
    if leb b'0' c && leb c b'9' then digits_value (acc * 10 + (c - b'0')) cs else none

abbrev in_range : ℕ → Option ℕ → Option ℕ
in_range bound none = none
in_range bound (some n) = if ltb n bound then some n else none

abbrev negated : ℕ → ℤ
negated zero = pos 0
negated (suc n) = negsuc n

abbrev signed : Bool → Option ℕ → Option ℤ
signed minus none = none
signed minus (some n) = some (if minus then negated n else pos n)

abbrev atoi_digits : Bool → List ℕ → Option ℤ
atoi_digits minus [] = none
atoi_digits minus (c ∷ cs) =
    signed minus (in_range (if minus then 2 ^ 63 + 1 else 2 ^ 63) (digits_value 0 (c ∷ cs)))

-- strconv.Atoi for a 64-bit `int`
unfoldable pub atoi : List ℕ → Option ℤ
atoi [] = none
atoi (c ∷ cs) =
    if nat_beq c b'-'
    then atoi_digits true cs
    else if nat_beq c b'+'
    then atoi_digits false cs
    else atoi_digits false (c ∷ cs)

abbrev add_seconds : ℕ → ℤ → ℕ
add_seconds now (pos n) = now + n
add_seconds now (negsuc n) = now - suc n

unfoldable pub reset_of : ℕ → String → ℕ
unfolding atoi digits_value
reset_of now value = elim (atoi (runes value)) [ none ↦ 0 | some n ↦ add_seconds now n ]

abbrev before : Option ℕ → String → Option String
before none rest = none
before (some zero) rest = none
before (some (suc i)) rest = some (slice rest 0 (suc i))

abbrev or_else : Option String → Option String → Option String
or_else none b = b
or_else (some a) b = some a

prefix_of_rest : String → Option String
prefix_of_rest rest =
    if rest == "primary-used-percent" || rest == "secondary-used-percent"
    then some ""
    else or_else (before (find? rest "-primary-used-percent") rest)
        (before (find? rest "-secondary-used-percent") rest)

unfoldable pub prefix_of : String → Option String
unfolding prefix_of_rest
prefix_of key = if starts_with key "x-codex-" then prefix_of_rest (slice key 8 (len key)) else none

unfoldable pub is_listed : String → List String → Bool
is_listed p [] = false
is_listed p (q ∷ qs) = q == p || is_listed p qs

abbrev pub see : Option String → List String → List String
see none seen = seen
see (some p) seen = if is_listed p seen then seen else p ∷ seen

unfoldable pub seen_prefixes : Headers → List String
unfolding prefix_of is_listed
seen_prefixes [] = []
seen_prefixes ((key, v) ∷ hs) = see (prefix_of key) (seen_prefixes hs)

unfoldable pub discover_codex_family_prefixes : Headers → List String
unfolding seen_prefixes sort_texts
discover_codex_family_prefixes hs = sort_texts (seen_prefixes hs)

abbrev pub header_prefix : String → String
header_prefix p = if p == "" then "x-codex-" else "x-codex-" <> (p <> "-")

module _ (fl : Floats) where
  open fl use {F, naught, is_positive, percentage}

  abbrev pub util_of : String → F
  util_of value =
      if value == "" then naught else elim (percentage value) [ none ↦ naught | some u ↦ u ]

  -- A value that is absent or empty gives the zero value, as does one that does not parse.
  unfoldable pub parse_codex_family_headers : Headers → String → ℕ → FamilyLimits F
  unfolding reset_of
  parse_codex_family_headers hs prefix now =
      let value : String → String = λ name. get_header hs (header_prefix prefix <> name) in
      record {
        primary_util = util_of (value "primary-used-percent");
        primary_reset = reset_of now (value "primary-reset-after-seconds");
        secondary_util = util_of (value "secondary-used-percent");
        secondary_reset = reset_of now (value "secondary-reset-after-seconds");
        limit_name = "";
      }

  abbrev limit_name_of : Headers → String → String
  limit_name_of hs p = if p == "" then "" else get_header hs ("x-codex-" <> (p <> "-limit-name"))

  unfoldable pub captured_limits : Headers → ℕ → String → FamilyLimits F
  unfolding parse_codex_family_headers
  captured_limits hs now p = record (parse_codex_family_headers hs p now) {
    limit_name = limit_name_of hs p;
  }

  -- The flat fields become the standard family, unless there is one.
  unfoldable pub migrate : CodexState F → CodexState F
  migrate s =
      if has_limits fl s.legacy
      then record s {
        families =
            if is_some (lookup "" s.families)
            then s.families
            else insert "" (flat_limits fl s) s.families;
        legacy = no_limits fl;
      }
      else s

  unfoldable pub put_families :
      Headers → ℕ → List String → Map String (FamilyLimits F) → Map String (FamilyLimits F)
  unfolding captured_limits
  put_families hs now [] m = m
  put_families hs now (p ∷ ps) m = put_families hs now ps (insert p (captured_limits hs now p) m)

  unfoldable pub capture : Headers → ℕ → CodexState F → CodexState F
  unfolding migrate put_families discover_codex_family_prefixes
  capture hs now s =
      let s' : CodexState F = migrate s in
      record s' { families = put_families hs now (discover_codex_family_prefixes hs) s'.families }

  abbrev pub empty_codex_state : CodexState F
  empty_codex_state = record { families = []; legacy = no_limits fl }

  -- `none` for nil headers; the empty state of an account is "".
  unfoldable pub capture_headers : StateJson F → Option Headers → ℕ → String → String
  unfolding capture
  capture_headers json none now previous = previous
  capture_headers json (some hs) now previous =
      json.encode
        (capture hs now (if previous == "" then empty_codex_state else json.filled previous))

  -- `family` after its lookup.
  read_family : CodexState F → String → Option (FamilyLimits F) → FamilyLimits F
  read_family s p o = elim o [
    | some f ↦ f
    | none ↦ if p == "" && has_limits fl s.legacy then flat_limits fl s else no_limits fl
  ]

  lookup-put_families :
      (hs : Headers) (now : ℕ) (p : String) (ps : List String) (m : Map String (FamilyLimits F))
      → lookup p (put_families hs now ps m)
        ≡ (if is_listed p ps then some (captured_limits hs now p) else lookup p m)
  unfolding put_families is_listed
  lookup-put_families hs now p [] m = refl
  lookup-put_families hs now p (q ∷ qs) m =
      lookup-put_families hs now p qs (insert q (captured_limits hs now q) m)
      ∙ ground (arith, lookup-insert q p (captured_limits hs now q) m, eq_iff q p)

  family-migrate :
      (s : CodexState F) (p : String)
      → is_positive naught ≡ false
      → family fl (migrate s) p ≡ family fl s p
  unfolding family migrate
  family-migrate s p law = elim (Option-cases (lookup "" s.families)) [
    | inl e ↦
        ground (
          arith,
          law,
          e,
          lookup-insert "" p (flat_limits fl s) s.families,
          eq_iff "" p,
          eq_iff p "",
        )
    | inr (f, e) ↦ ground (arith, law, e, eq_iff p "")
  ]

  -- What the state reads for a family after an answer: the limits of the answer's headers if they name
  -- the family, and what it read before if they do not. So moving the flat fields of an old state
  -- loses and adds nothing.
  pub family-capture :
      (hs : Headers) (now : ℕ) (s : CodexState F) (p : String)
      → is_positive naught ≡ false
      → family fl (capture hs now s) p ≡ (
          if is_listed p (discover_codex_family_prefixes hs)
          then captured_limits hs now p
          else family fl s p)
  unfolding capture family read_family
  family-capture hs now s p law =
      let s' : CodexState F = migrate s in
      let ps : List String = discover_codex_family_prefixes hs in
      ap (read_family s' p) (lookup-put_families hs now p ps s'.families)
      ∙ elim (Bool-cases (is_listed p ps)) [
        | inl t ↦ rw t refl
        | inr t ↦ rw t (family-migrate s p law)
      ]
