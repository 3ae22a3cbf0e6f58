-- ===== src/Relay/Request.antt =====
-- internal/relay/relay_request.go: the affinity key of a request. A text is its code points.
pub mod Names
use llm_broker.Prelude.{
  ℕ, zero, suc, ◌+◌, ◌/◌, ◌%◌, String, Bool, true, false, List, [], ◌∷◌, ◌++◌, ltb, if◌then◌else◌,
}
use llm_broker.Domain.{Surface, native, compat, any, unset, normalize_surface}
use llm_broker.Domain.Surfaces.{runes, trim_space}

pub record RouteAffinity : Type 0 where
  pub kind : String
  pub raw_key : String

-- `strconv.Itoa` of a number that is not negative; the fuel is one more than the number.
unfoldable pub digits_from : ℕ → ℕ → List ℕ
digits_from zero n = []
digits_from (suc f) n =
    let rest : List ℕ = digits_from f (n / 10) in
    if ltb n 10 then (48 + n) ∷ [] else rest ++ ((48 + n % 10) ∷ [])

unfoldable pub itoa : ℕ → List ℕ
unfolding digits_from
itoa n = digits_from (suc n) n

-- The bytes of a code point in UTF-8, and of a text: `len(part)`.
abbrev pub width : ℕ → ℕ
width c = if ltb c 0x80 then 1 else if ltb c 0x800 then 2 else if ltb c 0x10000 then 3 else 4

unfoldable pub size : List ℕ → ℕ
size [] = 0
size (c ∷ cs) = width c + size cs

abbrev pub surface_text : Surface → String
surface_text native = "native"
surface_text compat = "compat"
surface_text any = "all"
surface_text unset = ""

unfoldable pub framed : List ℕ → List ℕ
unfolding itoa size
framed part = itoa (size part) ++ (58 ∷ part)

unfoldable pub namespace : List (List ℕ) → List ℕ
unfolding framed
namespace [] = []
namespace (part ∷ parts) = framed part ++ namespace parts

abbrev pub affinity_parts : String → String → String → RouteAffinity → List (List ℕ)
affinity_parts user_id provider surface a =
    runes "llm-broker-route-affinity-v1"
    ∷ (runes user_id
        ∷ (runes provider
            ∷ (runes (surface_text (normalize_surface surface))
                ∷ (runes a.kind ∷ (trim_space (runes a.raw_key) ∷ [])))))

abbrev key_of : (List ℕ → String) → List ℕ → List ℕ → String
key_of uuid [] name = ""
key_of uuid (c ∷ cs) name = uuid name

-- `uuid` is uuid.NewSHA1 in the namespace of URLs.
unfoldable pub route_affinity_key :
    (List ℕ → String) → String → String → String → RouteAffinity → String
unfolding namespace trim_space
route_affinity_key uuid user_id provider surface a =
    key_of uuid (trim_space (runes a.raw_key))
      (namespace (affinity_parts user_id provider surface a))
