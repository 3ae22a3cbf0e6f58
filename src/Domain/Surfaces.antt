-- ===== src/Domain/Surfaces.antt =====
-- internal/domain/surface.go. `Surface` holds the values that normalizing gives; a text is
-- lowered and trimmed over its code points.
use Prim.Native.Char.{code}
use mathlib.Core.List.{reverse}
use llm_broker.Prelude.{
  ℕ, ◌+◌, String, Bool, true, false, not, ◌&&◌, ◌||◌, List, [], ◌∷◌, map, nat_beq, leb, ◌==◌,
  string_eq, if◌then◌else◌,
}

pub data Surface : Type 0 where
  native compat any unset : Surface

abbrev pub runes : String → List ℕ
runes (String.◌∷◌ letter text) = code letter ∷ runes text
runes String.[] = []

-- unicode.IsSpace
unfoldable pub is_space : ℕ → Bool
is_space c =
    (leb 9 c && leb c 13)
    || nat_beq c 32
    || nat_beq c 0x85
    || nat_beq c 0xa0
    || nat_beq c 0x1680
    || (leb 0x2000 c && leb c 0x200a)
    || nat_beq c 0x2028
    || nat_beq c 0x2029
    || nat_beq c 0x202f
    || nat_beq c 0x205f
    || nat_beq c 0x3000

-- unicode.ToLower, as far as its result is an ASCII letter; what it maps to other letters is left.
unfoldable pub to_lower : ℕ → ℕ
to_lower c =
    if leb 65 c && leb c 90
    then c + 32
    else if nat_beq c 0x130
    then 105
    else if nat_beq c 0x212a
    then 107
    else c

unfoldable pub drop_spaces : List ℕ → List ℕ
drop_spaces [] = []
drop_spaces (c ∷ cs) = if is_space c then drop_spaces cs else c ∷ cs

unfoldable pub trim_space : List ℕ → List ℕ
unfolding drop_spaces
trim_space cs = reverse (drop_spaces (reverse (drop_spaces cs)))

unfoldable pub same_codes : List ℕ → List ℕ → Bool
same_codes [] [] = true
same_codes [] (d ∷ ds) = false
same_codes (c ∷ cs) [] = false
same_codes (c ∷ cs) (d ∷ ds) = nat_beq c d && same_codes cs ds

unfoldable pub surface_of : List ℕ → Surface
unfolding same_codes
surface_of cs =
    if same_codes cs (runes "native")
    then native
    else if same_codes cs (runes "compat")
    then compat
    else if same_codes cs (runes "all")
    then any
    else unset

unfoldable pub normalize_surface : String → Surface
unfolding surface_of trim_space is_space to_lower
normalize_surface value = surface_of (map to_lower (trim_space (runes value)))

unfoldable pub allows_surface : String → String → Bool
allows_surface allowed requested =
    let allowed' : String = if allowed == "" then "native" else allowed in
    if allowed' == "all" then true else not (requested == "") && allowed' == requested
