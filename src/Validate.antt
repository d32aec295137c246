-- ===== src/Validate.antt =====
-- api/internal/validate/validate.go: the hostnames that may go into a helm argument, and the
-- regular expressions that it needs, matched by derivatives.
pub mod Alphabet
use Prim.Native.String
use Prim.Native.String.{count}
use Prim.Native.Char.{code}
use bandolier.Prelude.{
  ℕ, String, Bool, true, false, ◌&&◌, ◌||◌, List, [], ◌∷◌, leb, eqb, if◌then◌else◌,
}

-- A class of characters is a test on code points.
pub data Regex : Type 0 where
  nothing blank : Regex
  class : (ℕ → Bool) → Regex
  then_ : Regex → Regex → Regex
  either : Regex → Regex → Regex
  repeat : Regex → Regex

abbrev pub nullable : Regex → Bool
nullable nothing = false
nullable blank = true
nullable (class p) = false
nullable (then_ r s) = nullable r && nullable s
nullable (either r s) = nullable r || nullable s
nullable (repeat r) = true

-- What is left to match after one character.
unfoldable pub derive : ℕ → Regex → Regex
derive c nothing = nothing
derive c blank = nothing
derive c (class p) = if p c then blank else nothing
derive c (then_ r s) =
    let rest = derive c s in either (then_ (derive c r) s) (if nullable r then rest else nothing)
derive c (either r s) = either (derive c r) (derive c s)
derive c (repeat r) = then_ (derive c r) (repeat r)

unfoldable pub matches : Regex → List ℕ → Bool
unfolding derive
matches r [] = nullable r
matches r (c ∷ cs) = matches (derive c r) cs

abbrev pub code_points : String → List ℕ
code_points String.[] = []
code_points (String.◌∷◌ c s) = code c ∷ code_points s

-- `[a-z0-9]` and `[-a-z0-9]`
abbrev pub is_alnum : ℕ → Bool
is_alnum c = leb 97 c && leb c 122 || leb 48 c && leb c 57

abbrev pub is_alnum_or_dash : ℕ → Bool
is_alnum_or_dash c = eqb c 45 || is_alnum c

abbrev pub is_dot : ℕ → Bool
is_dot c = eqb c 46

-- `[a-z0-9]([-a-z0-9]*[a-z0-9])?`
abbrev pub label : Regex
label =
    then_ (class is_alnum) (either (then_ (repeat (class is_alnum_or_dash)) (class is_alnum)) blank)

abbrev pub hostname_re : Regex
hostname_re = then_ label (repeat (then_ (class is_dot) label))

-- `Hostname`. A text that the pattern accepts has one byte for each character.
unfoldable pub hostname : String → Bool
unfolding matches
hostname s = leb (count s) 253 && matches hostname_re (code_points s)
