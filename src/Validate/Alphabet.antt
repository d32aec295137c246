-- ===== src/Validate/Alphabet.antt =====
-- The characters of the texts that an expression of validate/validate.go matches.
use Prim.Native.String.{count}
use bandolier.Prelude.{
  ℕ, String, Bool, true, false, ◌≡◌, refl, ◌&&◌, ◌||◌, ◌≤◌, List, [], ◌∷◌, All, arith,
  if◌then◌else◌, Bool-cases, inl, inr,
}
use bandolier.Validate.{
  Regex, nothing, blank, class, then_, either, repeat, nullable, derive, matches, code_points,
  hostname_re, hostname, is_alnum, is_alnum_or_dash, is_dot, label,
}

-- Every class of the expression keeps to `p`.
abbrev Within : (ℕ → Bool) → Regex → Type 0
Within p nothing = Unit
Within p blank = Unit
Within p (class q) = (c : ℕ) → q c ≡ true → p c ≡ true
Within p (then_ r s) = Within p r × Within p s
Within p (either r s) = Within p r × Within p s
Within p (repeat r) = Within p r

-- The expression matches no text, by its form.
abbrev is_void : Regex → Bool
is_void nothing = true
is_void (then_ r s) = is_void r
is_void (either r s) = is_void r && is_void s
is_void _ = false

if_Within : (p : ℕ → Bool) (b : Bool) (r : Regex) → Within p r → Within p (if b then r else nothing)
if_Within p true r h = h
if_Within p false r h = tt

derive-Within : (p : ℕ → Bool) (c : ℕ) (r : Regex) → Within p r → Within p (derive c r)
unfolding derive
derive-Within p c nothing h = tt
derive-Within p c blank h = tt
derive-Within p c (class q) h = if_Within p (q c) blank tt
derive-Within p c (then_ r s) h = (
  (derive-Within p c r h.0, h.1),
  if_Within p (nullable r) (derive c s) (derive-Within p c s h.1),
)
derive-Within p c (either r s) h = (derive-Within p c r h.0, derive-Within p c s h.1)
derive-Within p c (repeat r) h = (derive-Within p c r h, h)

if_void : (b : Bool) (r : Regex) → is_void r ≡ true → is_void (if b then r else nothing) ≡ true
if_void true r h = h
if_void false r h = refl

-- No text goes on with a character that no class has.
derive_outside :
    (p : ℕ → Bool) (c : ℕ) (r : Regex) → Within p r → p c ≡ false → is_void (derive c r) ≡ true
unfolding derive
derive_outside p c nothing h out = refl
derive_outside p c blank h out = refl
derive_outside p c (class q) h out = elim (Bool-cases (q c)) [
  | inl e ↦ absurd (ground (arith, h c e))
  | inr e ↦ rw e refl
]
derive_outside p c (then_ r s) h out =
    rw
      (
        derive_outside p c r h.0 out,
        if_void (nullable r) (derive c s) (derive_outside p c s h.1 out),
      )
      refl
derive_outside p c (either r s) h out =
    rw (derive_outside p c r h.0 out, derive_outside p c s h.1 out) refl
derive_outside p c (repeat r) h out = derive_outside p c r h out

void-nullable : (r : Regex) → is_void r ≡ true → nullable r ≡ false
void-nullable nothing h = refl
void-nullable blank h = cc
void-nullable (class q) h = cc
void-nullable (then_ r s) h = rw (void-nullable r h) refl
void-nullable (either r s) h = ground (arith, void-nullable r, void-nullable s)
void-nullable (repeat r) h = cc

derive-void : (c : ℕ) (r : Regex) → is_void r ≡ true → is_void (derive c r) ≡ true
unfolding derive
derive-void c nothing h = refl
derive-void c blank h = cc
derive-void c (class q) h = cc
derive-void c (then_ r s) h = rw (derive-void c r h, void-nullable r h) refl
derive-void c (either r s) h = ground (arith, derive-void c r, derive-void c s)
derive-void c (repeat r) h = cc

matches-void : (r : Regex) (cs : List ℕ) → is_void r ≡ true → matches r cs ≡ false
unfolding matches
matches-void r [] h = void-nullable r h
matches-void r (c ∷ cs) h = matches-void (derive c r) cs (derive-void c r h)

matches-All :
    (p : ℕ → Bool) (r : Regex) (cs : List ℕ)
    → Within p r
    → matches r cs ≡ true
    → All (λ c. p c ≡ true) cs
unfolding matches
matches-All p r [] h m = tt
matches-All p r (c ∷ cs) h m = elim (Bool-cases (p c)) [
  | inl e ↦ (e, matches-All p (derive c r) cs (derive-Within p c r h) m)
  | inr e ↦ absurd (ground (arith, matches-void (derive c r) cs (derive_outside p c r h e)))
]

abbrev pub is_hostname_char : ℕ → Bool
is_hostname_char c = is_dot c || is_alnum_or_dash c

alnum_is : (c : ℕ) → is_alnum c ≡ true → is_hostname_char c ≡ true
alnum_is c h = ground arith

dash_is : (c : ℕ) → is_alnum_or_dash c ≡ true → is_hostname_char c ≡ true
dash_is c h = ground arith

dot_is : (c : ℕ) → is_dot c ≡ true → is_hostname_char c ≡ true
dot_is c h = ground arith

label-Within : Within is_hostname_char label
label-Within = (alnum_is, ((dash_is, alnum_is), tt))

hostname_re-Within : Within is_hostname_char hostname_re
hostname_re-Within = (label-Within, (dot_is, label-Within))

-- A hostname that is accepted has at most 253 characters, each a lowercase letter, a digit, a dash
-- or a dot: none that helm would read as the end of a value.
pub hostname-All :
    (s : String)
    → hostname s ≡ true
    → (count s ≤ 253) × All (λ c. is_hostname_char c ≡ true) (code_points s)
unfolding hostname
hostname-All s h = (
  ground arith,
  matches-All is_hostname_char hostname_re (code_points s) hostname_re-Within (ground arith),
)
