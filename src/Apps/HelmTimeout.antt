-- ===== src/Apps/HelmTimeout.antt =====
-- api/internal/apps/helm_timeout.go: the timeout of `helm install`, as a duration in nanoseconds
-- and as the flag of the command. BANDOLIER_HELM_INSTALL_TIMEOUT is the argument `v`, empty if it is
-- not set; the warnings in the log are left out.
use bandolier.Prelude.{
  ℕ, ◌+◌, ◌-◌, ◌*◌, ◌<◌, String, Bool, true, not, ◌&&◌, ◌||◌, ◌≡◌, refl, List, [], ◌∷◌, Option,
  none, some, ◌==◌, leb, ltb, eqb, if◌then◌else◌, arith, eq_iff, ◌⊎◌, inl, inr, Bool-cases,
  Option-cases,
}
use bandolier.Validate.{Regex, class, then_, repeat, matches, code_points}

abbrev pub second : ℕ
second = 1_000_000_000

abbrev pub default_helm_install_timeout : ℕ
default_helm_install_timeout = 15 * 60 * second

abbrev pub default_helm_install_timeout_flag : String
default_helm_install_timeout_flag = "15m"

abbrev is_digit : ℕ → Bool
is_digit c = leb 48 c && leb c 57

abbrev is_unit : ℕ → Bool
is_unit c = eqb c 115 || (eqb c 109 || eqb c 104)

-- `^[0-9]+(s|m|h)$`
abbrev pub helm_install_timeout_re : Regex
helm_install_timeout_re = then_ (class is_digit) (then_ (repeat (class is_digit)) (class is_unit))

abbrev unit_of : ℕ → ℕ
unit_of c = if eqb c 115 then second else (if eqb c 109 then 60 * second else 60 * 60 * second)

-- The digits are read before the unit.
scan : ℕ → List ℕ → ℕ
scan n [] = 0
scan n (c ∷ []) = n * unit_of c
scan n (c ∷ d ∷ cs) = scan (n * 10 + (c - 48)) (d ∷ cs)

-- `time.ParseDuration` of a text that the expression matches: an error above the largest int64.
unfoldable pub parse_duration : String → Option ℕ
unfolding scan
parse_duration v =
    let d = scan 0 (code_points v) in if ltb d 0x8000_0000_0000_0000 then some d else none

abbrev pub positive_or : {A : Type 0} → A → (ℕ → A) → Option ℕ → A
positive_or default k none = default
positive_or default k (some d) = if eqb d 0 then default else k d

unfoldable pub helm_install_timeout : String → ℕ
unfolding matches parse_duration
helm_install_timeout v =
    if v == ""
    then default_helm_install_timeout
    else (if matches helm_install_timeout_re (code_points v)
        then positive_or default_helm_install_timeout (λ d. d) (parse_duration v)
        else default_helm_install_timeout)

unfoldable pub helm_install_timeout_flag : String → String
unfolding matches parse_duration
helm_install_timeout_flag v =
    if v == "" || not (matches helm_install_timeout_re (code_points v))
    then default_helm_install_timeout_flag
    else positive_or default_helm_install_timeout_flag (λ d. v) (parse_duration v)

default-parse : parse_duration "15m" ≡ some default_helm_install_timeout
unfolding parse_duration
default-parse = refl

default-matches : matches helm_install_timeout_re (code_points "15m") ≡ true
unfolding matches
default-matches = refl

parse_duration-lt : (v : String) (d : ℕ) → parse_duration v ≡ some d → d < 0x8000_0000_0000_0000
unfolding parse_duration
parse_duration-lt v d h = ground arith

-- Either the default is taken for both, or both follow the variable.
record FollowsVariable (v : String) : Type 0 where
  flag : helm_install_timeout_flag v ≡ v
  parsed : parse_duration v ≡ some (helm_install_timeout v)
  allowed : matches helm_install_timeout_re (code_points v) ≡ true

record TakesDefault (v : String) : Type 0 where
  flag : helm_install_timeout_flag v ≡ "15m"
  timeout : helm_install_timeout v ≡ default_helm_install_timeout

timeout_cases : (v : String) → FollowsVariable v ⊎ TakesDefault v
unfolding helm_install_timeout helm_install_timeout_flag
timeout_cases v = elim (Bool-cases (v == "")) [
  | inl e ↦ inr (record { flag = rw e refl; timeout = rw e refl })
  | inr e ↦ elim (Bool-cases (matches helm_install_timeout_re (code_points v))) [
    | inr f ↦ inr (record { flag = rw (e, f) refl; timeout = rw (e, f) refl })
    | inl f ↦ elim (Option-cases (parse_duration v)) [
      | inl g ↦ inr (record { flag = rw (e, f, g) refl; timeout = rw (e, f, g) refl })
      | inr (d, g) ↦ elim (Bool-cases (eqb d 0)) [
        | inl z ↦ inr (record { flag = rw (e, f, g, z) refl; timeout = rw (e, f, g, z) refl })
        | inr z ↦
            inl (record { flag = rw (e, f, g, z) refl; parsed = rw (e, f, g, z) refl; allowed = f })
      ]
    ]
  ]
]

-- Whatever the variable holds, the flag that helm is given is a text of the allowed form that Go
-- reads as the very duration that the program computes.
pub helm_install_timeout_flag-parse :
    (v : String)
    → (parse_duration (helm_install_timeout_flag v) ≡ some (helm_install_timeout v))
      × (matches helm_install_timeout_re (code_points (helm_install_timeout_flag v)) ≡ true)
helm_install_timeout_flag-parse v = elim (timeout_cases v) [
  | inl c ↦ rw c.flag (c.parsed, c.allowed)
  | inr c ↦ rw (c.flag, c.timeout) (default-parse, default-matches)
]

-- The timeout is never zero, which helm would take for none, and fits in an int64.
pub helm_install_timeout_bounds :
    (v : String) → (0 < helm_install_timeout v) × (helm_install_timeout v < 0x8000_0000_0000_0000)
unfolding helm_install_timeout
helm_install_timeout_bounds v = ground (arith, eq_iff v "", parse_duration-lt v)
