-- ===== src/Text.antt =====
-- Texts as the program builds them: concatenation, `strings.ReplaceAll`, the texts of errors.
use Prim.Native.String
use Prim.Native.String.{String, count}
use Prim.Native.Char.{Char, code}
use text.Mathlib.TextEquality.{starts_with_iff}
use text.Mathlib.TextLemmas.{cons-append}
use text.Mathlib.Text.{starts_with}
use bandolier.Prelude.{
  ap, sym, ◌∙◌, ℕ, zero, suc, ◌-◌, ◌/◌, ◌%◌, ltb, Bool, ◌&&◌, ◌||◌, ◌==◌, eqb, leb, ◌≡◌, refl,
  if◌then◌else◌, true, not, arith, false, Option, none, some,
}
use bandolier.Status.{
  Status, pending, initializing, initialized, deploying, ready, upgrading, degraded, destroying,
  destroyed, cannot_transition,
}
use bandolier.Result.{
  of_apps, Error, not_found, duplicate_name, invalid_transition, locked, in_progress,
  not_cancellable, repo_not_found, cluster_busy, system_release, install_not_cancellable,
  ctx_cancelled, failure, refused,
}

infixl 65 ◌<>◌
abbrev pub ◌<>◌ : String → String → String
s <> t = String.◌++◌ s t

-- `skip` characters of the last match are still to be passed over.
replace_from : ℕ → String → String → String → String
replace_from skip old new String.[] = ""
replace_from (suc skip) old new (String.◌∷◌ c s) = replace_from skip old new s
replace_from zero old new (String.◌∷◌ c s) =
    let matched = new <> replace_from (count old - 1) old new s in
    let copied = String.◌∷◌ c (replace_from zero old new s) in
    if starts_with (String.◌∷◌ c s) old then matched else copied

-- `strings.ReplaceAll` for an `old` that is not empty.
unfoldable pub replace_all : String → String → String → String
unfolding replace_from
replace_all s old new = replace_from zero old new s

abbrev first_code : String → ℕ
first_code String.[] = 0
first_code (String.◌∷◌ c s) = code c

starts_with-first :
    (c d : Char) (s p : String)
    → starts_with (String.◌∷◌ c s) (String.◌∷◌ d p) ≡ true
    → code d ≡ code c
starts_with-first c d s p h =
    let (u, e) = (starts_with_iff (String.◌∷◌ c s) (String.◌∷◌ d p)).0 h in
    ap first_code (sym (cons-append d p u) ∙ e)

unfoldable pub lacks_code : ℕ → String → Bool
lacks_code n String.[] = true
lacks_code n (String.◌∷◌ c s) = not (eqb (code c) n) && lacks_code n s

-- A text without the first character of `old` is left as it is.
pub replace_all-lacks_code :
    (d : Char) (p new s : String)
    → lacks_code (code d) s ≡ true
    → replace_all s (String.◌∷◌ d p) new ≡ s
unfolding replace_all replace_from lacks_code
replace_all-lacks_code d p new String.[] h = refl
replace_all-lacks_code d p new (String.◌∷◌ c s) h =
    ground (arith, starts_with-first c d s p, replace_all-lacks_code d p new s)

-- Go's `unicode.IsSpace` on ASCII.
abbrev is_space : ℕ → Bool
is_space c = eqb c 0x20 || (leb 0x09 c && leb c 0x0d)

trim_left : String → String
trim_left String.[] = ""
trim_left (String.◌∷◌ c s) = if is_space (code c) then trim_left s else String.◌∷◌ c s

trim_right : String → String
trim_right String.[] = ""
trim_right (String.◌∷◌ c s) =
    let rest = trim_right s in if is_space (code c) && rest == "" then "" else String.◌∷◌ c rest

-- `strings.TrimSpace`
unfoldable pub trim_space : String → String
unfolding trim_left trim_right
trim_space s = trim_left (trim_right s)

unfoldable pub lacks_space : String → Bool
lacks_space String.[] = true
lacks_space (String.◌∷◌ c s) = not (is_space (code c)) && lacks_space s

trim_left-lacks_space : (s : String) → lacks_space s ≡ true → trim_left s ≡ s
unfolding trim_left lacks_space
trim_left-lacks_space String.[] h = refl
trim_left-lacks_space (String.◌∷◌ c s) h = ground arith

trim_right-lacks_space : (s : String) → lacks_space s ≡ true → trim_right s ≡ s
unfolding trim_right lacks_space
trim_right-lacks_space String.[] h = refl
trim_right-lacks_space (String.◌∷◌ c s) h = ground (arith, trim_right-lacks_space s)

pub trim_space-lacks_space : (s : String) → lacks_space s ≡ true → trim_space s ≡ s
unfolding trim_space
trim_space-lacks_space s h = rw (trim_right-lacks_space s h, trim_left-lacks_space s h) refl

-- The text before the suffix, if there is one.
drop_suffix : String → String → Option String
drop_suffix suffix String.[] = if suffix == "" then some "" else none
drop_suffix suffix (String.◌∷◌ c s) =
    let rest = drop_suffix suffix s in
    if String.◌∷◌ c s == suffix
    then some ""
    else elim rest [ none ↦ none | some kept ↦ some (String.◌∷◌ c kept) ]

-- `strings.CutSuffix`, whose text is `strings.TrimSuffix` where there is a suffix.
unfoldable pub cut_suffix : String → String → Option String
unfolding drop_suffix
cut_suffix s suffix = drop_suffix suffix s

abbrev is_slash : ℕ → Bool
is_slash c = eqb c 0x2f

drop_slashes : String → String
drop_slashes String.[] = ""
drop_slashes (String.◌∷◌ c s) =
    let rest = drop_slashes s in if is_slash (code c) && rest == "" then "" else String.◌∷◌ c rest

has_slash : String → Bool
has_slash String.[] = false
has_slash (String.◌∷◌ c s) = is_slash (code c) || has_slash s

-- All of the text, if it has no slash.
after_slashes : String → String
unfolding has_slash
after_slashes String.[] = ""
after_slashes (String.◌∷◌ c s) =
    let rest = after_slashes s in
    if has_slash s then rest else (if is_slash (code c) then s else String.◌∷◌ c s)

-- `path.Base`
unfoldable pub base : String → String
unfolding drop_slashes after_slashes
base p =
    let last = after_slashes (drop_slashes p) in
    if p == "" then "." else (if last == "" then "/" else last)

abbrev digit_text : ℕ → String
digit_text n =
    if eqb n 0
    then "0"
    else (if eqb n 1
        then "1"
        else (if eqb n 2
            then "2"
            else (if eqb n 3
                then "3"
                else (if eqb n 4
                    then "4"
                    else (if eqb n 5
                        then "5"
                        else (if eqb n 6
                            then "6"
                            else (if eqb n 7 then "7" else (if eqb n 8 then "8" else "9"))))))))

-- A number has no more digits than its value.
digits_from : ℕ → ℕ → String → String
digits_from zero n rest = rest
digits_from (suc fuel) n rest =
    let longer = digits_from fuel (n / 10) (digit_text (n % 10) <> rest) in
    if ltb n 10 then digit_text n <> rest else longer

-- `%d` of a number that is not negative.
unfoldable pub decimal : ℕ → String
unfolding digits_from
decimal n = digits_from (suc n) n ""

decimal_example : decimal 1027 ≡ "1027"
unfolding decimal
decimal_example = refl

abbrev pub status_name : Status → String
status_name pending = "pending"
status_name initializing = "initializing"
status_name initialized = "initialized"
status_name deploying = "deploying"
status_name ready = "ready"
status_name upgrading = "upgrading"
status_name degraded = "degraded"
status_name destroying = "destroying"
status_name destroyed = "destroyed"
status_name Status.error = "error"

-- `err.Error()`
unfoldable pub error_text : Error → String
error_text not_found = "not found"
error_text duplicate_name = "cluster name already exists"
error_text invalid_transition = "invalid state transition"
error_text locked = "cluster is locked by another deployment"
error_text in_progress = "deployment in progress"
error_text not_cancellable = "deployments: operation not cancellable"
error_text (of_apps repo_not_found) = "apps: not found"
error_text (of_apps cluster_busy) = "apps: cluster busy"
error_text (of_apps system_release) = "apps: cannot uninstall system release"
error_text (of_apps install_not_cancellable) = "apps: operation not cancellable"
error_text ctx_cancelled = "context canceled"
error_text (failure s) = s
error_text (refused (cannot_transition from to)) =
    "cannot transition " <> status_name from <> " -> " <> status_name to

replace_all_example : replace_all "{release}.{fqdn}" "{fqdn}" "lab.local" ≡ "{release}.lab.local"
unfolding replace_all
replace_all_example = refl

trim_space_example : trim_space "  K10::server " ≡ "K10::server"
unfolding trim_space
trim_space_example = refl

base_example : base "https://host/img/a.qcow2//" ≡ "a.qcow2"
unfolding base
base_example = refl

cut_suffix_example : cut_suffix "a.qcow2" ".qcow2" ≡ some "a"
unfolding cut_suffix
cut_suffix_example = refl
