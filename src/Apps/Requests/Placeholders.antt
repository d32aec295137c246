-- ===== src/Apps/Requests/Placeholders.antt =====
-- A hostname that has passed its check has no placeholder, so substituteHostnameTemplate of
-- api/internal/apps/bundle.go leaves it as it is.
use bandolier.Prelude.{
  String, true, false, ◌≡◌, refl, sym, ◌∙◌, ap, All, ◌==◌, arith, eq_iff, Bool-cases, inl, inr,
}
use bandolier.Text.{replace_all, lacks_code, replace_all-lacks_code}
use bandolier.Validate.{code_points, hostname}
use bandolier.Validate.Alphabet.{is_hostname_char, hostname-All}
use bandolier.Apps.StorageClasses.{valid_hostname}
use bandolier.Apps.Bundle.{substitute_hostname_template}
use bandolier.Apps.Requests.{bad_hostname}

All-lacks_code :
    (s : String) → All (λ c. is_hostname_char c ≡ true) (code_points s) → lacks_code 0x7b s ≡ true
unfolding lacks_code
All-lacks_code String.[] h = refl
All-lacks_code (String.◌∷◌ c s) h = ground (arith, h.0, All-lacks_code s h.1)

hostname-lacks_code : (s : String) → hostname s ≡ true → lacks_code 0x7b s ≡ true
hostname-lacks_code s h = All-lacks_code s (hostname-All s h).1

template_unchanged :
    (tmpl release fqdn : String)
    → lacks_code 0x7b tmpl ≡ true
    → replace_all (replace_all tmpl "{release}" release) "{fqdn}" fqdn ≡ tmpl
template_unchanged tmpl release fqdn h =
    ap (λ s. replace_all s "{fqdn}" fqdn) (replace_all-lacks_code _ "release}" release tmpl h)
    ∙ replace_all-lacks_code _ "fqdn}" fqdn tmpl h

pub substitute_hostname_template_lem :
    (tmpl release fqdn : String)
    → bad_hostname tmpl ≡ false
    → substitute_hostname_template tmpl release fqdn ≡ tmpl
unfolding substitute_hostname_template valid_hostname
substitute_hostname_template_lem tmpl release fqdn good = elim (Bool-cases (tmpl == "")) [
  | inl e ↦ rw e (sym ((eq_iff tmpl "").0 e))
  | inr e ↦
      rw e
        (template_unchanged tmpl release fqdn (hostname-lacks_code tmpl (ground (arith, good, e))))
]
