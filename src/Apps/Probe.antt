-- ===== src/Apps/Probe.antt =====
-- api/internal/apps/probe.go: whether an Ingress or an IngressRoute of a namespace claims a
-- hostname. The JSON decoder is a parameter: it gives the items of a list, or `none` for a text
-- that it refuses.
use Prim.Native.Char
use Prim.Native.String.{count}
use text.Mathlib.Text.{starts_with}
use bandolier.Prelude.{
  ℕ, zero, suc, ◌+◌, String, Bool, false, ◌||◌, List, [], ◌∷◌, ◌++◌, Option, none, some, ◌==◌,
  if◌then◌else◌,
}
use bandolier.Apps.Types.{ProbeItem}
use bandolier.World.{Env, kubectl_get_ingresses}
use bandolier.World.Exec.{Exec, pure, raise, ◌>>=◌}
use bandolier.World.Calls.{read_output}
use bandolier.Deployments.Effects.{must}
use bandolier.Result.{failure}

abbrev pub is_quote : String → Bool
is_quote s = starts_with s "\"" || starts_with s "`"

abbrev cons_char : Char.Char → Option String → Option String
cons_char c none = none
cons_char c (some s) = some (String.◌∷◌ c s)

-- The characters up to the next quote, which a `)` must follow.
unfoldable pub quoted : String → Option String
quoted String.[] = none
quoted (String.◌∷◌ c s) =
    let longer = cons_char c (quoted s) in
    if is_quote (String.◌∷◌ c s) then (if starts_with s ")" then some "" else none) else longer

abbrev pub skip_chars : ℕ → String → String
skip_chars zero s = s
skip_chars (suc n) String.[] = ""
skip_chars (suc n) (String.◌∷◌ c s) = skip_chars n s

abbrev non_empty : Option String → Option String
non_empty none = none
non_empty (some s) = if s == "" then none else some s

-- A match of ``Host\(["`]([^"`]+)["`]\)`` that begins here, by its group.
unfoldable pub host_at : String → Option String
unfolding quoted
host_at s =
    if starts_with s "Host(\"" || starts_with s "Host(`"
    then non_empty (quoted (skip_chars 6 s))
    else none

-- `FindAllStringSubmatch`: `skip` characters of the last match are still to be passed over.
unfoldable pub hosts_from : ℕ → String → List String
unfolding host_at
hosts_from skip String.[] = []
hosts_from (suc skip) (String.◌∷◌ c s) = hosts_from skip s
hosts_from zero (String.◌∷◌ c s) =
    let copied = hosts_from zero s in
    elim (host_at (String.◌∷◌ c s)) [ none ↦ copied | some h ↦ h ∷ hosts_from (count h + 7) s ]

unfoldable pub host_matches : String → List String
unfolding hosts_from
host_matches match_ = hosts_from zero match_

unfoldable pub rule_hosts : List String → List String
rule_hosts [] = []
rule_hosts (h ∷ hs) = if h == "" then rule_hosts hs else h ∷ rule_hosts hs

unfoldable pub route_hosts : List String → List String
unfolding host_matches
route_hosts [] = []
route_hosts (m ∷ ms) = host_matches m ++ route_hosts ms

unfoldable pub item_hosts : List ProbeItem → List String
unfolding rule_hosts route_hosts
item_hosts [] = []
item_hosts (i ∷ is) = (rule_hosts i.hosts ++ route_hosts i.matches) ++ item_hosts is

abbrev pub parse_claimed_hosts : Option (List ProbeItem) → List String
parse_claimed_hosts none = []
parse_claimed_hosts (some items) = item_hosts items

unfoldable pub hostname_claimed : String → List String → Bool
hostname_claimed want [] = false
hostname_claimed want (h ∷ hs) = h == want || hostname_claimed want hs

module _ (env : Env) where
  abbrev claimed_in : String → String → Bool
  claimed_in hostname out =
      if out == ""
      then false
      else hostname_claimed hostname (parse_claimed_hosts (env.decode_ingresses out))

  unfoldable pub probe_hostname_claimed : String → String → String → Exec Bool
  unfolding item_hosts hostname_claimed
  probe_hostname_claimed kubeconfig namespace hostname =
      if kubeconfig == ""
      then raise (failure "probeHostnameClaimed: empty kubeconfig path")
      else (do
        out ←
            must (λ msg. raise (failure msg)) "kubectl get: "
              (read_output env (kubectl_get_ingresses namespace))
        pure (claimed_in hostname out))
