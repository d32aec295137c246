-- ===== src/Deployments/Steps.antt =====
-- The steps of a deploy that follow the playbook: FetchKubeconfig of deployments/kubeconfig.go,
-- FetchJoinToken of join_token.go, and writeWildcardDNS, issueWildcardTLS and installTraefik of
-- executor.go, with dns.NewProvider and IssueWildcardCert, PersistWildcardCert of clusters/cert.go.
pub mod Specs
use bandolier.Prelude.{
  ℕ, String, Bool, true, false, not, List, [], ◌∷◌, Option, none, some, ◌==◌, ◌||◌, ◌&&◌,
  if◌then◌else◌, lookup, keep,
}
use bandolier.Text.{◌<>◌, replace_all, trim_space, error_text}
use bandolier.Vault.{
  network_path, dns_path, tls_path, kubeconfig_path, join_token_path, wildcard_cert_path,
}
use bandolier.Result.{Error, Result, ok, err, failure}
use bandolier.World.{
  Ctx, Env, World, Value, Secret, ssh_kubeconfig, ssh_join_token, dns_upsert, helm_for,
  kubectl_apply, helm_repo_add, helm_repo_update, helm_install, create_values, write_values,
}
use bandolier.World.Exec.{modify, Exec, pure, raise, attempt, catch, ◌>>=◌, ◌>>◌}
use bandolier.Deployments.Effects.{run_streamed}
use bandolier.World.Calls.{
  tick, vault_get, vault_put, vault_issue, run_command, read_output, text_field,
}

-- `fmt.Errorf(prefix + "%w", err)`
abbrev pub wrapped {ℓ} : {A : Type ℓ} → String → Exec A → Exec A
wrapped prefix m = catch m (λ e. raise (failure (prefix <> error_text e)))

abbrev pub check : Bool → String → Exec (Unit {0})
check true msg = pure tt
check false msg = raise (failure msg)

-- `rewriteServerAddress`
unfoldable pub rewrite_server_address : String → String → String
rewrite_server_address yaml master_ip =
    replace_all (replace_all yaml "https://127.0.0.1:6443" ("https://" <> master_ip <> ":6443"))
      "https://0.0.0.0:6443" ("https://" <> master_ip <> ":6443")

-- dns/factory.go: the kinds that `NewProvider` knows. pfsense, pihole and adguard are stubs.
pub data Provider : Type 0 where
  none_provider bind_provider stub_provider : Provider

unfoldable pub new_provider : String → Result Provider
new_provider kind =
    if kind == "none"
    then ok none_provider
    else (if kind == "bind"
        then ok bind_provider
        else (if kind == "pfsense" || kind == "pihole" || kind == "adguard"
            then ok stub_provider
            else (if kind == ""
                then err (failure "dns: kind not configured")
                else err (failure ("dns: unknown kind \"" <> kind <> "\"")))))

abbrev pub some_or {ℓ} : {A : Type ℓ} → String → Option A → Exec A
some_or msg none = raise (failure msg)
some_or msg (some a) = pure a

abbrev pub or_raise {ℓ} : {A : Type ℓ} → Result A → Exec A
or_raise r w = (r, w)

-- clusters/cert.go: `CertBundle`; `none` is the zero time.
pub record Certificate : Type 0 where
  pub certificate : String
  pub private_key : String
  pub ca_chain : List String
  pub expires_at : Option ℕ

abbrev not_empty : String → Bool
not_empty s = not (s == "")

-- A list, or a single text; empty texts are left out.
abbrev chain_of : Option Value → List String
chain_of (some (Value.texts cs)) = keep not_empty cs
chain_of (some (Value.text c)) = keep not_empty (c ∷ [])
chain_of _ = []

-- `float64`, `int64` and `int`; a `json.Number` is left at the zero time.
abbrev expiry_of : Option Value → Option ℕ
expiry_of (some (Value.number n)) = some n
expiry_of _ = none

unfoldable pub cert_bundle : Secret → Certificate
cert_bundle resp = record {
  certificate = text_field "certificate" resp;
  private_key = text_field "private_key" resp;
  ca_chain = chain_of (lookup "ca_chain" resp);
  expires_at = expiry_of (lookup "expiration" resp);
}

-- `Format(time.RFC3339)`, the zero time included.
abbrev pub format_expiry : (ℕ → String) → Option ℕ → String
format_expiry format none = "0001-01-01T00:00:00Z"
format_expiry format (some t) = format t

module _ (env : Env) (ctx : Ctx) (id : String) where
  -- The output of the `ssh` command is the kubeconfig file.
  unfoldable pub fetch_kubeconfig : String → Exec (Unit {0})
  fetch_kubeconfig master_ip = do
    out ← wrapped "ssh fetch kubeconfig: " (read_output env ssh_kubeconfig)
    wrapped "vault put kubeconfig: " (λ w.
        vault_put env ctx (kubeconfig_path id)
          (("yaml", Value.text (rewrite_server_address out master_ip))
            ∷ ("retrieved_at", Value.text (env.format_time w.clock))
            ∷ [])
          w)

  unfoldable pub fetch_join_token : Exec (Unit {0})
  fetch_join_token = do
    out ← wrapped "ssh fetch join token: " (read_output env ssh_join_token)
    check (not (trim_space out == "")) "join token empty"
    wrapped "vault put join token: " (λ w.
        vault_put env ctx (join_token_path id)
          (("token", Value.text (trim_space out))
            ∷ ("retrieved_at", Value.text (env.format_time w.clock))
            ∷ [])
          w)

  -- `provider.Upsert` of each provider.
  unfoldable pub upsert : Provider → String → String → Exec (Unit {0})
  upsert none_provider name data' = pure tt
  upsert bind_provider name data' = run_command env (dns_upsert name data')
  upsert stub_provider name data' = raise (failure "dns: provider not implemented")

  -- The wait for the resolvers, where there is a record that they must pick up.
  abbrev pub settle : Provider → Exec (Unit {0})
  settle none_provider = pure tt
  settle _ = modify tick

  -- A cluster with no dns secret is left alone.
  abbrev pub write_record : String → Result Secret → Exec (Unit {0})
  write_record master_ip (err e) = pure tt
  write_record master_ip (ok dns) = do
    net ← wrapped "vault network read: " (vault_get env ctx (network_path id))
    check (not (text_field "fqdn" net == "")) "vault network: missing fqdn"
    provider ← or_raise (new_provider (text_field "kind" dns))
    upsert provider ("*." <> text_field "fqdn" net) master_ip
    settle provider

  unfoldable pub write_wildcard_dns : String → Exec (Unit {0})
  unfolding upsert new_provider
  write_wildcard_dns master_ip = do
    dns ← attempt (vault_get env ctx (dns_path id))
    write_record master_ip dns

  -- The request is `common_name = *.fqdn`, `alt_names = fqdn`, `ttl = 8760h`.
  unfoldable pub issue_wildcard_cert : String → String → Exec Certificate
  issue_wildcard_cert fqdn pki_role = do
    check (not (fqdn == "")) "issue wildcard: fqdn is empty"
    check (not (pki_role == "")) "issue wildcard: pki role is empty"
    reply ← vault_issue env ctx ("*." <> fqdn) pki_role
    resp ← some_or "issue wildcard: empty response" reply
    check (not (text_field "certificate" resp == "" || text_field "private_key" resp == ""))
        "issue wildcard: missing certificate or private_key in response"
    pure (cert_bundle resp)

  abbrev join_lines : List String → String
  join_lines [] = ""
  join_lines (c ∷ []) = c
  join_lines (c ∷ d ∷ cs) = c <> "\n" <> join_lines (d ∷ cs)

  unfoldable pub persist_wildcard_cert : Certificate → Exec (Unit {0})
  persist_wildcard_cert c = vault_put env ctx (wildcard_cert_path id) (
      ("certificate", Value.text c.certificate)
      ∷ ("private_key", Value.text c.private_key)
      ∷ ("ca_chain", Value.text (join_lines c.ca_chain))
      ∷ ("expires_at", Value.text (format_expiry env.format_time c.expires_at))
      ∷ [])

  unfoldable pub issue_wildcard_tls : Exec (Unit {0})
  unfolding issue_wildcard_cert persist_wildcard_cert
  issue_wildcard_tls = do
    net ← wrapped "vault network read: " (vault_get env ctx (network_path id))
    check (not (text_field "fqdn" net == "")) "vault network: missing fqdn"
    tls ← wrapped "vault tls read: " (vault_get env ctx (tls_path id))
    c ← issue_wildcard_cert (text_field "fqdn" net) (text_field "pki_role" tls)
    persist_wildcard_cert c
    run_command env helm_for
    run_command env kubectl_apply

  abbrev flag_or : Bool → Option Value → Bool
  flag_or d (some (Value.flag b)) = b
  flag_or d _ = d

  abbrev secret_or_nil : Result Secret → Secret
  secret_or_nil (ok s) = s
  secret_or_nil (err e) = []

  -- The dashboard is on unless the network secret says otherwise.
  unfoldable pub traefik_hostname : Secret → String
  traefik_hostname net =
      if flag_or true (lookup "traefik_dashboard" net) && not (text_field "fqdn" net == "")
      then "traefik." <> text_field "fqdn" net
      else ""

  unfoldable pub install_traefik : String → Exec (Unit {0})
  unfolding traefik_hostname
  install_traefik dep = do
    run_command env helm_for
    net ← attempt (vault_get env ctx (network_path id))
    wrapped "repo add: " (run_command env helm_repo_add)
    wrapped "repo update: " (run_command env helm_repo_update)
    wrapped "temp values: " (run_command env create_values)
    wrapped "write values: " (run_command env write_values)
    run_streamed env dep (helm_install env.traefik_version (traefik_hostname (secret_or_nil net)))
