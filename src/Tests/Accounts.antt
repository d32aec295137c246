-- ===== src/Tests/Accounts.antt =====
-- Logins, passwords and tokens on concrete installations.
use bandolier.Prelude.{
  ◌+◌, String, List, [], ◌∷◌, Option, some, ◌≡◌, refl, pos, ◌≤◌, leb, arith, if◌then◌else◌, inl,
  find_row, lookup,
}
use bandolier.Result.{ok}
use bandolier.Response.{okay, unauthorized, sent, refused}
use bandolier.Store.Tables.{Db}
use bandolier.World.{World, Ctx}
use bandolier.World.Exec.{pure, ◌>>=◌}
use bandolier.World.Returns.{Never, Returns}
use bandolier.Auth.{Answer, login, change_user_password, require_session}
use bandolier.Auth.Admission.{Admitted, login-Admitted}
use bandolier.Auth.Sessions.{IsSteady, lifetime, login-require_session}
use bandolier.Auth.Passwords.{is_done, ChangedIf, change_user_password-ChangedIf}
use bandolier.Auth.Accounts.{
  AuthRequest, setup_request, login_request, logout_request, change_request, serve_each, account,
  IsSingle, serve_each-IsSingle,
}
use bandolier.Text.{◌<>◌, trim_space}
use bandolier.World.Rules.{IsQuiet, IsLive}
use bandolier.World.Calls.{vault_get, vault_put, tick, query, statement}
use bandolier.Deployments.Effects.{audit}
use bandolier.Store.Audits.{insert_audit_entry}
use bandolier.Store.Users.{nanosecond_rate}
use bandolier.Auth.{setup, logout}
use bandolier.Auth.Token.{
  WsCodec, payload_of, unix, ws_token_ttl, ws_protocol_prefix, new_ws_token, websocket_session,
}
use bandolier.Auth.Token.Minted.{all_url_safe, Encodes, new_ws_token-websocket_session}
use bandolier.Auth.Token.SigningKey.{KeySource, ensure_ws_signing_key}
use bandolier.Auth.Token.SigningKey.Laws.{Prints, ensure_ws_signing_key_lem}
use bandolier.Auth.Token.Upgrade.{LetIf, websocket_session-LetIf}
use bandolier.Tests.{calm, live, idle}

abbrev bare : Db
bare = record {
  users = [];
  sessions = [];
  clusters = [];
  deployments = [];
  audit_log = [];
  repos = [];
  last_repo_id = 0;
  installs = [];
}

abbrev configured : World
configured = idle (record bare { users = account "hunter2hunter2" ∷ [] })

logs_in :
    (login calm live (some "hunter2hunter2") configured).0
    ≡ ok (record { response = okay "ok"; cookie = some "s1" })
unfolding login ◌>>=◌ query statement audit
logs_in = refl

login-Admitted_example :
    Returns
      (Admitted calm (some "hunter2hunter2") configured)
      Never
      (login calm live (some "hunter2hunter2") configured).0
      (login calm live (some "hunter2hunter2") configured).1
login-Admitted_example = login-Admitted calm live (some "hunter2hunter2") configured

abbrev welcome : Answer
welcome = record { response = okay "ok"; cookie = some "s1" }

abbrev entered : World
unfolding login
entered = (login calm live (some "hunter2hunter2") configured).1

calm-IsQuiet : IsQuiet calm
calm-IsQuiet = record { sql = λ n. refl }

live-IsLive : IsLive live
live-IsLive = record { never = λ n. refl }

calm-IsSteady : IsSteady calm
calm-IsSteady m n h = omega (arith, h)

enters : login calm live (some "hunter2hunter2") configured ≡ (ok welcome, entered)
unfolding login entered ◌>>=◌ query statement audit
enters = refl

login-require_session_example :
    (calm.nanos entered.clock ≤ calm.nanos configured.clock + lifetime
      → require_session calm live (λ r. refused r) (some "s1") (λ uid. pure (sent uid)) entered
        ≡ pure (sent 1) (tick entered))
    × (calm.nanos entered.clock + lifetime + nanosecond_rate ≤ calm.nanos entered.clock
        → require_session calm live (λ r. refused r) (some "s1") (λ uid. pure (sent uid)) entered
          ≡ (ok (refused (unauthorized "session expired")), tick entered))
login-require_session_example =
    login-require_session calm live live "hunter2hunter2" configured entered entered welcome "s1"
      (λ r. refused r) (λ uid. pure (sent uid)) calm-IsQuiet live-IsLive calm-IsSteady enters refl
      refl refl

abbrev passwords : Option (String × String)
passwords = some ("hunter2hunter2", "correct horse battery")

changes :
    (change_user_password calm live (some 1) passwords configured).1.db.users
    ≡ account "correct horse battery" ∷ []
unfolding change_user_password insert_audit_entry ◌>>=◌ query statement audit
changes = refl

change_user_password-ChangedIf_example :
    Returns
      (λ a v. ChangedIf calm (some 1) passwords configured v (is_done a.response))
      Never
      (change_user_password calm live (some 1) passwords configured).0
      (change_user_password calm live (some 1) passwords configured).1
change_user_password-ChangedIf_example =
    change_user_password-ChangedIf calm live (some 1) passwords configured

abbrev visits : List (Ctx × AuthRequest)
visits =
    (live, setup_request (some "hunter2hunter2"))
    ∷ (live, setup_request (some "mine now"))
    ∷ (live, login_request (some "hunter2hunter2"))
    ∷ (live, change_request (some "s1") passwords)
    ∷ (live, logout_request (some "s1"))
    ∷ []

abbrev untouched : World
untouched = idle bare

visited : (serve_each calm visits untouched).1.db.users ≡ account "correct horse battery" ∷ []
unfolding serve_each setup login change_user_password logout require_session insert_audit_entry
    find_row ◌>>=◌ query statement audit
visited = refl

serve_each-IsSingle_example : IsSingle (serve_each calm visits untouched).1.db.users
serve_each-IsSingle_example = serve_each-IsSingle calm visits untouched (inl refl)

abbrev plain_codec : WsCodec
plain_codec = record {
  encode = λ p. "e30";
  decode = λ t. some (payload_of 1 61);
  hmac = λ key t. "c2ln";
}

plain_codec-Encodes :
    Encodes plain_codec "key" (payload_of 1 (unix (nanosecond_rate + ws_token_ttl)))
unfolding all_url_safe
plain_codec-Encodes = record { text = refl; mac = refl; reads = refl }

new_ws_token-websocket_session_example :
    (token : String) × (new_ws_token plain_codec "key" nanosecond_rate nanosecond_rate (some 1)
      ≡ sent (token, nanosecond_rate + ws_token_ttl))
    × (websocket_session plain_codec "key" nanosecond_rate (ws_protocol_prefix <> token) ≡ (
        if leb (unix (nanosecond_rate + ws_token_ttl)) (unix nanosecond_rate)
        then refused (unauthorized "invalid ws token")
        else sent (pos 1, ws_protocol_prefix <> token)))
new_ws_token-websocket_session_example =
    new_ws_token-websocket_session plain_codec "key" nanosecond_rate nanosecond_rate nanosecond_rate
      1 refl plain_codec-Encodes

upgrades :
    websocket_session plain_codec "key" nanosecond_rate "graphql-ws, bandolier.ws.e30.c2ln"
    ≡ sent (pos 1, "bandolier.ws.e30.c2ln")
unfolding websocket_session trim_space
upgrades = refl

websocket_session-LetIf_example :
    LetIf plain_codec "key" nanosecond_rate "graphql-ws, bandolier.ws.e30.c2ln"
      (websocket_session plain_codec "key" nanosecond_rate "graphql-ws, bandolier.ws.e30.c2ln")
websocket_session-LetIf_example =
    websocket_session-LetIf plain_codec "key" nanosecond_rate "graphql-ws, bandolier.ws.e30.c2ln"

abbrev key_source : KeySource
key_source = record { print = λ b. "aw=="; read = λ t. some "k"; fresh = λ n. some "k" }

key_source-Prints : Prints key_source
key_source-Prints = record { given = λ n key e. refl; reads = λ n key e. e }

abbrev keyed : World
keyed = (ensure_ws_signing_key calm live key_source untouched).1

ensure_ws_signing_key_lem_example :
    ensure_ws_signing_key calm live key_source keyed ≡ (ok "k", tick keyed)
unfolding ensure_ws_signing_key ◌>>=◌ vault_get vault_put lookup
ensure_ws_signing_key_lem_example =
    ensure_ws_signing_key_lem calm live live key_source "k" untouched keyed key_source-Prints refl
      refl refl refl
