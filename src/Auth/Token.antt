-- ===== src/Auth/Token.antt =====
-- api/internal/auth/ws_token.go, ws.go and ws_handler.go: the signed tokens of the websockets. A time
-- is in nanoseconds, `exp` in seconds.
pub mod Laws
pub mod Upgrade
pub mod Minted
pub mod SigningKey
use Prim.Native.String
use Prim.Native.Char.{code}
use bandolier.Prelude.{
  ℕ, zero, suc, ℤ, pos, negsuc, ◌+◌, ◌*◌, ◌/◌, String, Bool, true, false, ◌≡◌, List, [], ◌∷◌,
  Option, none, some, ◌==◌, if◌then◌else◌, leb, eqb,
}
use bandolier.Text.{◌<>◌, trim_space}
use bandolier.Response.{Response, unauthorized, Reply, sent, refused}
use bandolier.Store.Users.{nanosecond_rate}

-- `wsTokenPayload`
pub record Payload : Type 0 where
  pub user_id : ℤ
  pub exp : ℤ

-- base64url of the JSON text and back, and base64url of HMAC-SHA256 under a key.
pub record WsCodec : Type 0 where
  pub encode : Payload → String
  pub decode : String → Option Payload
  pub hmac : String → String → String

pub data Verdict : Type 0 where
  verified : ℤ → Verdict
  malformed_token invalid_signature expired_token : Verdict

abbrev is_dot : ℕ → Bool
is_dot c = eqb c 0x2e

abbrev in_front : Prim.Native.Char.Char → Option (String × String) → Option (String × String)
in_front c none = none
in_front c (some p) = some (String.◌∷◌ c p.0, p.1)

-- `strings.SplitN(s, ".", 2)` where it has two parts.
unfoldable pub cut_dot : String → Option (String × String)
cut_dot String.[] = none
cut_dot (String.◌∷◌ c s) =
    let rest = in_front c (cut_dot s) in if is_dot (code c) then some ("", s) else rest

abbrev pub unix : ℕ → ℕ
unix t = t / nanosecond_rate

abbrev pub payload_of : ℕ → ℕ → Payload
payload_of user_id exp = record { user_id = pos user_id; exp = pos exp }

-- `p.Exp <= now`
abbrev pub is_over : ℤ → ℕ → Bool
is_over (pos e) now = leb e now
is_over (negsuc e) now = true

module _ (codec : WsCodec) (key : String) where
  abbrev pub signed : String → String
  signed text = text <> "." <> codec.hmac key text

  -- At the time `now`.
  unfoldable pub mint_ws_token : ℕ → ℕ → ℕ → String
  mint_ws_token now user_id ttl = signed (codec.encode (payload_of user_id (unix (now + ttl))))

  abbrev pub payload_verdict : ℕ → Option Payload → Verdict
  payload_verdict now none = malformed_token
  payload_verdict now (some p) =
      if is_over p.exp (unix now) then expired_token else verified p.user_id

  abbrev pub parts_verdict : ℕ → Option (String × String) → Verdict
  parts_verdict now none = malformed_token
  parts_verdict now (some p) =
      if codec.hmac key p.0 == p.1
      then payload_verdict now (codec.decode p.0)
      else invalid_signature

  unfoldable pub verify_ws_token : ℕ → String → Verdict
  unfolding cut_dot
  verify_ws_token now token = parts_verdict now (cut_dot token)

abbrev pub ws_protocol_prefix : String
ws_protocol_prefix = "bandolier.ws."

abbrev is_comma : ℕ → Bool
is_comma c = eqb c 0x2c

abbrev onto_first : Prim.Native.Char.Char → List String → List String
onto_first c [] = String.◌∷◌ c "" ∷ []
onto_first c (p ∷ ps) = String.◌∷◌ c p ∷ ps

-- `strings.Split(s, ",")`
unfoldable pub split_commas : String → List String
split_commas String.[] = "" ∷ []
split_commas (String.◌∷◌ c s) =
    let rest = split_commas s in if is_comma (code c) then "" ∷ rest else onto_first c rest

-- `strings.HasPrefix` with `strings.TrimPrefix`: the text after the prefix.
unfoldable pub cut_prefix : String → String → Option String
cut_prefix s String.[] = some s
cut_prefix String.[] (String.◌∷◌ d p) = none
cut_prefix (String.◌∷◌ c s) (String.◌∷◌ d p) =
    let rest = cut_prefix s p in if eqb (code c) (code d) then rest else none

abbrev pub or_later : String → Option (String × String) → Option String → Option (String × String)
or_later p later none = later
or_later p later (some token) = some (p, token)

-- The first protocol with the prefix, and its token.
unfoldable pub first_match : List String → Option (String × String)
unfolding cut_prefix
first_match [] = none
first_match (p ∷ ps) =
    let later = first_match ps in
    or_later (trim_space p) later (cut_prefix (trim_space p) ws_protocol_prefix)

abbrev pub admit : String → Verdict → Reply (ℤ × String)
admit protocol (verified user) = sent (user, protocol)
admit protocol _ = refused (unauthorized "invalid ws token")

-- `WebSocketSession`: the user for whom the request goes on, and the protocol that is echoed.
module _ (codec : WsCodec) (key : String) (now : ℕ) where
  abbrev pub match_verdict : Option (String × String) → Reply (ℤ × String)
  match_verdict none = refused (unauthorized "no bandolier subprotocol")
  match_verdict (some m) = admit m.0 (verify_ws_token codec key now m.1)

  unfoldable pub websocket_session : String → Reply (ℤ × String)
  unfolding first_match split_commas verify_ws_token
  websocket_session proto =
      if proto == ""
      then refused (unauthorized "missing subprotocol")
      else match_verdict (first_match (split_commas proto))

-- In nanoseconds.
abbrev pub ws_token_ttl : ℕ
ws_token_ttl = 60 * nanosecond_rate

-- `NewWSTokenHandler` for the user of the context: the token, and when it ends. The token is made
-- at the time `now`, the end is computed at `later`.
unfoldable pub new_ws_token : WsCodec → String → ℕ → ℕ → Option ℕ → Reply (String × ℕ)
new_ws_token codec key now later none = refused (unauthorized "unauthenticated")
new_ws_token codec key now later (some user) =
    if eqb user 0
    then refused (unauthorized "unauthenticated")
    else sent (mint_ws_token codec key now user ws_token_ttl, later + ws_token_ttl)
