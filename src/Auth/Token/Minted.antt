-- ===== src/Auth/Token/Minted.antt =====
-- A token from the request for one to the upgrade of a websocket.
use Prim.Native.String.compare
use Prim.Native.Char.{code}
use text.Mathlib.TextLemmas.{nil-append, cons-append}
use bandolier.Prelude.{
  ℕ, pos, ◌+◌, String, Bool, true, false, ◌&&◌, ◌||◌, ◌≡◌, refl, [], ◌∷◌, some, ◌==◌, if◌then◌else◌,
  leb, eqb, arith,
}
use bandolier.Text.{◌<>◌, lacks_space, trim_space-lacks_space}
use bandolier.Response.{unauthorized, sent, refused}
use bandolier.Auth.Token.{
  Payload, WsCodec, unix, payload_of, ws_protocol_prefix, split_commas, cut_prefix, first_match,
  websocket_session, mint_ws_token, ws_token_ttl, new_ws_token,
}
use bandolier.Auth.Token.Laws.{lacks_dot, verify_ws_token-mint_ws_token}

-- The letters of base64url.
abbrev is_url_safe : ℕ → Bool
is_url_safe c =
    (leb 0x61 c && leb c 0x7a)
    || (leb 0x41 c && leb c 0x5a)
    || (leb 0x30 c && leb c 0x39)
    || eqb c 0x2d
    || eqb c 0x5f

unfoldable pub all_url_safe : String → Bool
all_url_safe String.[] = true
all_url_safe (String.◌∷◌ c s) = is_url_safe (code c) && all_url_safe s

-- Of those letters and dots.
has_token_form : String → Bool
has_token_form String.[] = true
has_token_form (String.◌∷◌ c s) = (is_url_safe (code c) || eqb (code c) 0x2e) && has_token_form s

all_url_safe-lacks_dot : (s : String) → all_url_safe s ≡ true → lacks_dot s ≡ true
unfolding all_url_safe lacks_dot
all_url_safe-lacks_dot String.[] h = refl
all_url_safe-lacks_dot (String.◌∷◌ c s) h = ground (arith, all_url_safe-lacks_dot s)

all_url_safe-has_token_form : (s : String) → all_url_safe s ≡ true → has_token_form s ≡ true
unfolding all_url_safe has_token_form
all_url_safe-has_token_form String.[] h = refl
all_url_safe-has_token_form (String.◌∷◌ c s) h = ground (arith, all_url_safe-has_token_form s)

has_token_form-append :
    (s t : String)
    → has_token_form s ≡ true
    → has_token_form t ≡ true
    → has_token_form (s <> t) ≡ true
unfolding has_token_form
has_token_form-append String.[] t h k = rw (nil-append t) k
has_token_form-append (String.◌∷◌ c s) t h k =
    rw (cons-append c s t) (ground (arith, has_token_form-append s t))

has_token_form-lacks_space : (s : String) → has_token_form s ≡ true → lacks_space s ≡ true
unfolding has_token_form lacks_space
has_token_form-lacks_space String.[] h = refl
has_token_form-lacks_space (String.◌∷◌ c s) h = ground (arith, has_token_form-lacks_space s)

split_commas-has_token_form : (s : String) → has_token_form s ≡ true → split_commas s ≡ s ∷ []
unfolding has_token_form split_commas
split_commas-has_token_form String.[] h = refl
split_commas-has_token_form (String.◌∷◌ c s) h = ground (arith, split_commas-has_token_form s)

cut_prefix-append : (p s : String) → cut_prefix (p <> s) p ≡ some s
unfolding cut_prefix
cut_prefix-append String.[] s = rw (nil-append s) refl
cut_prefix-append (String.◌∷◌ c p) s =
    rw (cons-append c p s) (ground (arith, cut_prefix-append p s))

prefix_form : has_token_form ws_protocol_prefix ≡ true
unfolding has_token_form
prefix_form = refl

first_match-token :
    (token : String)
    → has_token_form token ≡ true
    → first_match (split_commas (ws_protocol_prefix <> token))
      ≡ some (ws_protocol_prefix <> token, token)
unfolding first_match
first_match-token token h =
    let whole = has_token_form-append ws_protocol_prefix token prefix_form h in
    rw
      (
        split_commas-has_token_form _ whole,
        trim_space-lacks_space _ (has_token_form-lacks_space _ whole),
        cut_prefix-append ws_protocol_prefix token,
      )
      refl

-- The codec encodes a payload in the letters of base64url, reads it back, and signs its text.
pub record Encodes (codec : WsCodec) (key : String) (p : Payload) : Type 0 where
  pub text : all_url_safe (codec.encode p) ≡ true
  pub mac : all_url_safe (codec.hmac key (codec.encode p)) ≡ true
  pub reads : codec.decode (codec.encode p) ≡ some p

not_empty : (token : String) → (ws_protocol_prefix <> token == "") ≡ false
not_empty token =
    rw (cons-append _ "andolier.ws." token, compare.cons-nil _ ("andolier.ws." <> token)) refl

mint-has_token_form :
    (codec : WsCodec) (key : String) (now user ttl : ℕ)
    → Encodes codec key (payload_of user (unix (now + ttl)))
    → has_token_form (mint_ws_token codec key now user ttl) ≡ true
unfolding mint_ws_token has_token_form
mint-has_token_form codec key now user ttl h =
    let text = codec.encode (payload_of user (unix (now + ttl))) in
    has_token_form-append (text <> ".") (codec.hmac key text)
      (has_token_form-append text "." (all_url_safe-has_token_form text h.text) refl)
      (all_url_safe-has_token_form (codec.hmac key text) h.mac)

-- Take a user that is not 0, and a codec that encodes the user's payload in base64url. The user gets
-- a token, and an upgrade that offers it with the prefix goes on for the user until the second in
-- which 60 seconds have passed since the token was made; from then on it is refused with 401.
pub new_ws_token-websocket_session :
    (codec : WsCodec) (key : String) (now later at user : ℕ)
    → eqb user 0 ≡ false
    → Encodes codec key (payload_of user (unix (now + ws_token_ttl)))
    → (token : String) × (new_ws_token codec key now later (some user)
        ≡ sent (token, later + ws_token_ttl))
      × (websocket_session codec key at (ws_protocol_prefix <> token) ≡ (
          if leb (unix (now + ws_token_ttl)) (unix at)
          then refused (unauthorized "invalid ws token")
          else sent (pos user, ws_protocol_prefix <> token)))
unfolding websocket_session new_ws_token
new_ws_token-websocket_session codec key now later at user known h =
    let token = mint_ws_token codec key now user ws_token_ttl in
    (
      token,
      rw known refl,
      rw
          (
            not_empty token,
            first_match-token token (mint-has_token_form codec key now user ws_token_ttl h),
            verify_ws_token-mint_ws_token codec key now at user ws_token_ttl
                (all_url_safe-lacks_dot (codec.encode (payload_of user (unix (now + ws_token_ttl))))
                  h.text)
                h.reads,
          )
          (ground arith),
    )
