-- ===== src/Auth/Token/Laws.antt =====
-- Which tokens of the websockets are accepted.
use Prim.Native.Char.{Char, code}
use text.Mathlib.TextEquality.{Char-path}
use text.Mathlib.TextLemmas.{nil-append, cons-append, append_assoc}
use bandolier.Prelude.{
  subst, ℤ, ℕ, pos, ◌+◌, String, Bool, true, false, not, ◌&&◌, ◌≡◌, refl, ap, ◌∙◌, Option, none,
  some, ◌==◌, if◌then◌else◌, leb, Bool-cases, inl, inr, sym, arith, eq_iff, eq_refl,
}
use bandolier.Text.{◌<>◌}
use bandolier.Auth.Token.{
  Payload, WsCodec, Verdict, verified, malformed_token, invalid_signature, expired_token, is_dot,
  cut_dot, unix, payload_of, is_over, mint_ws_token, payload_verdict, parts_verdict,
  verify_ws_token, in_front,
}

unfoldable pub lacks_dot : String → Bool
lacks_dot String.[] = true
lacks_dot (String.◌∷◌ c s) = not (is_dot (code c)) && lacks_dot s

cut_dot-cons_dot : (s : String) → cut_dot ("." <> s) ≡ some ("", s)
unfolding cut_dot
cut_dot-cons_dot s = rw (cons-append _ "" s, nil-append s) refl

cut_dot-join : (t s : String) → lacks_dot t ≡ true → cut_dot (t <> ("." <> s)) ≡ some (t, s)
unfolding cut_dot lacks_dot
cut_dot-join String.[] s h = rw (nil-append ("." <> s)) (cut_dot-cons_dot s)
cut_dot-join (String.◌∷◌ c t) s h =
    rw (cons-append c t ("." <> s)) (ground (arith, cut_dot-join t s))

cut_dot-append : (t s : String) → lacks_dot t ≡ true → cut_dot (t <> "." <> s) ≡ some (t, s)
cut_dot-append t s h = rw (append_assoc t "." s) (cut_dot-join t s h)

abbrev Spells : String → Option (String × String) → Type 0
Spells token none = Unit
Spells token (some p) = token ≡ p.0 <> ("." <> p.1)

Spells-in_front :
    (c : Char) (s : String) (o : Option (String × String))
    → Spells s o
    → Spells (String.◌∷◌ c s) (in_front c o)
Spells-in_front c s none h = tt
Spells-in_front c s (some p) h = ap (String.◌∷◌ c) h ∙ sym (cons-append c p.0 ("." <> p.1))

Spells-dot : (c : Char) (s : String) → is_dot (code c) ≡ true → String.◌∷◌ c s ≡ "" <> ("." <> s)
Spells-dot c s h =
    rw (nil-append ("." <> s), cons-append _ "" s, nil-append s)
      (ap (λ d. String.◌∷◌ d s) (Char-path c _ (ground arith)))

cut_dot-Spells : (token : String) → Spells token (cut_dot token)
unfolding cut_dot
cut_dot-Spells String.[] = tt
cut_dot-Spells (String.◌∷◌ c s) = elim (Bool-cases (is_dot (code c))) [
  | inl e ↦ rw e (Spells-dot c s e)
  | inr e ↦ rw e (Spells-in_front c s (cut_dot s) (cut_dot-Spells s))
]

-- A token that was made under a key is read under that key as its user's until the second it ends
-- in, and as over from then on: where the encoded payload has no dot and is decoded to the payload.
pub verify_ws_token-mint_ws_token :
    (codec : WsCodec) (key : String) (now later user_id ttl : ℕ)
    → lacks_dot (codec.encode (payload_of user_id (unix (now + ttl)))) ≡ true
    → codec.decode (codec.encode (payload_of user_id (unix (now + ttl))))
      ≡ some (payload_of user_id (unix (now + ttl)))
    → verify_ws_token codec key later (mint_ws_token codec key now user_id ttl)
      ≡ (if leb (unix (now + ttl)) (unix later) then expired_token else verified (pos user_id))
unfolding verify_ws_token mint_ws_token
verify_ws_token-mint_ws_token codec key now later user_id ttl plain read =
    let text = codec.encode (payload_of user_id (unix (now + ttl))) in
    rw (cut_dot-append text (codec.hmac key text) plain, eq_refl (codec.hmac key text), read) refl

-- What a verdict means of a token under a key at a time in seconds.
pub record SignedFor (codec : WsCodec) (key : String) (now : ℕ) (user : ℤ) (token : String)
    : Type 0 where
  pub text : String
  pub payload : Payload
  pub spells : token ≡ text <> ("." <> codec.hmac key text)
  pub reads : codec.decode text ≡ some payload
  pub names : payload.user_id ≡ user
  pub lasts : is_over payload.exp (unix now) ≡ false

abbrev Claims : WsCodec → String → ℕ → String → Verdict → Type 0
Claims codec key now token (verified user) = SignedFor codec key now user token
Claims codec key now token malformed_token = Unit
Claims codec key now token invalid_signature = Unit
Claims codec key now token expired_token = Unit

module _ (codec : WsCodec) (key : String) (now : ℕ) (token : String) where
  payload_verdict-Claims :
      (text : String) (o : Option Payload)
      → token ≡ text <> ("." <> codec.hmac key text)
      → codec.decode text ≡ o
      → Claims codec key now token (payload_verdict codec key now o)
  payload_verdict-Claims text none spells reads = tt
  payload_verdict-Claims text (some p) spells reads = elim (Bool-cases (is_over p.exp (unix now))) [
    | inl over ↦ rw over tt
    | inr lasts ↦ rw lasts (record {
      text = text;
      payload = p;
      spells = spells;
      reads = reads;
      names = refl;
      lasts = lasts;
    })
  ]

  parts_verdict-Claims :
      (o : Option (String × String))
      → Spells token o
      → Claims codec key now token (parts_verdict codec key now o)
  parts_verdict-Claims none h = tt
  parts_verdict-Claims (some p) h = elim (Bool-cases (codec.hmac key p.0 == p.1)) [
    | inl equal ↦
        let same : p.1 ≡ codec.hmac key p.0 = sym ((eq_iff (codec.hmac key p.0) p.1).0 equal) in
        rw equal (
          payload_verdict-Claims p.0 (codec.decode p.0) (h ∙ ap (λ m. p.0 <> ("." <> m)) same) refl)
    | inr other ↦ rw other tt
  ]

  verify_ws_token-Claims : Claims codec key now token (verify_ws_token codec key now token)
  unfolding verify_ws_token
  verify_ws_token-Claims = parts_verdict-Claims (cut_dot token) (cut_dot-Spells token)

-- A token that is accepted for a user is a text and its signature under the key, and the text is
-- read as a payload of that user that is not over.
pub verify_ws_token-SignedFor :
    (codec : WsCodec) (key : String) (now : ℕ) (user : ℤ) (token : String)
    → verify_ws_token codec key now token ≡ verified user
    → SignedFor codec key now user token
verify_ws_token-SignedFor codec key now user token e =
    subst (Claims codec key now token) e (verify_ws_token-Claims codec key now token)
