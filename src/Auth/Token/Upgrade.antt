-- ===== src/Auth/Token/Upgrade.antt =====
-- Who gets through to a websocket.
use Prim.Native.Char.{Char, code}
use text.Mathlib.TextLemmas.{nil-append, cons-append}
use text.Mathlib.TextEquality.{Char-path}
use bandolier.Prelude.{
  ℕ, ℤ, String, ◌≡◌, refl, ap, sym, ◌∙◌, List, [], ◌∷◌, Option, none, some, ◌==◌, eqb, arith,
  Bool-cases, inl, inr, ◌⊎◌,
}
use bandolier.Text.{◌<>◌, trim_space}
use bandolier.Response.{unauthorized, Reply, sent, refused}
use bandolier.Auth.Token.{
  WsCodec, Verdict, verified, malformed_token, invalid_signature, expired_token, ws_protocol_prefix,
  split_commas, cut_prefix, or_later, first_match, admit, match_verdict, websocket_session,
  verify_ws_token,
}
use bandolier.Auth.Token.Laws.{SignedFor, verify_ws_token-SignedFor}

abbrev Follows : String → String → Option String → Type 0
Follows s p none = Unit
Follows s p (some rest) = s ≡ p <> rest

Follows-cons :
    (c d : Char) (s p : String) (o : Option String)
    → code c ≡ code d
    → Follows s p o
    → Follows (String.◌∷◌ c s) (String.◌∷◌ d p) o
Follows-cons c d s p none e h = tt
Follows-cons c d s p (some rest) e h =
    ap (String.◌∷◌ c) h
    ∙ ap (λ x. String.◌∷◌ x (p <> rest)) (Char-path c d e)
    ∙ sym (cons-append d p rest)

cut_prefix-Follows : (s p : String) → Follows s p (cut_prefix s p)
unfolding cut_prefix
cut_prefix-Follows s String.[] = sym (nil-append s)
cut_prefix-Follows String.[] (String.◌∷◌ d p) = tt
cut_prefix-Follows (String.◌∷◌ c s) (String.◌∷◌ d p) = elim (Bool-cases (eqb (code c) (code d))) [
  | inl e ↦ rw e (Follows-cons c d s p (cut_prefix s p) (ground arith) (cut_prefix-Follows s p))
  | inr e ↦ rw e tt
]

-- One of the protocols is that text, without the spaces around it.
abbrev pub Offers : List String → String → Type 0
Offers [] protocol = ⊥
Offers (p ∷ ps) protocol = (trim_space p ≡ protocol) ⊎ Offers ps protocol

abbrev Matched : List String → Option (String × String) → Type 0
Matched ps none = Unit
Matched ps (some m) = Offers ps m.0 × (m.0 ≡ ws_protocol_prefix <> m.1)

Matched-later :
    (p : String) (ps : List String) (o : Option (String × String))
    → Matched ps o
    → Matched (p ∷ ps) o
Matched-later p ps none h = tt
Matched-later p ps (some m) h = (inr h.0, h.1)

or_later-Matched :
    (p : String) (ps : List String) (later : Option (String × String)) (o : Option String)
    → Matched ps later
    → Follows (trim_space p) ws_protocol_prefix o
    → Matched (p ∷ ps) (or_later (trim_space p) later o)
or_later-Matched p ps later none h f = Matched-later p ps later h
or_later-Matched p ps later (some token) h f = (inl refl, f)

first_match-Matched : (ps : List String) → Matched ps (first_match ps)
unfolding first_match
first_match-Matched [] = tt
first_match-Matched (p ∷ ps) =
    or_later-Matched p ps (first_match ps) (cut_prefix (trim_space p) ws_protocol_prefix)
      (first_match-Matched ps) (cut_prefix-Follows (trim_space p) ws_protocol_prefix)

-- The protocol that is echoed was offered, and holds a token that is good for the user.
pub record Let (codec : WsCodec) (key : String) (now : ℕ) (proto : String) (user : ℤ)
    (echo : String) : Type 0 where
  pub token : String
  pub offered : Offers (split_commas proto) echo
  pub spells : echo ≡ ws_protocol_prefix <> token
  pub good : SignedFor codec key now user token

abbrev pub LetIf : WsCodec → String → ℕ → String → Reply (ℤ × String) → Type 0
LetIf codec key now proto (sent a) = Let codec key now proto a.0 a.1
LetIf codec key now proto (refused r) = (text : String) × (r ≡ unauthorized text)

module _ (codec : WsCodec) (key : String) (now : ℕ) (proto : String) where
  admit-LetIf :
      (v : Verdict) (m : String × String)
      → verify_ws_token codec key now m.1 ≡ v
      → Matched (split_commas proto) (some m)
      → LetIf codec key now proto (admit m.0 v)
  admit-LetIf (verified user) m e h = record {
    token = m.1;
    offered = h.0;
    spells = h.1;
    good = verify_ws_token-SignedFor codec key now user m.1 e;
  }
  admit-LetIf malformed_token m e h = (_, refl)
  admit-LetIf invalid_signature m e h = (_, refl)
  admit-LetIf expired_token m e h = (_, refl)

  match_verdict-LetIf :
      (o : Option (String × String))
      → Matched (split_commas proto) o
      → LetIf codec key now proto (match_verdict codec key now o)
  match_verdict-LetIf none h = (_, refl)
  match_verdict-LetIf (some m) h = admit-LetIf (verify_ws_token codec key now m.1) m refl h

-- An upgrade to a websocket goes on for a user only if the header offers a protocol that is the
-- prefix and a token, and the token is a text with its signature under the key, which is read as a
-- payload of that user that is not over; that protocol is echoed. Any other upgrade is answered 401.
pub websocket_session-LetIf :
    (codec : WsCodec) (key : String) (now : ℕ) (proto : String)
    → LetIf codec key now proto (websocket_session codec key now proto)
unfolding websocket_session
websocket_session-LetIf codec key now proto = elim (Bool-cases (proto == "")) [
  | inl e ↦ rw e (_, refl)
  | inr e ↦ rw e (
      match_verdict-LetIf codec key now proto (first_match (split_commas proto))
        (first_match-Matched (split_commas proto)))
]
