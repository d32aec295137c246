-- ===== src/Auth/Token/SigningKey.antt =====
-- api/internal/auth/ws_token.go: `EnsureWSSigningKey`. Bytes are texts.
pub mod Laws
use bandolier.Prelude.{
  ℕ, String, Bool, true, false, ◌≡◌, refl, ap, sym, subst, ◌∙◌, List, [], ◌∷◌, Option, none, some,
  ◌==◌, if◌then◌else◌, arith, lookup, insert, lookup-insert, eq_refl, Bool-cases, inl, inr,
}
use bandolier.Result.{Error, Result, ok, err, failure}
use bandolier.World.{Ctx, Env, World, Value, Secret}
use bandolier.World.Exec.{Exec, pure, raise, attempt, ◌>>=◌, ◌>>◌}
use bandolier.World.Calls.{vault_get, vault_put, text_field, ctx_done, guarded, tick}
use bandolier.World.Triples.{Spec, Ends}
use bandolier.World.Returns.{Returns, SpecR, SpecR-bind, SpecR-pure, if-SpecR, guarded-Two}
use bandolier.Auth.{at_time}
use bandolier.Auth.Writes.{SpecR-at_time}

-- base64 of bytes and back, and `rand.Read`.
pub record KeySource : Type 0 where
  pub print : String → String
  pub read : String → Option String
  pub fresh : ℕ → Option String

abbrev pub signing_key_path : String
signing_key_path = "auth/ws_signing_key"

-- The text of the key, empty where there is none.
abbrev pub stored_key : Result Secret → String
stored_key (err e) = ""
stored_key (ok s) = text_field "key" s

module _ (env : Env) (ctx : Ctx) (source : KeySource) where
  abbrev pub decoded_key : Option String → Exec String
  decoded_key none = raise (failure "decode ws signing key")
  decoded_key (some key) = pure key

  abbrev pub persist_key : Option String → Exec String
  persist_key none = raise (failure "generate ws signing key")
  persist_key (some key) = do
    vault_put env ctx signing_key_path (("key", Value.text (source.print key)) ∷ [])
    pure key

  abbrev pub key_or_new : String → Exec String
  key_or_new text =
      if text == ""
      then (do key ← at_time source.fresh; persist_key key)
      else decoded_key (source.read text)

  unfoldable pub ensure_ws_signing_key : Exec String
  unfolding at_time text_field
  ensure_ws_signing_key = do
    data_ ← attempt (vault_get env ctx signing_key_path)
    key_or_new (stored_key data_)
