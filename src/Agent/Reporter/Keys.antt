-- ===== src/Agent/Reporter/Keys.antt =====
-- The keys of both sides, and what is made of them: the encoder that
-- internal/app/agent/workers/reporter_pool.go gives to its reporters, and the routes of the server.
use mathlib.Core.Option
use go_advanced.Base.{
  String, ◌≡◌, refl, sym, ap, ◌∙◌, inl, inr, true, false, Option, none, some, [], is_empty, ◌<>◌,
  if◌then◌else◌,
}
use go_advanced.Entities.Errors.{context, Result, ok, err, Result-cases}
use go_advanced.GoMap.{GoMap}
use go_advanced.Http.{Request}
use go_advanced.Storage.{Storage}
use go_advanced.Handlers.Adapters.{Formats}
use go_advanced.Handlers.Routes
use go_advanced.Handlers.Routes.{
  MetricsRouter, Chi, IsChi, post, new_metrics_router, with_all_handlers,
}
use go_advanced.Middleware.Encoding.{Gzip}
use go_advanced.Middleware.Rsa.{encrypt_body}
use go_advanced.Middleware.Rsa.Keys.{Library, load_public_key, load_private_key, encoder}
use go_advanced.Server.Config.{Config}
use go_advanced.Server.Stack.{
  with_middlewares, create_server, create_server-decrypt, create_server-plain,
}
use go_advanced.Agent.Reporter.{build_request}
use go_advanced.Agent.Reporter.Delivery.{Cipher}

abbrev or_wrapped : Result (Request → Result Request) → Result (Option (Request → Result Request))
or_wrapped (err e) = err (context "rsaencoder" e)
or_wrapped (ok encode) = ok (some encode)

-- the encoder in `StartReporters`
unfoldable pub reporter_encoder : Library → String → Result (Option (Request → Result Request))
reporter_encoder lib crypto_key =
    if is_empty crypto_key then ok none else or_wrapped (encoder lib crypto_key)

-- The cipher between the files of the two keys: none where neither side names a file; else both keys
-- can be loaded, and what the one encrypts the other decrypts.
abbrev pub Between : Library → String → String → Option Cipher → Type 0
Between lib path path' none = (is_empty path ≡ true) × (is_empty path' ≡ true)
Between lib path path' (some c) =
    (k : lib.PublicKey) × (k' : lib.PrivateKey) × (is_empty path ≡ false)
    × (is_empty path' ≡ false)
    × (load_public_key lib path ≡ ok k)
    × (load_private_key lib path' ≡ ok k')
    × (c ≡ record { encrypt = lib.encrypt_pkcs1v15 k; decrypt = lib.decrypt_pkcs1v15 k' })

pub reporter_encoder_lem :
    (lib : Library) (path path' : String) (c : Option Cipher)
    → Between lib path path' c
    → reporter_encoder lib path ≡ ok (Option.map (λ c. encrypt_body c.encrypt) c)
unfolding reporter_encoder encoder
reporter_encoder_lem lib path path' none (e, e') = rw e refl
reporter_encoder_lem lib path path' (some c) (k, k', e, e', loaded, loaded', same) =
    rw (e, encoder, loaded, same) refl

module _ (z : Gzip) (hmac : String → String → String) where
  -- the routes of a server, behind its middlewares
  abbrev pub router_of : Config → (st : Storage) → Formats → Option Cipher → MetricsRouter st.State
  router_of config st formats c = with_all_handlers st formats (
      Routes.with_middlewares (with_middlewares z hmac config.key (Option.map (λ c. c.decrypt) c))
        new_metrics_router)

  pub create_server_lem :
      (lib : Library) (config : Config) (path : String) (c : Option Cipher) (st : Storage)
      (formats : Formats)
      → Between lib path config.crypto_key c
      → create_server z hmac lib config st formats
        ≡ some (
            with_all_handlers st formats (
              Routes.with_middlewares
                (with_middlewares z hmac config.key (Option.map (λ c. c.decrypt) c))
                new_metrics_router))
  create_server_lem lib config path none st formats (e, e') =
      create_server-plain z hmac lib config st formats e'
  create_server_lem lib config path (some c) st formats (k, k', e, e', loaded, loaded', same) =
      rw same (create_server-decrypt z hmac lib config st formats k' e' loaded')

  abbrev params : Result Request → GoMap String
  params (ok req) = req.url_params
  params (err e) = []

  -- a report names no values of a route
  pub build_request-url_params :
      (key body : String) (c : Option Cipher) (req : Request)
      → build_request z hmac key (Option.map (λ c. encrypt_body c.encrypt) c) body ≡ ok req
      → req.url_params ≡ []
  unfolding build_request encrypt_body
  build_request-url_params key body none req e = ap params (sym e)
  build_request-url_params key body (some c) req e =
      elim (Result-cases (c.encrypt (z.head <> z.rest body))) [
        | inl (text, encrypted) ↦ ap params (sym e) ∙ rw encrypted refl
        | inr (failure, failed) ↦ ap params (sym e) ∙ rw failed refl
      ]
