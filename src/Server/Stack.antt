-- ===== src/Server/Stack.antt =====
-- `createServer`: the middlewares round the router, the first outermost. `Summary` only logs, so it
-- is left out of the stack. `decrypt` is there if a private key is configured.
use go_advanced.Base.{String, ◌≡◌, refl, true, false, Option, none, some, is_empty, if◌then◌else◌}
use go_advanced.Entities.Errors.{Result, ok, err}
use go_advanced.Middleware.Rsa.Keys.{Library, load_private_key, decoder, decoder_lem}
use go_advanced.Server.Config.{Config}
use go_advanced.Storage.{Storage}
use go_advanced.Handlers.Adapters.{Formats}
use go_advanced.Handlers.Routes
use go_advanced.Handlers.Routes.{MetricsRouter, new_metrics_router, with_all_handlers}
use go_advanced.Middleware.{Handler}
use go_advanced.Middleware.Encoding.{Gzip, encoding}
use go_advanced.Middleware.Integrity.{integrity}
use go_advanced.Middleware.Rsa.{decrypt_body_middleware}

module _ (z : Gzip) (hmac : String → String → String) where
  unfoldable pub with_middlewares :
      {S : Type 0} → String → Option (String → Result String) → Handler S → Handler S
  with_middlewares key none next = integrity hmac key (encoding z next)
  with_middlewares key (some decrypt) next =
      decrypt_body_middleware decrypt (integrity hmac key (encoding z next))

  abbrev with_decoder :
      {S : Type 0} → String → Result (Handler S → Handler S) → Option (Handler S → Handler S)
  with_decoder key (err e) = none
  with_decoder key (ok decode) = some (λ next. decode (integrity hmac key (encoding z next)))

  -- the middlewares of `createServer`; none where it returns nil
  unfoldable pub middlewares : {S : Type 0} → Library → Config → Option (Handler S → Handler S)
  middlewares lib config =
      if is_empty config.crypto_key
      then some (λ next. integrity hmac config.key (encoding z next))
      else with_decoder config.key (decoder lib config.crypto_key)

  abbrev handled :
      (st : Storage)
      → Formats
      → Option (Handler st.State → Handler st.State)
      → Option (MetricsRouter st.State)
  handled st formats none = none
  handled st formats (some mws) =
      some (with_all_handlers st formats (Routes.with_middlewares mws new_metrics_router))

  -- `createServer`: the handler of the server, or none where it returns nil
  unfoldable pub create_server :
      Library → Config → (st : Storage) → Formats → Option (MetricsRouter st.State)
  create_server lib config st formats = handled st formats (middlewares lib config)

  -- With a private key that can be loaded, the server decrypts with it, inside of that checks the
  -- signature, and inside of that decompresses.
  pub create_server-decrypt :
      (lib : Library) (config : Config) (st : Storage) (formats : Formats) (k : lib.PrivateKey)
      → is_empty config.crypto_key ≡ false
      → load_private_key lib config.crypto_key ≡ ok k
      → create_server lib config st formats
        ≡ some (
            with_all_handlers st formats (
              Routes.with_middlewares
                (with_middlewares config.key (some (lib.decrypt_pkcs1v15 k)))
                new_metrics_router))
  unfolding create_server middlewares with_middlewares
  create_server-decrypt lib config st formats k some_key loaded =
      rw (some_key, decoder_lem lib config.crypto_key k loaded) refl

  -- Without the path of a key it does not decrypt.
  pub create_server-plain :
      (lib : Library) (config : Config) (st : Storage) (formats : Formats)
      → is_empty config.crypto_key ≡ true
      → create_server lib config st formats
        ≡ some (
            with_all_handlers st formats
              (Routes.with_middlewares (with_middlewares config.key none) new_metrics_router))
  unfolding create_server middlewares with_middlewares
  create_server-plain lib config st formats no_key = rw no_key refl
