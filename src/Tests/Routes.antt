-- ===== src/Tests/Routes.antt =====
-- Requests that go through the routes.
use go_advanced.Base.{◌∙◌, none, String, ◌≡◌, refl, ap, inl, inr, some, List, [], ◌∷◌}
use go_advanced.Base.Exec.{Outcome, Call, returned, blocked}
use go_advanced.Entities.Errors.{Result, ok}
use go_advanced.GoMap.{GoMap}
use go_advanced.Http.{Request, Action, respond, blank, status, not_found}
use go_advanced.Storage.Spec.{update_all_spec, next}
use go_advanced.Storage.Mem.{MemStorage, new}
use go_advanced.Storage.Mem.Lawful.{
  mem_storage, mem_view, IsReady, mem_storage-IsLawful, new-IsReady,
}
use go_advanced.Middleware.{Handler}
use go_advanced.Middleware.Rsa.{encrypt_body}
use go_advanced.Middleware.Rsa.Keys.{Library, rsa_key, load_public_key, load_private_key, encoder}
use go_advanced.Handlers.Adapters.Reports.{metrics_of}
use go_advanced.Handlers.Routes
use go_advanced.Handlers.Routes.{
  Route, MetricsRouter, Chi, IsChi, get, post, candidates, new_metrics_router, with_all_handlers,
}
use go_advanced.Handlers.Routes.Dispatch.{get_as_text, IsServed, with_all_handlers_lem}
use go_advanced.Server.Config.{Config, new_config}
use go_advanced.Server.Stack.{create_server}
use go_advanced.Agent.HttpRetry.Posts.{HttpResponse, Client}
use go_advanced.Agent.Reporter.{report}
use go_advanced.Agent.Reporter.Headers.{transported}
use go_advanced.Agent.Reporter.Keys.{reporter_encoder, Between, router_of}
use go_advanced.Agent.Reporter.Arrival.{IsWritten}
use go_advanced.Agent.Reporter.Served.{Reaches, report_served}
use go_advanced.Tests.Reports.{counter_request, counter_built, counter_marshalled}
use go_advanced.Tests.Fixtures.{
  formats, marshal, marshal-read, gzip, gzip-IsGzip, cipher, cipher-IsCipher, hmac,
}

-- takes the first route that fits
abbrev first_of_all :
    {S : Type 0} → MetricsRouter S → Request → List (Route S × GoMap String) → Call S (List Action)
first_of_all router req [] = returned not_found
first_of_all router req ((r, params) ∷ l) =
    router.middlewares r.handler (record req { url_params = params })

abbrev first_match : {S : Type 0} → Chi S
first_match router m path req = first_of_all router req (candidates router.routes m path)

first_match-IsChi : {S : Type 0} → IsChi {S = S} first_match
unfolding respond
first_match-IsChi = record {
  routed = λ router m path r params req only filled. ap (first_of_all router req) only;
  unrouted = λ router m path req s none_fits.
      (not_found, ap (λ l. first_of_all router req l s) none_fits, inl refl);
}

abbrev plain : Handler MemStorage → Handler MemStorage
plain h = h

with_all_handlers_lem_example :
    IsServed mem_storage formats plain
      (first_match
        (with_all_handlers mem_storage formats (Routes.with_middlewares plain new_metrics_router))
        get
        ("value" ∷ "counter" ∷ "PollCount" ∷ []))
      (some (get_as_text "counter" "PollCount"))
with_all_handlers_lem_example =
    with_all_handlers_lem mem_storage formats plain first_match get
      ("value" ∷ "counter" ∷ "PollCount" ∷ []) first_match-IsChi (refl, (refl, tt))

-- files that hold what their names say
abbrev keys : Library
keys = record {
  PublicKey = Unit;
  PrivateKey = Unit;
  read_file = λ path. ok path;
  pem_decode = λ text. some (record { type = text; bytes = text });
  parse_pkix_public_key = λ bytes. ok (rsa_key tt);
  parse_pkcs8_private_key = λ bytes. ok (rsa_key tt);
  parse_pkcs1_private_key = λ bytes. ok tt;
  encrypt_pkcs1v15 = λ k. cipher.encrypt;
  decrypt_pkcs1v15 = λ k. cipher.decrypt;
}

abbrev config : Config
config = record new_config { key = "key"; crypto_key = "PRIVATE KEY" }

between : Between keys "PUBLIC KEY" config.crypto_key (some cipher)
unfolding load_public_key load_private_key
between = (tt, tt, refl, refl, refl, refl, refl)

loaded : reporter_encoder keys "PUBLIC KEY" ≡ ok (some (encrypt_body cipher.encrypt))
unfolding reporter_encoder encoder load_public_key
loaded = refl

-- the server, and a client that is in the same place
abbrev server : MetricsRouter MemStorage
server = router_of gzip hmac config mem_storage formats (some cipher)

abbrev received : Outcome MemStorage (List Action) → Outcome MemStorage (Result HttpResponse)
received (returned answer s) =
    returned
      (ok
        (record { status_code = status (respond answer blank); status = "200 OK"; drained = none }))
      s
received (blocked s) = blocked s

abbrev client : Client MemStorage
client = record {
  parse_url = λ url. none;
  transport =
      λ url req s. received (first_match server post ("updates" ∷ "" ∷ []) (transported req) s);
}

client-Reaches : Reaches gzip hmac client "localhost" first_match server
client-Reaches = record {
  parsed = refl;
  arrives = λ req s s' answer run fine.
      ap received run
      ∙ ap
          (λ code.
            returned (ok (record { status_code = code; status = "200 OK"; drained = none })) s')
          fine;
}

written :
    IsWritten mem_storage formats IsReady mem_view mem_storage-IsLawful gzip hmac marshal
      (mem_view new)
      []
      (("PollCount", 1) ∷ [])
unfolding update_all_spec go_advanced.Handlers.Adapters.convert_entity_metrics
written = ("[]", refl)

report_served_example :
    (create_server gzip hmac keys config mem_storage formats ≡ some server)
    × (s' : MemStorage) × (report gzip hmac client marshal "localhost" "key"
          (some (encrypt_body cipher.encrypt))
          []
          (("PollCount", 1) ∷ [])
          new
        ≡ returned none s')
    × IsReady s'
    × (mem_view s'
        ≡ next
            (mem_view new)
            (update_all_spec 0 (metrics_of [] (("PollCount", 1) ∷ [])) (mem_view new)))
report_served_example =
    report_served gzip hmac mem_storage formats IsReady mem_view mem_storage-IsLawful marshal keys
      config first_match client new [] (("PollCount", 1) ∷ []) "localhost" "key" "PUBLIC KEY"
      "PollCount" (some cipher) (some (encrypt_body cipher.encrypt)) counter_request
      first_match-IsChi client-Reaches new-IsReady gzip-IsGzip marshal-read written between
      cipher-IsCipher (inr (inr refl)) tt (refl, tt) counter_marshalled loaded counter_built
