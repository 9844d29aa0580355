-- ===== src/Middleware/Rsa/Keys.antt =====
-- internal/middleware/rsa/util.go, and `Encoder` and `Decoder`: keys are loaded from PEM files. The
-- file system, `encoding/pem`, `crypto/x509` and `crypto/rsa` come in as `Library`.
use go_advanced.Base.{String, ◌≡◌, refl, Option, none, some, ◌<>◌, str_eq, if◌then◌else◌}
use go_advanced.Entities.Errors.{library, Result, ok, err}
use go_advanced.Http.{Request}
use go_advanced.Middleware.{Handler}
use go_advanced.Middleware.Rsa.{decrypt_body_middleware, encrypt_body}

-- `pem.Block`
pub record Block : Type 0 where
  pub type : String
  pub bytes : String

-- what `crypto/x509` returns as `any`
pub data AnyKey (K : Type 0) : Type 0 where
  rsa_key : K → AnyKey K
  other_key : AnyKey K

pub record Library : Type 1 where
  pub PublicKey : Type 0
  pub PrivateKey : Type 0
  pub read_file : String → Result String
  pub pem_decode : String → Option Block
  pub parse_pkix_public_key : String → Result (AnyKey PublicKey)
  pub parse_pkcs8_private_key : String → Result (AnyKey PrivateKey)
  pub parse_pkcs1_private_key : String → Result PrivateKey
  pub encrypt_pkcs1v15 : PublicKey → String → Result String
  pub decrypt_pkcs1v15 : PrivateKey → String → Result String

-- `pub, ok := keyIface.(*rsa.PublicKey)`, and the same for a private key
abbrev rsa_only : {K : Type 0} → String → Result (AnyKey K) → Result K
rsa_only message (err e) = err e
rsa_only message (ok other_key) = err (library message)
rsa_only message (ok (rsa_key k)) = ok k

module _ (lib : Library) where
  open lib use {PublicKey, PrivateKey}

  abbrev public_key_of : Option Block → Result PublicKey
  public_key_of none = err (library "invalid public key")
  public_key_of (some block) =
      if str_eq block.type "PUBLIC KEY"
      then rsa_only "not an RSA public key" (lib.parse_pkix_public_key block.bytes)
      else err (library "invalid public key")

  -- `loadPublicKey`
  unfoldable pub load_public_key : String → Result PublicKey
  load_public_key path = elim (lib.read_file path) [
    | err e ↦ err e
    | ok data_ ↦ public_key_of (lib.pem_decode data_)
  ]

  abbrev private_key_of : Option Block → Result PrivateKey
  private_key_of none = err (library "invalid private key")
  private_key_of (some block) =
      if str_eq block.type "PRIVATE KEY"
      then rsa_only "not an RSA private key" (lib.parse_pkcs8_private_key block.bytes)
      else if str_eq block.type "RSA PRIVATE KEY"
      then lib.parse_pkcs1_private_key block.bytes
      else err (library ("unsupported key type: " <> block.type))

  -- `loadPrivateKey`
  unfoldable pub load_private_key : String → Result PrivateKey
  load_private_key path = elim (lib.read_file path) [
    | err e ↦ err e
    | ok data_ ↦ private_key_of (lib.pem_decode data_)
  ]

  -- `Encoder`
  unfoldable pub encoder : String → Result (Request → Result Request)
  unfolding load_public_key
  encoder path = elim (load_public_key path) [
    | err e ↦ err e
    | ok key ↦ ok (encrypt_body (lib.encrypt_pkcs1v15 key))
  ]

  -- `Decoder`
  unfoldable pub decoder : {S : Type 0} → String → Result (Handler S → Handler S)
  unfolding load_private_key
  decoder path = elim (load_private_key path) [
    | err e ↦ err e
    | ok key ↦ ok (decrypt_body_middleware (lib.decrypt_pkcs1v15 key))
  ]

  -- A key that can be loaded gives a decoder with that key.
  pub decoder_lem :
      {S : Type 0} (path : String) (k : PrivateKey)
      → load_private_key path ≡ ok k
      → decoder {S = S} path ≡ ok (decrypt_body_middleware (lib.decrypt_pkcs1v15 k))
  unfolding decoder
  decoder_lem path k loaded = rw (decoder, loaded) refl
