-- ===== src/Tests/Fixtures.antt =====
-- Small stand-ins for what the program takes from outside: a JSON codec for the maps, gzip, the HMAC,
-- a cipher, and the formats of the handlers.
use Prim.Native.Char.{Char}
use Prim.Native.String as Text
use text.Mathlib.TextLemmas.{nil-append, cons-append}
use go_advanced.Models
use go_advanced.Base.{
  Option, List, str_eq, str_eq_iff, inl, inr, Bool-cases, if◌then◌else◌, ℕ, arith, zero, suc,
  String, ◌≡◌, refl, ◌∙◌, ap, true, none, some, [], ◌∷◌, ◌<>◌,
}
use go_advanced.Base.Int.{pos}
use go_advanced.Entities.{Gauge, Counter, counter, Metric}
use go_advanced.Entities.Errors.{library, Result, ok, err}
use go_advanced.GoMap.{GoMap, lookup, insert}
use go_advanced.Storage.Spec.{Tables, view_of}
use go_advanced.Storage.File.Devices.{Disk, Codec, IsCodec}
use go_advanced.Storage.File
use go_advanced.Storage.File.{FileStorage}
use go_advanced.Storage.File.Lawful.{IsReady}
use go_advanced.Middleware.Encoding.{Gzip, IsGzip}
use go_advanced.Agent.Reporter.Delivery.{Cipher, IsCipher}
use go_advanced.Handlers.Adapters.{Formats}

-- It can write one counter that stands at zero, as its name.
abbrev encode_one : GoMap Gauge → GoMap Counter → Result String
encode_one [] ((k, zero) ∷ []) = ok k
encode_one _ _ = err (library "unsupported value")

abbrev pub codec : Codec
codec = record {
  encode = λ t. encode_one t.gauge_map t.counter_map;
  decode = λ text t.
      (record { gauge_map = t.gauge_map; counter_map = insert text 0 t.counter_map }, none);
}

read_one :
    (gauges : GoMap Gauge) (counters : GoMap Counter) (text : String)
    → encode_one gauges counters ≡ ok text
    → ◌≡◌ {A = Tables}
        (record { gauge_map = []; counter_map = (text, 0) ∷ [] })
        (record { gauge_map = gauges; counter_map = counters })
read_one [] [] text e = cc
read_one [] ((k, zero) ∷ []) text e = cc
read_one [] ((k, zero) ∷ x ∷ m) text e = cc
read_one [] ((k, suc n) ∷ m) text e = cc
read_one (x ∷ m) counters text e = cc

pub codec-IsCodec : IsCodec codec
unfolding insert lookup
codec-IsCodec = record {
  decode-encode = λ t text e. (
    record { gauge_keys = tt; counter_keys = (refl, tt) },
    ap view_of (read_one t.gauge_map t.counter_map text e),
  );
}

ok_inj : (s t : String) → ok s ≡ ok t → s ≡ t
ok_inj s t e = cc

-- the text without its first character
abbrev pub behind_first : String → Result String
behind_first Text.[] = err (library "empty")
behind_first (Text.◌∷◌ c s) = ok s

pub behind_first-of : (s : String) → behind_first ("!" <> s) ≡ ok s
behind_first-of s =
    let c : Char = "!" in ap behind_first (cons-append c Text.[] s ∙ ap (Text.◌∷◌ c) (nil-append s))

abbrev read_gzip : Result String → Result (Result String)
read_gzip (ok text) = ok (behind_first text)
read_gzip (err e) = err e

abbrev pub gzip : Gzip
gzip = record { head = "!"; rest = λ text. text; new_reader = read_gzip }

pub gzip-IsGzip : IsGzip gzip
gzip-IsGzip = record { reads_back = λ text. ap ok (behind_first-of text) }

abbrev pub cipher : Cipher
cipher = record { encrypt = λ plain. ok ("!" <> plain); decrypt = behind_first }

pub cipher-IsCipher : IsCipher cipher
cipher-IsCipher = record {
  decrypts = λ plain text e. rw (← ok_inj ("!" <> plain) text e) (behind_first-of plain);
}

abbrev pub hmac : String → String → String
hmac key text = key <> text

-- the JSON of a list: these can write one counter at 1, as its name
abbrev one_counter : String → Models.Metric
one_counter k = record { id = k; m_type = "counter"; delta = some 1; value = none }

abbrev marshal_one : String → String → Option ℕ → Option ℕ → Result String
marshal_one k t (some (suc zero)) none =
    if str_eq t "counter" then ok k else err (library "unsupported value")
marshal_one k t _ _ = err (library "unsupported value")

unfoldable pub marshal : List Models.Metric → Result String
marshal (m ∷ []) = marshal_one m.id m.m_type m.delta m.value
marshal _ = err (library "unsupported value")

abbrev read_list : Result String → Result (List Models.Metric)
read_list (ok text) = ok (one_counter text ∷ [])
read_list (err e) = err e

-- the only JSON bodies that these formats know
abbrev pub formats : Formats
formats = record {
  decode_metric =
      λ body. ok (record { id = "a"; m_type = "counter"; delta = some 3; value = none });
  decode_metrics = read_list;
  encode_metric = λ m. ok m.id;
  encode_metrics = λ ms. ok "[]";
  parse_float = λ s. ok 1;
  print_gauge = λ g. "1";
}

-- a disk on which every file can be created
abbrev pub disk : Disk
disk = record { files = []; can_create = λ path. true }

-- a counter at zero is sent
abbrev pub zero_counter : Metric
zero_counter = record { type = counter; name = "a"; value = 0; delta = 0 }

-- stores every five minutes
abbrev pub later : FileStorage
later = File.new (pos 300) "metrics.json" true disk

-- stores on every change
abbrev pub on_change : FileStorage
on_change = File.new (pos 0) "metrics.json" true disk

pub later-IsReady : IsReady later
unfolding File.new
later-IsReady = record {
  free = refl;
  later = refl;
  tables = record { gauge_keys = tt; counter_keys = tt };
}

marshal_one-read :
    (k t : String) (d v : Option ℕ) (text : String)
    → marshal_one k t d v ≡ ok text
    → read_list (ok text) ≡ ok (record { id = k; m_type = t; delta = d; value = v } ∷ [])
marshal_one-read k t (some (suc zero)) none text e = elim (Bool-cases (str_eq t "counter")) [
  | inl q ↦
      let named : k ≡ text = ok_inj k text (rw q at e) in
      rw (named, (str_eq_iff t "counter").0 q) refl
  | inr q ↦ absurd (ground (arith, q, e))
]
marshal_one-read k t (some (suc zero)) (some w) text e = absurd (ground arith)
marshal_one-read k t (some (suc (suc n))) v text e = absurd (ground arith)
marshal_one-read k t (some zero) v text e = absurd (ground arith)
marshal_one-read k t none v text e = absurd (ground arith)

pub marshal-read :
    (ms : List Models.Metric) (text : String)
    → marshal ms ≡ ok text
    → formats.decode_metrics (ok text) ≡ ok ms
unfolding marshal
marshal-read [] text e = absurd (ground arith)
marshal-read (m ∷ []) text e = marshal_one-read m.id m.m_type m.delta m.value text e
marshal-read (m ∷ n ∷ ms) text e = absurd (ground arith)
