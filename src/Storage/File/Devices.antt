-- ===== src/Storage/File/Devices.antt =====
-- The files of a disk (`os.Open`, `os.Create`), and `encoding/json` on the two maps. The codec is
-- not of the repository: it is a parameter of what uses it.
use go_advanced.Base.{String, Bool, Option, ◌≡◌, if◌then◌else◌}
use go_advanced.Entities.Errors.{Error, Result, ok}
use go_advanced.GoMap.{GoMap, lookup, insert}
use go_advanced.Storage.Spec.{Tables, IsTables, empty_tables, view_of}

-- The texts of the files that can be read, and which paths can be created.
pub record Disk : Type 0 where
  pub files : GoMap String
  pub can_create : String → Bool

unfoldable pub read_file : String → Disk → Option String
read_file path d = lookup path d.files

-- `os.Create` and a write; a path that cannot be created is left alone
unfoldable pub write_file : String → String → Disk → Disk
write_file path text d =
    if d.can_create path then record d { files = insert path text d.files } else d

pub record Codec : Type 0 where
  -- fails on what JSON has no number for
  pub encode : Tables → Result String
  -- fills the maps that it is given, and may fail
  pub decode : String → Tables → Tables × Option Error

-- Decoding into empty maps what was encoded gives back what the maps showed.
pub record IsCodec (json : Codec) : Type 0 where
  pub decode-encode :
      (t : Tables) (text : String)
      → json.encode t ≡ ok text
      → IsTables (json.decode text empty_tables).0
        × (view_of (json.decode text empty_tables).0 ≡ view_of t)
