-- ===== src/Geoip/Load.antt =====
-- `GeoipDB::load` of pingoo/geoip.rs. The decompression and the reader of databases are parameters.
use pingoo.Prelude.{
  String, List, [], ◌∷◌, Option, none, some, Result, ok, err, ◌>>=◌, ok_or, if◌then◌else◌,
  str_ends_with, string_eq,
}
use pingoo.Disk.{Disk, Access, content, not_found, failed, read, try_exists}

abbrev pub geoip_database_paths : List String
geoip_database_paths =
    "/etc/pingoo/geoip.mmdb" ∷ "/etc/pingoo/geoip.mmdb.zst" ∷ "/usr/share/pingoo/geoip.mmdb"
    ∷ "/usr/share/pingoo/geoip.mmdb.zst" ∷ []

pub data LoadError : Type 0 where
  reading_failed : String → LoadError
  decompressing_failed : String → LoadError
  invalid_mmdb_file : LoadError

-- `zstd` and `maxminddb`
pub record Database (Reader : Type 0) : Type 0 where
  pub decode_all : String → Option String
  pub from_source : String → Option Reader

abbrev pub content_of : String → Access → Result (Option (String × String)) LoadError
content_of path (content text) = ok (some (path, text))
content_of path not_found = err (reading_failed path)
content_of path failed = err (reading_failed path)

-- the first of the paths that exists, with its content
unfoldable pub read_geoip_db : Disk → List String → Result (Option (String × String)) LoadError
read_geoip_db disk [] = ok none
read_geoip_db disk (path ∷ paths) =
    let rest = read_geoip_db disk paths in
    ok_or (try_exists disk path) (reading_failed path) >>= λ exists.
    if exists then content_of path (read disk path) else rest

module _ {Reader : Type 0} (database : Database Reader) where
  open database use {decode_all, from_source}

  abbrev pub decompressed : String → String → Result String LoadError
  decompressed path mmdb_content =
      if str_ends_with path ".zst"
      then ok_or (decode_all mmdb_content) (decompressing_failed path)
      else ok mmdb_content

  abbrev pub open_database : Option (String × String) → Result (Option Reader) LoadError
  open_database none = ok none
  open_database (some (path, text)) = do
    mmdb_content ← decompressed path text
    mmdb_reader ← ok_or (from_source mmdb_content) invalid_mmdb_file
    ok (some mmdb_reader)

  -- the reader; the cache starts empty
  unfoldable pub load : Disk → Result (Option Reader) LoadError
  load disk = read_geoip_db disk geoip_database_paths >>= open_database
