-- ===== src/Services/FoundFile.antt =====
-- Where `find_file` of pingoo/services/http_static_site_service.rs finds a file.
use pingoo.Prelude.{String, Option, none, some, ◌≡◌, refl, string_eq, path_push}
use pingoo.Http.{new_internal_error_response_500, new_not_found_error}
use pingoo.Services.StaticSite.{
  Metadata, not_found, failed, directory, regular, FileSystem, Found, early, found, extension,
  with_html, try_metadata, find_file,
}

module _ (fs : FileSystem) where
  -- A file found is there with the size and time given.
  abbrev pub GoodFound : Found → Type 0
  GoodFound (early r) = Unit
  GoodFound (found path size modified) = fs.metadata path ≡ regular size modified

  tried-GoodFound :
      (path : String) (md : Metadata)
      → fs.metadata path ≡ md
      → GoodFound (elim md [
        | directory ↦ early new_not_found_error
        | regular size modified ↦ found path size modified
        | not_found ↦ early new_not_found_error
        | failed ↦ early new_internal_error_response_500
      ])
  tried-GoodFound path directory e = tt
  tried-GoodFound path (regular size modified) e = e
  tried-GoodFound path not_found e = tt
  tried-GoodFound path failed e = tt

  try_metadata-GoodFound : (path : String) → GoodFound (try_metadata fs path)
  unfolding try_metadata
  try_metadata-GoodFound path = tried-GoodFound path (fs.metadata path) refl

  missing-GoodFound :
      (path : String) (e : Option String)
      → GoodFound
          (elim e [ some x ↦ early new_not_found_error | none ↦ try_metadata fs (with_html path) ])
  missing-GoodFound path none = try_metadata-GoodFound (with_html path)
  missing-GoodFound path (some x) = tt

  looked-GoodFound :
      (path : String) (md : Metadata)
      → fs.metadata path ≡ md
      → GoodFound (elim md [
        | directory ↦ try_metadata fs (path_push path "index.html")
        | regular size modified ↦ found path size modified
        | not_found ↦ elim (extension path) [
          | some e ↦ early new_not_found_error
          | none ↦ try_metadata fs (with_html path)
        ]
        | failed ↦ early new_internal_error_response_500
      ])
  looked-GoodFound path directory e = try_metadata-GoodFound (path_push path "index.html")
  looked-GoodFound path (regular size modified) e = e
  looked-GoodFound path not_found e = missing-GoodFound path (extension path)
  looked-GoodFound path failed e = tt

  pub find_file-GoodFound : (path : String) → GoodFound (find_file fs path)
  unfolding find_file
  find_file-GoodFound path = looked-GoodFound path (fs.metadata path) refl
