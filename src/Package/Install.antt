-- ===== src/Package/Install.antt =====
-- src/package/install.rs: the checks before an installation, and what it leaves behind.
pub mod Safe
use ph_reactor.Base.{
  ℕ, String, Bool, true, false, Option, none, some, List, [], ◌∷◌, ◌++◌, not, any, keep, find_map,
  filter_map, is_empty, length, unwrap_or, eqb, if◌then◌else◌,
}
use ph_reactor.Base.Eq.{◌==◌, string_eq}
use ph_reactor.Base.Result.{Result, ok, err, ◌>>=◌, ◌>>◌}
use ph_reactor.Json.{Value}
use ph_reactor.Action.{Extern}
use ph_reactor.Model.L1.{from_def, as_model}
use ph_reactor.Model.Persist.{save}
use ph_reactor.Store.State.{Inner}
use ph_reactor.Store.Feed.{add_model}
use ph_reactor.Blob.{BlobRef, BlobStore, missing}
use ph_reactor.Package.{Manifest, PackageExtern, PackageError, validate_ui, verify_manifest}
use ph_reactor.Package.Trust.{TrustStore, is_trusted}

pub record InstalledPackage : Type 0 where
  pub manifest : Manifest
  pub installed_at : String

pub data InstallError : Type 0 where
  integrity invalid_ui : PackageError → InstallError
  untrusted_publisher : String → String → InstallError
  bundle_incomplete : ℕ → InstallError
  invalid_model : String → InstallError
  io_failed : InstallError

-- `Installed::get`, `put`, `remove` and `live_blobs`.
unfoldable pub get_package : String → List InstalledPackage → Option InstalledPackage
get_package name packages =
    find_map (λ p. if p.manifest.name == name then some p else none) packages

unfoldable pub remove_package : String → List InstalledPackage → List InstalledPackage
remove_package name packages = keep (λ p. not (p.manifest.name == name)) packages

unfoldable pub put_package : InstalledPackage → List InstalledPackage → List InstalledPackage
unfolding remove_package
put_package p packages = remove_package p.manifest.name packages ++ p ∷ []

pub live_blobs : List InstalledPackage → List BlobRef
live_blobs packages = filter_map (λ p. p.manifest.bundle) packages

-- The store, and the two files as what they parse to.
pub record Site : Type 0 where
  pub store : Inner
  pub installed_file : Option (List InstalledPackage)
  pub models_file : Option (List Value)
  pub writable : Bool

-- Every definition of a model can be read.
unfoldable pub check_models : Extern → List Value → Result InstallError (Unit {0})
check_models x [] = ok tt
check_models x (def_ ∷ rest) =
    let later = check_models x rest in
    elim (from_def x def_) [ ok _ ↦ later | err e ↦ err (invalid_model e) ]

unfoldable pub check_bundle : BlobStore → Option BlobRef → Result InstallError (Unit {0})
unfolding missing
check_bundle blobs none = ok tt
check_bundle blobs (some bundle) =
    let absent_ = missing blobs bundle in
    if is_empty absent_ then ok tt else err (bundle_incomplete (length absent_))

unfoldable pub check :
    Extern → PackageExtern → Manifest → TrustStore → BlobStore → Result InstallError (Unit {0})
unfolding verify_manifest is_trusted validate_ui check_bundle check_models
check x w m trusted blobs = elim (verify_manifest x w m) [
  | err e ↦ err (integrity e)
  | ok _ ↦
      if not (is_trusted trusted m.publisher_key)
      then err (untrusted_publisher m.publisher_key m.publisher_name)
      else elim (validate_ui x w m.nav) [
        | err e ↦ err (invalid_ui e)
        | ok _ ↦ check_bundle blobs m.bundle >> check_models x m.document_models
      ]
]

-- Models are registered and saved one by one; what was done before a failure stays.
unfoldable pub register_models : Extern → List Value → Site → Result InstallError (Unit {0}) × Site
unfolding add_model save from_def as_model
register_models x [] s = (ok tt, s)
register_models x (def_ ∷ rest) s = elim (from_def x def_) [
  | err e ↦ (err (invalid_model e), s)
  | ok m ↦
      let s1 = record s { store = add_model s.store (as_model m) } in
      elim (save s.writable s.models_file def_) [
        | err e ↦ (err io_failed, s1)
        | ok file ↦ register_models x rest (record s1 { models_file = some file })
      ]
]

unfoldable pub record_package :
    Site → InstalledPackage → Result InstallError InstalledPackage × Site
unfolding put_package
record_package s pkg =
    let packages = put_package pkg (unwrap_or [] s.installed_file) in
    if s.writable then (ok pkg, record s { installed_file = some packages }) else (err io_failed, s)

-- `now` is the time in RFC 3339.
unfoldable pub install :
    Extern
    → PackageExtern
    → Manifest
    → TrustStore
    → BlobStore
    → String
    → Site
    → Result InstallError InstalledPackage × Site
unfolding check register_models record_package
install x w m trusted blobs now s = elim (check x w m trusted blobs) [
  | err e ↦ (err e, s)
  | ok _ ↦
      let (registered, s1) = register_models x m.document_models s in
      elim registered [
        | err e ↦ (err e, s1)
        | ok _ ↦ record_package s1 (record { manifest = m; installed_at = now })
      ]
]
