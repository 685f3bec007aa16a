-- ===== src/Package/Install/Safe.antt =====
-- What an installation has checked, and what it leaves.
use ph_reactor.Base.{
  ℕ, ◌≡◌, refl, inl, inr, String, true, Option, none, some, List, [], ◌∷◌, is_empty, unwrap_or,
  length, keep, subst, if◌then◌else◌, arith, Bool-cases,
}
use ph_reactor.Base.Eq.{◌==◌, ==_iff, ==_self, string_eq}
use ph_reactor.Base.Result.{ok, err, >>-eq-ok, result-cases}
use ph_reactor.Json.{Value}
use ph_reactor.Action.{Extern}
use ph_reactor.Model.L1.{from_def}
use ph_reactor.Model.Persist.{save}
use ph_reactor.Blob.{BlobRef, BlobStore, missing}
use ph_reactor.Package.{Manifest, PackageExtern, validate_ui, verify_manifest}
use ph_reactor.Package.Trust.{TrustStore, is_trusted}
use ph_reactor.Package.Install.{
  InstalledPackage, InstallError, bundle_incomplete, Site, get_package, remove_package, put_package,
  check_models, check_bundle, check, register_models, record_package, install,
}

get_package-put :
    (p : InstalledPackage) (packages : List InstalledPackage)
    → get_package p.manifest.name (put_package p packages) ≡ some p
unfolding get_package put_package remove_package
get_package-put p [] = ground (arith, ==_self p.manifest.name)
get_package-put p (q ∷ packages) =
    ground (arith, get_package-put p packages, ==_self p.manifest.name)

-- The packages that are listed under a name, in their order.
abbrev pub listed_as : String → List InstalledPackage → List InstalledPackage
listed_as name packages = keep (λ p. p.manifest.name == name) packages

listed_as-put_package :
    (p : InstalledPackage) (packages : List InstalledPackage) (name : String)
    → listed_as name (put_package p packages)
      ≡ (if p.manifest.name == name then p ∷ [] else listed_as name packages)
unfolding put_package remove_package
listed_as-put_package p [] name = ground arith
listed_as-put_package p (q ∷ packages) name = ground (
  arith,
  listed_as-put_package p packages name,
  ==_iff p.manifest.name name,
  ==_iff q.manifest.name name,
  ==_iff q.manifest.name p.manifest.name,
)

file-register_models :
    (x : Extern) (defs : List Value) (s : Site)
    → (register_models x defs s).1.installed_file ≡ s.installed_file
unfolding register_models
file-register_models x [] s = refl
file-register_models x (def_ ∷ rest) s = elim (result-cases (from_def x def_)) [
  | inr (e, bad) ↦ rw (bad, register_models) refl
  | inl (m, parsed) ↦ elim (result-cases (save s.writable s.models_file def_)) [
    | inr (e, failed) ↦ rw (parsed, failed, register_models) refl
    | inl (file, saved) ↦ rw (parsed, saved, register_models) (file-register_models x rest _)
  ]
]

-- The package that an installation gives: it is found under its name, where it is the only one listed,
-- and under every other name the same packages are listed as before.
pub record Listed (m : Manifest) (before after : Option (List InstalledPackage))
    (pkg : InstalledPackage) : Type 0 where
  pub manifest : pkg.manifest ≡ m
  pub found : get_package m.name (unwrap_or [] after) ≡ some pkg
  pub only :
      (name : String)
      → listed_as name (unwrap_or [] after)
        ≡ (if m.name == name then pkg ∷ [] else listed_as name (unwrap_or [] before))

-- What every installed package has passed.
pub record Checked (x : Extern) (w : PackageExtern) (m : Manifest) (trusted : TrustStore)
    (blobs : BlobStore) : Type 0 where
  pub intact : verify_manifest x w m ≡ ok tt
  pub approved : is_trusted trusted m.publisher_key ≡ true
  pub ui : validate_ui x w m.nav ≡ ok tt
  pub bundle : (r : BlobRef) → m.bundle ≡ some r → missing blobs r ≡ []
  pub models : check_models x m.document_models ≡ ok tt

all_here :
    (blobs : BlobStore) (b : BlobRef) → check_bundle blobs (some b) ≡ ok tt → missing blobs b ≡ []
unfolding check_bundle
all_here blobs b h = empty_lem (missing blobs b) h
  where
    empty_lem :
        (hs : List ℕ)
        → (if is_empty hs then ok tt else err (bundle_incomplete (length hs))) ≡ ok tt
        → hs ≡ []
    empty_lem [] e = refl
    empty_lem (k ∷ hs) e = absurd (cc)

none_missing :
    (blobs : BlobStore) (bundle : Option BlobRef)
    → check_bundle blobs bundle ≡ ok tt
    → (r : BlobRef) → bundle ≡ some r
    → missing blobs r ≡ []
none_missing blobs none h r e = absurd (cc)
none_missing blobs (some b) h r e = let same : b ≡ r = cc in rw (← same) (all_here blobs b h)

module _ (x : Extern) (w : PackageExtern) (m : Manifest) (trusted : TrustStore)
    (blobs : BlobStore) where
  check-Checked : check x w m trusted blobs ≡ ok tt → Checked x w m trusted blobs
  unfolding check
  check-Checked h = elim (result-cases (verify_manifest x w m)) [
    | inr (e, bad) ↦ absurd (let h1 = rw (bad, check) at h in cc)
    | inl (u, good) ↦ elim (Bool-cases (is_trusted trusted m.publisher_key)) [
      | inr stranger ↦ absurd (let h1 = rw (good, stranger, check) at h in cc)
      | inl known ↦ elim (result-cases (validate_ui x w m.nav)) [
        | inr (e, bad) ↦ absurd (let h1 = rw (good, known, bad, check) at h in cc)
        | inl (v, fine) ↦
            let rest = rw (good, known, fine, check) at h in
            let (bundled, models) =
              >>-eq-ok (check_bundle blobs m.bundle) (check_models x m.document_models) rest in
            record {
              intact = good;
              approved = known;
              ui = fine;
              bundle = none_missing blobs m.bundle bundled.1;
              models = models;
            }
      ]
    ]
  ]

-- A package is installed only if its signature verifies, its publisher is trusted, its sidebar entries
-- are allowed, its bundle is all here and its models parse; it is then the only package listed under
-- its name, and the packages of other names are listed as before. A package that fails a check leaves
-- the site as it was.
pub install-Checked :
    (x : Extern) (w : PackageExtern) (m : Manifest) (trusted : TrustStore) (blobs : BlobStore)
    (now : String) (s : Site)
    → ((pkg : InstalledPackage)
        → (install x w m trusted blobs now s).0 ≡ ok pkg
        → Checked x w m trusted blobs
          × Listed m s.installed_file (install x w m trusted blobs now s).1.installed_file pkg)
      × ((e : InstallError)
          → check x w m trusted blobs ≡ err e
          → install x w m trusted blobs now s ≡ (err e, s))
unfolding install record_package
install-Checked x w m trusted blobs now s = (installed, λ e h. rw (h, install) refl)
  where
    fresh : InstalledPackage
    fresh = record { manifest = m; installed_at = now }

    listed :
        (s1 : Site) (pkg : InstalledPackage)
        → (record_package s1 fresh).0 ≡ ok pkg
        → Listed m s1.installed_file (record_package s1 fresh).1.installed_file pkg
    listed s1 pkg h = elim (Bool-cases s1.writable) [
      | inr stuck ↦ absurd (let h1 = rw (stuck, record_package) at h in cc)
      | inl free ↦
          let h1 = rw (free, record_package) at h in
          let same : fresh ≡ pkg = cc in
          let before = unwrap_or [] s1.installed_file in
          rw (← same, free, record_package)
            (record {
              manifest = refl;
              found = get_package-put fresh before;
              only = λ name. listed_as-put_package fresh before name;
            })
    ]

    installed :
        (pkg : InstalledPackage)
        → (install x w m trusted blobs now s).0 ≡ ok pkg
        → Checked x w m trusted blobs
          × Listed m s.installed_file (install x w m trusted blobs now s).1.installed_file pkg
    installed pkg h = elim (result-cases (check x w m trusted blobs)) [
      | inr (e, failed) ↦ absurd (let h1 = rw (failed, install) at h in cc)
      | inl (u, passed) ↦ elim (result-cases (register_models x m.document_models s).0) [
        | inr (e, failed) ↦ absurd (let h1 = rw (passed, failed, install) at h in cc)
        | inl (v, done) ↦
            let s1 = (register_models x m.document_models s).1 in
            let h1 = rw (passed, done, install) at h in
            let here = listed s1 pkg h1 in
            let kept : s1.installed_file ≡ s.installed_file =
              file-register_models x m.document_models s in
            let after = (record_package s1 fresh).1.installed_file in
            (
              check-Checked x w m trusted blobs passed,
              rw (passed, done, install) (subst (λ file. Listed m file after pkg) kept here),
            )
      ]
    ]
