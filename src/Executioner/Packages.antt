-- ===== src/Executioner/Packages.antt =====
-- execution/executioner.cpp: PackageCache and resolve_package. What lies on the disk is a record of
-- functions: the manifest of a directory, none where there is no file and no value where it does not
-- parse; the files of a directory; and, for the library that prints JSON, the text of a value.
pub mod Cached
use velix.Prelude.{
  Str, Option, none, some, Bool, true, false, if◌then◌else◌, codes, List, ◌++◌, Map, find, insert,
  str_eq, is_empty,
}
use velix.Executioner.Json.{Json}
use velix.Executioner.Manifest.{ManifestError, validate_manifest}
use velix.Executioner.Adapters.{Machine, Resolution, Outcome, done, refused, thrown}
use velix.Executioner.Adapters.Others.{select_runtime_adapter}
use velix.Executioner.CacheKey.{File, compute_cache_key}

pub record Disk : Type 0 where
  pub manifest_in : Str → Option (Option Json)
  pub files_in : Str → List File
  pub components : Str → List Str
  pub dump : Json → Str

pub record CachedPackage : Type 0 where
  pub path : Str
  pub manifest : Json
  pub cache_key : Str

abbrev pub PackageCache : Type 0
PackageCache = Map Str CachedPackage

-- The package that is found; not_found stands for the return of false.
pub data Resolved : Type 0 where
  found : CachedPackage → Resolved
  not_found resolve_throws : Resolved

-- The first of the two directories that has a manifest.
unfoldable pub find_package : Disk → Str → Option (Str × Option Json)
find_package disk name = elim (disk.manifest_in (codes "tools/" ++ name)) [
  | some m ↦ some (codes "tools/" ++ name, m)
  | none ↦ elim (disk.manifest_in (codes "agents/" ++ name)) [
    | some m ↦ some (codes "agents/" ++ name, m)
    | none ↦ none
  ]
]

unfoldable pub package_key : Disk → Json → Resolution → Str → Str
unfolding compute_cache_key
package_key disk manifest runtime path =
    compute_cache_key (disk.dump manifest) runtime.runtime runtime.version (disk.components path)
      (disk.files_in path)

-- The package, once its runtime adapter is selected.
unfoldable pub keep_package :
    Disk → Str → Str → Json → PackageCache → Outcome Resolution → Resolved × PackageCache
unfolding package_key insert
keep_package disk name path manifest cache (done runtime) =
    let pkg : CachedPackage = record {
      path = path;
      manifest = manifest;
      cache_key = package_key disk manifest runtime path;
    } in
    (found pkg, insert name pkg cache)
keep_package disk name path manifest cache (refused e) = (not_found, cache)
keep_package disk name path manifest cache thrown = (resolve_throws, cache)

unfoldable pub load_package : Machine → Disk → Str → PackageCache → Resolved × PackageCache
unfolding find_package validate_manifest select_runtime_adapter keep_package
load_package machine disk name cache = elim (find_package disk name) [
  | none ↦ (not_found, cache)
  | some (path, none) ↦ (not_found, cache)
  | some (path, some manifest) ↦ elim (validate_manifest name manifest) [
    | some e ↦ (not_found, cache)
    | none ↦
        keep_package disk name path manifest cache (select_runtime_adapter machine manifest path)
  ]
]

unfoldable pub resolve_package :
    Machine → Disk → Str → Bool → PackageCache → Resolved × PackageCache
unfolding load_package find
resolve_package machine disk name force_refresh cache =
    if is_empty name
    then (not_found, cache)
    else if force_refresh
    then load_package machine disk name cache
    else elim (find name cache) [
      | some pkg ↦ (found pkg, cache)
      | none ↦ load_package machine disk name cache
    ]
