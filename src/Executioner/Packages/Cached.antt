-- ===== src/Executioner/Packages/Cached.antt =====
-- execution/executioner.cpp: what holds of the packages in the cache.
use velix.Prelude.{
  Bool-cases, ◌==◌, Str, none, some, Bool, false, find, insert, find-insert, if_known, str_eq,
  ==_iff, is_empty, ◌≡◌, refl, arith, Option-cases, inl, inr, sym,
}
use velix.Executioner.Json.{Json}
use velix.Executioner.Sha256.{finalise, printed, hex, word_bytes}
use velix.Executioner.Manifest.{validate_manifest}
use velix.Executioner.Manifest.Accepted.{IsManifest, validate_manifest-IsManifest}
use velix.Executioner.Adapters.{Machine, Resolution, Outcome, done, refused, thrown}
use velix.Executioner.Adapters.Others.{select_runtime_adapter}
use velix.Executioner.CacheKey.{compute_cache_key}
use velix.Executioner.Packages.{
  Disk, CachedPackage, PackageCache, Resolved, found, not_found, resolve_throws, find_package,
  package_key, keep_package, load_package, resolve_package,
}

-- A package whose manifest was accepted under the name, with its cache key.
pub record IsPackage (name : Str) (pkg : CachedPackage) : Type 0 where
  pub accepted : IsManifest name pkg.manifest
  pub keyed : is_empty pkg.cache_key ≡ false

abbrev pub IsCache : PackageCache → Type 0
IsCache cache = (name : Str) (pkg : CachedPackage) → find name cache ≡ some pkg → IsPackage name pkg

-- The cache stays so, and so is the package that is returned.
pub data Finds (name : Str) : Resolved × PackageCache → Type 0 where
  finds :
      (pkg : CachedPackage) (cache : PackageCache)
      → IsPackage name pkg
      → IsCache cache
      → Finds name (found pkg, cache)
  finds_none : (cache : PackageCache) → IsCache cache → Finds name (not_found, cache)
  throws : (cache : PackageCache) → IsCache cache → Finds name (resolve_throws, cache)

package_key_filled :
    (disk : Disk) (manifest : Json) (runtime : Resolution) (path : Str)
    → is_empty (package_key disk manifest runtime path) ≡ false
unfolding package_key compute_cache_key finalise printed hex word_bytes
package_key_filled disk manifest runtime path = refl

insert-IsCache :
    (name : Str) (pkg : CachedPackage) (cache : PackageCache)
    → IsPackage name pkg
    → IsCache cache
    → IsCache (insert name pkg cache)
insert-IsCache name pkg cache p c j q h =
    let law = find-insert name j pkg cache in
    elim (Bool-cases (name == j)) [
      | inl e ↦
          let jn : j ≡ name = sym ((==_iff name j).0 e) in
          let qp : q ≡ pkg = ground (arith, e, law, h) in rw (jn, qp) p
      | inr e ↦ c j q (ground (arith, e, law, h))
    ]

keep_package-Finds :
    (disk : Disk) (name path : Str) (manifest : Json) (cache : PackageCache)
    (o : Outcome Resolution)
    → IsManifest name manifest
    → IsCache cache
    → Finds name (keep_package disk name path manifest cache o)
unfolding keep_package
keep_package-Finds disk name path manifest cache (done runtime) m c =
    let pkg : CachedPackage = record {
      path = path;
      manifest = manifest;
      cache_key = package_key disk manifest runtime path;
    } in
    let p : IsPackage name pkg = record {
      accepted = m;
      keyed = package_key_filled disk manifest runtime path;
    } in
    finds pkg (insert name pkg cache) p (insert-IsCache name pkg cache p c)
keep_package-Finds disk name path manifest cache (refused e) m c = finds_none cache c
keep_package-Finds disk name path manifest cache thrown m c = throws cache c

load_package-Finds :
    (machine : Machine) (disk : Disk) (name : Str) (cache : PackageCache)
    → IsCache cache
    → Finds name (load_package machine disk name cache)
unfolding load_package
load_package-Finds machine disk name cache c = elim (Option-cases (find_package disk name)) [
  | inl n ↦ rw (n, load_package) (finds_none cache c)
  | inr ((path, none), q) ↦ rw (q, load_package) (finds_none cache c)
  | inr ((path, some manifest), q) ↦ elim (Option-cases (validate_manifest name manifest)) [
    | inl ok ↦
        rw (q, ok, load_package)
          (keep_package-Finds disk name path manifest cache
            (select_runtime_adapter machine manifest path)
            ((validate_manifest-IsManifest name manifest).0 ok) c)
    | inr (e, bad) ↦ rw (q, bad, load_package) (finds_none cache c)
  ]
]

-- The cache keeps its invariant, and a package that is returned has it too: its manifest is one that
-- validate_manifest accepts for the name, and its cache key is there.
pub resolve_package-Finds :
    (machine : Machine) (disk : Disk) (name : Str) (force_refresh : Bool) (cache : PackageCache)
    → IsCache cache
    → Finds name (resolve_package machine disk name force_refresh cache)
unfolding resolve_package
resolve_package-Finds machine disk name force_refresh cache c =
    let P = Finds name in
    if_known P (is_empty name) _ _ (λ e. finds_none cache c)
      (λ e.
        if_known P force_refresh _ _ (λ f. load_package-Finds machine disk name cache c)
          (λ f. elim (Option-cases (find name cache)) [
            | inl n ↦ rw (n) (load_package-Finds machine disk name cache c)
            | inr (pkg, q) ↦ rw (q) (finds pkg cache (c name pkg q) c)
          ]))
