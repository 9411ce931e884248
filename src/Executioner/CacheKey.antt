-- ===== src/Executioner/CacheKey.antt =====
-- execution/executioner.cpp: compute_cache_key. A file of the package is the components of its path
-- below the package, and its bytes; the listing of the directory is an argument.
pub mod Collisions
use velix.Prelude.{
  ℕ, zero, suc, Str, List, [], ◌∷◌, ◌++◌, Bool, true, false, ◌||◌, ◌&&◌, ◌==◌, nat_eq, str_eq, ltb,
  if◌then◌else◌, codes, take, drop, length, is_empty, not,
}
use velix.Executioner.Sha256.{Ctx, fresh, update, finalise}

abbrev pub File : Type 0
File = List Str × Str

-- The order of std::string, and that of std::filesystem::path.
unfoldable pub str_less : Str → Str → Bool
str_less s [] = false
str_less [] (b ∷ t) = true
str_less (a ∷ s) (b ∷ t) = let rest = str_less s t in ltb a b || ((a == b) && rest)

unfoldable pub path_less : List Str → List Str → Bool
unfolding str_less
path_less p [] = false
path_less [] (b ∷ q) = true
path_less (a ∷ p) (b ∷ q) = let rest = path_less p q in str_less a b || ((a == b) && rest)

-- std::sort: the paths of a directory are different, so that the order determines the result.
unfoldable pub place : File → List File → List File
unfolding path_less
place f [] = f ∷ []
place f (g ∷ l) = let rest = place f l in if path_less f.0 g.0 then f ∷ (g ∷ l) else g ∷ rest

unfoldable pub sort : List File → List File
unfolding place
sort [] = []
sort (f ∷ l) = place f (sort l)

unfoldable pub in_velix : List Str → Bool
in_velix [] = false
in_velix (c ∷ p) = (c == codes ".velix") || in_velix p

-- The files that are hashed.
unfoldable pub kept : List Str → List File → List File
unfolding in_velix
kept pkg_path [] = []
kept pkg_path (f ∷ l) =
    let rest = kept pkg_path l in if in_velix (pkg_path ++ f.0) then rest else f ∷ rest

-- p.lexically_relative(pkg_path).string()
unfoldable pub relative : List Str → Str
relative [] = []
relative (c ∷ []) = c
relative (c ∷ (d ∷ p)) = c ++ (47 ∷ relative (d ∷ p))

abbrev pub newline : Str
newline = 10 ∷ []

-- The reads of a file, 65536 bytes each; the number of its bytes is fuel enough.
unfoldable pub feed_file : ℕ → Ctx → Str → Ctx
unfolding update
feed_file zero ctx content = ctx
feed_file (suc n) ctx content =
    if is_empty content
    then ctx
    else feed_file n (update ctx (take 65536 content)) (drop 65536 content)

unfoldable pub feed_files : Ctx → List File → Ctx
unfolding feed_file relative
feed_files ctx [] = ctx
feed_files ctx (f ∷ l) =
    let named : Ctx = update (update ctx (relative f.0)) newline in
    feed_files (update (feed_file (length f.1) named f.1) newline) l

unfoldable pub compute_cache_key : Str → Str → Str → List Str → List File → Str
unfolding sort kept feed_files fresh finalise
compute_cache_key manifest runtime version pkg_path files =
    let with_manifest : Ctx = update (update fresh manifest) newline in
    let with_runtime : Ctx = update (update with_manifest runtime) newline in
    let with_version : Ctx = update (update with_runtime version) newline in
    finalise (feed_files with_version (sort (kept pkg_path files)))
