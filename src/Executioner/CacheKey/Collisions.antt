-- ===== src/Executioner/CacheKey/Collisions.antt =====
-- execution/executioner.cpp: which text compute_cache_key hashes, and what it does not tell apart.
use velix.Prelude.{
  append_assoc, ℕ, zero, suc, Str, List, [], ◌∷◌, ◌++◌, ◌≡◌, refl, sym, ap, ◌∙◌, arith, take, drop,
  length, length-drop, take-append-drop, ◌≤◌,
}
use velix.Executioner.Sha256.{Ctx, fresh, update, finalise, sha256}
use velix.Executioner.Sha256.Closing.{update-append}
use velix.Executioner.CacheKey.{
  File, sort, kept, relative, newline, feed_file, feed_files, compute_cache_key,
}

-- The bytes that are hashed for the files.
unfoldable pub fed : List File → Str
unfolding relative
fed [] = []
fed (f ∷ l) = relative f.0 ++ (newline ++ (f.1 ++ (newline ++ fed l)))

feed_file-update : (n : ℕ) (ctx : Ctx) (s : Str) → length s ≤ n → feed_file n ctx s ≡ update ctx s
unfolding feed_file update
feed_file-update zero ctx [] h = refl
feed_file-update zero ctx (x ∷ s) h = absurd (omega (arith, h))
feed_file-update (suc n) ctx [] h = refl
feed_file-update (suc n) ctx (x ∷ s) h =
    feed_file-update n (update ctx (take 65536 (x ∷ s))) (drop 65536 (x ∷ s))
      (omega (arith, h, length-drop 65536 (x ∷ s)))
    ∙ sym (update-append ctx (take 65536 (x ∷ s)) (drop 65536 (x ∷ s)))
    ∙ ap (update ctx) (take-append-drop 65536 (x ∷ s))

feed_files-update : (ctx : Ctx) (l : List File) → feed_files ctx l ≡ update ctx (fed l)
unfolding feed_files fed
feed_files-update ctx [] = refl
feed_files-update ctx (f ∷ l) =
    let named : Ctx = update (update ctx (relative f.0)) newline in
    let read : feed_file (length f.1) named f.1 ≡ update named f.1 =
      feed_file-update (length f.1) named f.1 (omega arith) in
    ap (λ c. feed_files (update c newline) l) read
    ∙ feed_files-update (update (update named f.1) newline) l
    ∙ sym (update-append (update named f.1) newline (fed l))
    ∙ sym (update-append named f.1 (newline ++ fed l))
    ∙ sym (update-append (update ctx (relative f.0)) newline (f.1 ++ (newline ++ fed l)))
    ∙ sym (update-append ctx (relative f.0) (newline ++ (f.1 ++ (newline ++ fed l))))

-- The text whose hash the cache key is.
unfoldable pub key_text : Str → Str → Str → List Str → List File → Str
unfolding fed sort kept
key_text manifest runtime version pkg_path files =
    manifest
    ++ (newline
        ++ (runtime ++ (newline ++ (version ++ (newline ++ fed (sort (kept pkg_path files)))))))

-- The cache key is the hash of the manifest, the runtime, its version and, for each file outside
-- .velix in the order of the paths, the path and the contents, a line feed after each; the reads of
-- 65536 bytes do not show.
pub compute_cache_key-sha256 :
    (manifest runtime version : Str) (pkg_path : List Str) (files : List File)
    → compute_cache_key manifest runtime version pkg_path files
      ≡ sha256 (key_text manifest runtime version pkg_path files)
unfolding compute_cache_key key_text sha256
compute_cache_key-sha256 manifest runtime version pkg_path files =
    let l : List File = sort (kept pkg_path files) in
    let c1 : Ctx = update (update fresh manifest) newline in
    let c2 : Ctx = update (update c1 runtime) newline in
    ap finalise (
      feed_files-update (update (update c2 version) newline) l
      ∙ sym (update-append (update c2 version) newline (fed l))
      ∙ sym (update-append c2 version (newline ++ fed l))
      ∙ sym (update-append (update c1 runtime) newline (version ++ (newline ++ fed l)))
      ∙ sym (update-append c1 runtime (newline ++ (version ++ (newline ++ fed l))))
      ∙ sym (
          update-append (update fresh manifest) newline
            (runtime ++ (newline ++ (version ++ (newline ++ fed l)))))
      ∙ sym (
          update-append fresh manifest
            (newline ++ (runtime ++ (newline ++ (version ++ (newline ++ fed l)))))))

-- A listing that std::sort leaves as it is, and that has no file of .velix.
abbrev pub Settled : List Str → List File → Type 0
Settled pkg_path l = sort (kept pkg_path l) ≡ l

-- One file whose contents go on like a second file.
abbrev pub joined : Str → List Str → Str → Str
joined x b y = x ++ (newline ++ (relative b ++ (newline ++ y)))

fed-joined :
    (before after : List File) (a b : List Str) (x y : Str)
    → fed (before ++ ((a, joined x b y) ∷ after)) ≡ fed (before ++ ((a, x) ∷ ((b, y) ∷ after)))
unfolding fed
fed-joined [] after a b x y =
    let tail : Str = newline ++ fed after in
    ap (λ s. relative a ++ (newline ++ s))
      (append_assoc x (newline ++ (relative b ++ (newline ++ y))) tail
        ∙ ap (λ s. x ++ (newline ++ s)) (append_assoc (relative b) (newline ++ y) tail))
fed-joined (f ∷ before) after a b x y =
    ap (λ s. relative f.0 ++ (newline ++ (f.1 ++ (newline ++ s)))) (fed-joined before after a b x y)

-- Two different packages with one cache key: a file of the one has the contents of a file of the
-- other, a line feed, the path of the next file, a line feed and the contents of that file, which the
-- first package has not. The files come in the order of their paths and none is in .velix.
pub compute_cache_key_collides :
    (manifest runtime version : Str) (pkg_path : List Str) (before after : List File)
    (a b : List Str) (x y : Str)
    → Settled pkg_path (before ++ ((a, joined x b y) ∷ after))
    → Settled pkg_path (before ++ ((a, x) ∷ ((b, y) ∷ after)))
    → compute_cache_key manifest runtime version pkg_path (before ++ ((a, joined x b y) ∷ after))
      ≡ compute_cache_key manifest runtime version pkg_path (before ++ ((a, x) ∷ ((b, y) ∷ after)))
unfolding key_text
compute_cache_key_collides manifest runtime version pkg_path before after a b x y h k =
    let one : List File = before ++ ((a, joined x b y) ∷ after) in
    let two : List File = before ++ ((a, x) ∷ ((b, y) ∷ after)) in
    let head : Str → Str =
      λ s. manifest ++ (newline ++ (runtime ++ (newline ++ (version ++ (newline ++ s))))) in
    compute_cache_key-sha256 manifest runtime version pkg_path one
    ∙ ap (λ l. sha256 (head (fed l))) h
    ∙ ap (λ s. sha256 (head s)) (fed-joined before after a b x y)
    ∙ ap (λ l. sha256 (head (fed l))) (sym k)
    ∙ sym (compute_cache_key-sha256 manifest runtime version pkg_path two)
