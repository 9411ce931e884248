-- ===== src/Executioner/Config/Cover.antt =====
-- execution/executioner.cpp: the order between the two waits that load_config keeps, and when not.
use velix.Prelude.{
  ℤ, pos, Str, Option, none, some, true, false, codes, List, ◌∷◌, ltb_ℤ, ◌≡◌, arith, ◌∙◌,
}
use velix.Executioner.Json.{Json, value_int, value_text}
use velix.Executioner.Config.{
  ExecutionerConfig, default_config, with_limits, with_times, clamped, read_times, read_config,
  load_config,
}

abbrev IsCovered : ExecutionerConfig → Type 0
IsCovered c = ltb_ℤ c.prepare_timeout_ms c.cache_lock_wait_ms ≡ true

clamped-IsCovered : (c : ExecutionerConfig) → IsCovered (clamped c)
unfolding clamped
clamped-IsCovered c = ground arith

-- The first three values have their type.
record HasLimits (doc : Json) (socket threads queue : ℤ) : Type 0 where
  reads_socket : value_int (codes "socket_timeout_ms") doc (pos 5000) ≡ some socket
  reads_threads : value_int (codes "max_client_threads") doc (pos 128) ≡ some threads
  reads_queue : value_int (codes "max_queue_size") doc (pos 1024) ≡ some queue

-- And so have the next two.
record HasWaits (doc : Json) (prepare lock : ℤ) : Type 0 where
  reads_prepare : value_int (codes "prepare_timeout_ms") doc (pos 300000) ≡ some prepare
  reads_lock : value_int (codes "cache_lock_wait_ms") doc (pos 310000) ≡ some lock

read_config-read_times :
    (doc : Json) (socket threads queue : ℤ)
    → HasLimits doc socket threads queue
    → read_config doc default_config
      ≡ read_times doc (with_limits socket threads queue default_config)
unfolding read_config
read_config-read_times doc socket threads queue h =
    ground (arith, h.reads_socket, h.reads_threads, h.reads_queue)

read_times-clamped :
    (doc : Json) (c : ExecutionerConfig) (prepare lock run : ℤ) (root : Str)
    → value_int (codes "prepare_timeout_ms") doc c.prepare_timeout_ms ≡ some prepare
    → value_int (codes "cache_lock_wait_ms") doc c.cache_lock_wait_ms ≡ some lock
    → value_int (codes "run_timeout_ms") doc c.run_timeout_ms ≡ some run
    → value_text (codes "cache_root") doc c.cache_root ≡ some root
    → read_times doc c ≡ clamped (with_times prepare lock run root c)
unfolding read_times
read_times-clamped doc c prepare lock run root e f g h = ground (arith, e, f, g, h)

read_times-stops :
    (doc : Json) (c : ExecutionerConfig) (prepare lock : ℤ)
    → value_int (codes "prepare_timeout_ms") doc c.prepare_timeout_ms ≡ some prepare
    → value_int (codes "cache_lock_wait_ms") doc c.cache_lock_wait_ms ≡ some lock
    → value_int (codes "run_timeout_ms") doc c.run_timeout_ms ≡ none
    → read_times doc c ≡ with_times prepare lock c.run_timeout_ms c.cache_root c
unfolding read_times
read_times-stops doc c prepare lock e f g = ground (arith, e, f, g)

-- Where every value of the file has its type, the wait for the lock is longer than the time of a
-- prepare.
load_config-IsCovered :
    (doc : Json) (files : List (Option (Option Json))) (socket threads queue prepare lock run : ℤ)
    (root : Str)
    → HasLimits doc socket threads queue
    → HasWaits doc prepare lock
    → value_int (codes "run_timeout_ms") doc (pos 0) ≡ some run
    → value_text (codes "cache_root") doc default_config.cache_root ≡ some root
    → IsCovered (load_config (some (some doc) ∷ files))
unfolding load_config
load_config-IsCovered doc files socket threads queue prepare lock run root h w r t =
    let c : ExecutionerConfig = with_limits socket threads queue default_config in
    let e : read_config doc default_config ≡ clamped (with_times prepare lock run root c) =
      read_config-read_times doc socket threads queue h
      ∙ read_times-clamped doc c prepare lock run root w.reads_prepare w.reads_lock r t in
    rw (e) (clamped-IsCovered (with_times prepare lock run root c))

-- Where the time limit of a run has another type, the file's two waits are taken as they are: the
-- wait for the lock is not raised.
load_config_uncovered :
    (doc : Json) (files : List (Option (Option Json))) (socket threads queue prepare lock : ℤ)
    → HasLimits doc socket threads queue
    → HasWaits doc prepare lock
    → value_int (codes "run_timeout_ms") doc (pos 0) ≡ none
    → ltb_ℤ prepare lock ≡ false
    → ¬ IsCovered (load_config (some (some doc) ∷ files))
unfolding load_config
load_config_uncovered doc files socket threads queue prepare lock h w r k =
    let c : ExecutionerConfig = with_limits socket threads queue default_config in
    let e : read_config doc default_config ≡ with_times prepare lock (pos 0) c.cache_root c =
      read_config-read_times doc socket threads queue h
      ∙ read_times-stops doc c prepare lock w.reads_prepare w.reads_lock r in
    rw (e) (λ i. ground (arith, i, k))
