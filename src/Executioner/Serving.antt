-- ===== src/Executioner/Serving.antt =====
-- execution/executioner.cpp: the end of handle_exec_request, from the coalescer to the launch, and
-- handle_cache_prune. The answer of wait, the locks, the steps and the spawner are arguments.
pub mod Launched
use velix.Prelude.{
  ℕ, suc, ℤ, Str, Option, none, some, Bool, true, false, if◌then◌else◌, codes, List, [], ◌∷◌, ◌++◌,
  leb, ◌&&◌,
}
use velix.Executioner.Adapters.{PrepareStep}
use velix.Executioner.PrepareRunner.{Ran, reply_error}
use velix.Executioner.Coalescer.{Coalescer, Answer, is_ready, has_failed, peer_timeout}
use velix.Executioner.Leading.{Status, Locks, Refusal, prepare_error, prepare_reply, Led, lead}
use velix.Executioner.Requests.{
  Checked, passes, replies, raises, and_pass, Phase, prepare_phase, Spawned, launch,
}

abbrev pub of_refusal : Option Refusal → Checked Bool
of_refusal none = passes true
of_refusal (some (prepare_error e)) = replies prepare_phase e
of_refusal (some (prepare_reply reply)) = replies prepare_phase (reply_error reply)

abbrev pub of_answer : Answer → Checked Bool
of_answer is_ready = passes true
of_answer (has_failed e) = replies prepare_phase (codes "prepare_failed_by_peer: " ++ e)
of_answer peer_timeout =
    replies prepare_phase (codes "prepare_failed_by_peer: prepare_peer_timeout")

-- What a request finds when its plan is made.
pub record Turn : Type 0 where
  pub key : Str
  pub slot : ℕ
  pub force_refresh : Bool
  pub locks : Locks
  pub run : ℕ → PrepareStep → Ran
  pub steps : List PrepareStep
  pub status : Status

-- The leader of the key.
unfoldable pub serve_leader : Turn → Spawned → Coalescer → Checked ℤ × Coalescer
unfolding lead and_pass launch
serve_leader turn spawner c =
    let led : Led =
      lead turn.key turn.slot turn.force_refresh turn.locks turn.run turn.steps turn.status c in
    (and_pass (of_refusal led.refusal) (λ (go : Bool). launch spawner), led.coalescer)

-- A thread that waited.
unfoldable pub serve_follower : Answer → Spawned → Checked ℤ
unfolding and_pass launch
serve_follower answer spawner = and_pass (of_answer answer) (λ (go : Bool). launch spawner)

-- A directory of the cache: its age in seconds, none where it cannot be read, and whether its removal
-- succeeds.
pub record CacheDir : Type 0 where
  pub is_directory : Bool
  pub age : Option ℕ
  pub removable : Bool

abbrev pub is_pruned : ℕ → CacheDir → Bool
is_pruned older_sec d =
    d.is_directory
    && (elim d.age [ none ↦ false | some age ↦ if leb age older_sec then false else true ])

-- What is left, and the number that is reported.
unfoldable pub handle_cache_prune : ℕ → List CacheDir → List CacheDir × ℕ
handle_cache_prune older_sec [] = ([], 0)
handle_cache_prune older_sec (d ∷ l) =
    let rest : List CacheDir × ℕ = handle_cache_prune older_sec l in
    if is_pruned older_sec d && d.removable then (rest.0, suc rest.1) else (d ∷ rest.0, rest.1)
