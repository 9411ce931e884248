-- ===== src/Compacter.antt =====
-- llm/compacter.cpp: compact_history_if_needed. A turn is what the code reads of the JSON object: its
-- role and its content with their defaults, the timestamp and the metadata where they have the
-- asked type. The scheduler's reply to an attempt is an argument, a function of the number of the
-- attempt, the previous summary and the new turns, from which the prompt is made; its wording is
-- left out. keep_recent_turns is a size_t, whose arithmetic wraps. A history that is no array, logging and the waits between attempts are left out.
pub mod Answers
pub mod Shape
use velix.Prelude.{
  ℕ, zero, suc, ◌+◌, ◌-◌, ◌/◌, max, ℤ, pos, negsuc, Str, Option, none, some, Bool, true, false, not,
  ◌&&◌, ◌||◌, List, [], ◌∷◌, ◌++◌, if◌then◌else◌, length, take, drop, is_empty, leb, codes, ltb_ℤ,
  ◌==◌, nat_eq, map_option,
}
use velix.Prelude.Words.{add64, sub64}
use velix.Patch.{is_prefix, find_text}

pub record Turn : Type 0 where
  pub is_object : Bool
  pub role : Str
  pub content : Str
  pub timestamp : Option Str
  pub metadata : Option Str

pub record Config : Type 0 where
  pub enabled : Bool
  pub keep_recent_turns : ℕ
  pub summary_retry_count : ℤ
  pub scheduler_timeout_ms : ℤ

-- An exception's text, an error that the scheduler reports, or its response.
pub data Reply : Type 0 where
  throws : Str → Reply
  fails : Str → Reply
  responds : Str → Reply

pub data SkipReason : Type 0 where
  disabled below_preserve_limit : SkipReason
  summary_queue_timeout summary_model_error summary_generation_failed : SkipReason

pub record CompactResult : Type 0 where
  pub history : List Turn
  pub compacted : Bool
  pub summary : Str
  pub skip_reason : Option SkipReason

-- The end of load_compacter_config; the timeout of the scheduler is not close to an int's limit.
abbrev pub add_ms : ℤ → ℕ → ℤ
add_ms (pos n) k = pos (n + k)
add_ms (negsuc n) k = if leb (n + 1) k then pos (k - (n + 1)) else negsuc (n - k)

unfoldable pub sanitized : ℤ → Config → Config
sanitized scheduler_wait_timeout_ms cfg =
    let aligned = add_ms scheduler_wait_timeout_ms 2000 in
    record {
      enabled = cfg.enabled;
      keep_recent_turns = if cfg.keep_recent_turns == 0 then 1 else cfg.keep_recent_turns;
      summary_retry_count =
          if ltb_ℤ cfg.summary_retry_count (pos 0) then pos 0 else cfg.summary_retry_count;
      scheduler_timeout_ms =
          if ltb_ℤ cfg.scheduler_timeout_ms aligned then aligned else cfg.scheduler_timeout_ms;
    }

-- find(text) != npos
unfoldable pub mentions : Str → Str → Bool
unfolding find_text
mentions text s = elim (find_text text s) [ none ↦ false | some i ↦ true ]

unfoldable pub is_transient_summary_error : Str → Bool
unfolding mentions
is_transient_summary_error e =
    mentions (codes "Recv timeout") e
    || mentions (codes "Resource temporarily unavailable") e
    || mentions (codes "errno 11") e
    || mentions (codes "scheduler_request_deadline_exceeded") e
    || mentions (codes "deadline_exceeded") e

unfoldable pub classify_summary_skip_reason : Str → SkipReason
unfolding mentions is_transient_summary_error
classify_summary_skip_reason e =
    if is_transient_summary_error e
    then summary_queue_timeout
    else if mentions (codes "Scheduler summarization failed:") e
    then summary_model_error
    else summary_generation_failed

unfoldable pub content_size : List Turn → ℕ
content_size [] = 0
content_size (t ∷ ts) = (if t.is_object then length t.content else 0) + content_size ts

unfoldable pub estimate_history_tokens : List Turn → ℕ
unfolding content_size
estimate_history_tokens history = max 1 (content_size history / 3)

abbrev time_text : Option Str → Str
time_text none = codes "unknown-time"
time_text (some t) = t

unfoldable pub serialize_turns_for_summary_prompt : List Turn → Str
serialize_turns_for_summary_prompt [] = []
serialize_turns_for_summary_prompt (t ∷ ts) =
    let rest = serialize_turns_for_summary_prompt ts in
    if not t.is_object || is_empty t.content
    then rest
    else codes "["
      ++ (time_text t.timestamp
          ++ (codes "] " ++ (t.role ++ (codes ": " ++ (t.content ++ (10 ∷ rest))))))

-- SUMMARY_PREFIX
unfoldable pub summary_prefix : Str
summary_prefix =
    codes
      "[CONTEXT COMPACTION] Earlier turns in this conversation were compacted to save context space. The summary below describes work that was already completed, and the current session state may still reflect that work (for example, files may already be changed). Use the summary and the current state to continue from where things left off, and avoid repeating work:"
    ++ (10 ∷ 10 ∷ [])

-- The summary that the first of the older turns carries, if it is one.
unfoldable pub previous_summary : List Turn → Str
unfolding is_prefix
previous_summary [] = []
previous_summary (t ∷ ts) =
    if t.is_object && is_prefix summary_prefix t.content
    then drop (length summary_prefix) t.content
    else []

unfoldable pub turns_to_process : List Turn → List Turn
unfolding previous_summary
turns_to_process older = if is_empty (previous_summary older) then older else drop 1 older

abbrev pub Ask : Type 0
Ask = ℕ → Str → Str → Reply

-- The end of request_llm_summary: a summary, or the text of an exception.
unfoldable pub read_reply : Reply → Bool × Str
read_reply (throws what) = (false, what)
read_reply (fails error) = (false, codes "Scheduler summarization failed: " ++ error)
read_reply (responds summary) =
    if is_empty summary
    then (false, codes "Scheduler summarization returned empty summary")
    else (true, summary)

unfoldable pub request_llm_summary : Ask → ℕ → List Turn → Bool × Str
unfolding read_reply
request_llm_summary ask attempt older = read_reply (
    ask attempt (previous_summary older)
      (serialize_turns_for_summary_prompt (turns_to_process older)))

-- The loop over the attempts, with the number of those left behind this one; the summary, empty if
-- there is none, and the last error.
unfoldable pub attempts_from : Ask → List Turn → ℕ → ℕ → Str × Str
unfolding request_llm_summary
attempts_from ask older zero attempt =
    let r = request_llm_summary ask attempt older in if r.0 then (r.1, []) else ([], r.1)
attempts_from ask older (suc left) attempt =
    let r = request_llm_summary ask attempt older in
    let later = attempts_from ask older left (attempt + 1) in
    if r.0 then (r.1, []) else if is_transient_summary_error r.1 then later else ([], r.1)

abbrev or_else : Option Str → Option Str → Option Str
or_else none o = o
or_else (some s) o = some s

-- The last turn that is an object.
unfoldable pub last_object : List Turn → Option Turn
last_object [] = none
last_object (t ∷ ts) = elim (last_object ts) [
  | some u ↦ some u
  | none ↦ if t.is_object then some t else none
]

-- The message for the summary; the timestamp is the clock's where the older turns give none.
unfoldable pub summary_message : Str → Str → List Turn → Turn
unfolding last_object
summary_message summary now older = elim (last_object older) [
  | none ↦ record {
    is_object = true;
    role = codes "assistant";
    content = summary_prefix ++ summary;
    timestamp = some now;
    metadata = none;
  }
  | some t ↦ record {
    is_object = true;
    role = codes "assistant";
    content = summary_prefix ++ summary;
    timestamp = or_else t.timestamp (some now);
    metadata = t.metadata;
  }
]

abbrev pub skipped : SkipReason → List Turn → CompactResult
skipped reason history = record {
  history = history;
  compacted = false;
  summary = [];
  skip_reason = some reason;
}

abbrev pub retries : ℤ → ℕ
retries (pos n) = n
retries (negsuc n) = 0

unfoldable pub compact_history_if_needed : Config → Ask → Str → List Turn → CompactResult
unfolding attempts_from summary_message classify_summary_skip_reason
compact_history_if_needed cfg ask now history =
    if not cfg.enabled
    then skipped disabled history
    else if leb (length history) (add64 cfg.keep_recent_turns 1)
    then skipped below_preserve_limit history
    else (let split_index = sub64 (length history) cfg.keep_recent_turns in
        let older = take split_index history in
        let recent = drop split_index history in
        let tried = attempts_from ask older (retries cfg.summary_retry_count) 1 in
        if is_empty tried.0
        then skipped (classify_summary_skip_reason tried.1) history
        else record {
          history = summary_message tried.0 now older ∷ recent;
          compacted = true;
          summary = tried.0;
          skip_reason = none;
        })
