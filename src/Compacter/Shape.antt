-- ===== src/Compacter/Shape.antt =====
-- llm/compacter.cpp: what a compaction does to a history.
use velix.Prelude.{
  ℕ, zero, suc, ◌+◌, ◌-◌, ◌<◌, ◌≤◌, Str, none, true, false, List, [], ◌∷◌, ◌++◌, ◌≡◌, ◌≢◌, ◌⊎◌,
  refl, ap, arith, length, take, drop, length-drop, is_empty, leb, Option-cases, Bool-cases, inl,
  inr, nat_eq, if◌then◌else◌, if_known, not,
}
use velix.Prelude.Words.{u64_mod, add64, sub64, add64_lt, add64_le, sub64_le, sub64_wraps}
use velix.Patch.{is_prefix}
use velix.Compacter.{
  Turn, Config, Ask, responds, SkipReason, disabled, below_preserve_limit, CompactResult, skipped,
  summary_prefix, previous_summary, turns_to_process, classify_summary_skip_reason, attempts_from,
  summary_message, last_object, retries, compact_history_if_needed,
}
use velix.Compacter.Answers.{Answered, reply_to, attempts_from-Answered, attempts_from-silent}

is_prefix-append : (t s : Str) → is_prefix t (t ++ s) ≡ true
unfolding is_prefix
is_prefix-append [] s = refl
is_prefix-append (c ∷ t) s = ground (arith, is_prefix-append t s)

drop_all : (t a : Str) → drop (length t) (t ++ a) ≡ a
drop_all [] a = refl
drop_all (c ∷ t) a = drop_all t a

summary_message-content :
    (summary now : Str) (older : List Turn)
    → ((summary_message summary now older).is_object ≡ true)
      × ((summary_message summary now older).content ≡ (summary_prefix ++ summary))
unfolding summary_message
summary_message-content summary now older = elim (Option-cases (last_object older)) [
  | inl n ↦ rw (n, summary_message) (refl, refl)
  | inr (t, n) ↦ rw (n, summary_message) (refl, refl)
]

-- A later compaction finds the summary in the message that carries it.
previous_summary-message :
    (summary now : Str) (older ts : List Turn)
    → previous_summary (summary_message summary now older ∷ ts) ≡ summary
unfolding previous_summary
previous_summary-message summary now older ts =
    let c = summary_message-content summary now older in
    rw (c.0, c.1, is_prefix-append summary_prefix summary, drop_all summary_prefix summary) refl

turns_to_process-message :
    (summary now : Str) (older ts : List Turn)
    → is_empty summary ≡ false
    → turns_to_process (summary_message summary now older ∷ ts) ≡ ts
unfolding turns_to_process
turns_to_process-message summary now older ts h =
    rw (previous_summary-message summary now older ts, h) refl

-- The turns that are summed up, and those that are kept, when the number to keep is below the limit.
abbrev pub older_turns : Config → List Turn → List Turn
older_turns cfg history = take (length history - cfg.keep_recent_turns) history

abbrev pub recent_turns : Config → List Turn → List Turn
recent_turns cfg history = drop (length history - cfg.keep_recent_turns) history

-- The result carries a response to one of the attempts on `older`, in front of `recent`, where the
-- next compaction finds it, and takes only `recent` as new.
pub record Carries (cfg : Config) (ask : Ask) (older recent : List Turn) (r : CompactResult)
    : Type 0 where
  pub compacted : r.compacted ≡ true
  pub message : Turn
  pub turns : r.history ≡ (message ∷ recent)
  pub summary_given : is_empty r.summary ≡ false
  pub answered : Answered ask older (retries cfg.summary_retry_count) 1 r.summary
  pub previous : previous_summary r.history ≡ r.summary
  pub next : turns_to_process r.history ≡ recent

-- The turns that the attempts are asked to sum up.
abbrev pub IsOlder : Config → List Turn → List Turn → Type 0
IsOlder cfg history older =
    ((cfg.keep_recent_turns + 1 < u64_mod) × (older ≡ older_turns cfg history))
    ⊎ ((cfg.keep_recent_turns + 1 ≡ u64_mod) × (older ≡ history))

-- Either nothing has changed, and this has a reason, or the turns but the last ones, or all of them
-- where the number to keep is the greatest of its type, were replaced by one message.
pub data Shape (cfg : Config) (ask : Ask) (history : List Turn) (r : CompactResult) : Type 0 where
  same_off : r ≡ skipped disabled history → cfg.enabled ≡ false → Shape cfg ask history r
  same_short :
      r ≡ skipped below_preserve_limit history
      → length history ≤ cfg.keep_recent_turns + 1
      → Shape cfg ask history r
  same_silent :
      (reason : SkipReason) (older : List Turn)
      → IsOlder cfg history older
      → r ≡ skipped reason history
      → ((s : Str) → is_empty s ≡ false → reply_to ask older 1 ≢ responds s)
      → Shape cfg ask history r
  shorter :
      cfg.keep_recent_turns + 1 < u64_mod
      → Carries cfg ask (older_turns cfg history) (recent_turns cfg history) r
      → length r.history ≡ cfg.keep_recent_turns + 1
      → length r.history < length history
      → Shape cfg ask history r
  emptied :
      cfg.keep_recent_turns + 1 ≡ u64_mod → Carries cfg ask history [] r → Shape cfg ask history r

-- What follows the tests, for any split.
finished : Config → Ask → Str → List Turn → ℕ → CompactResult
finished cfg ask now history split_index =
    let older = take split_index history in
    let recent = drop split_index history in
    let tried = attempts_from ask older (retries cfg.summary_retry_count) 1 in
    if is_empty tried.0 then skipped (classify_summary_skip_reason tried.1) history else record {
      history = summary_message tried.0 now older ∷ recent;
      compacted = true;
      summary = tried.0;
      skip_reason = none;
    }

finished-cases :
    (P : CompactResult → Type 0) (cfg : Config) (ask : Ask) (now : Str) (history : List Turn)
    (split : ℕ)
    → ((reason : SkipReason)
        → ((s : Str) → is_empty s ≡ false → reply_to ask (take split history) 1 ≢ responds s)
        → P (skipped reason history))
    → ((r : CompactResult) → Carries cfg ask (take split history) (drop split history) r → P r)
    → P (finished cfg ask now history split)
unfolding finished
finished-cases P cfg ask now history split silent carried =
    let older = take split history in
    let recent = drop split history in
    let left = retries cfg.summary_retry_count in
    let tried = attempts_from ask older left 1 in
    elim (Bool-cases (is_empty tried.0)) [
      | inl e ↦ rw e (silent _ (attempts_from-silent ask older left 1 e))
      | inr e ↦ rw e (
          carried _ record {
            compacted = refl;
            message = summary_message tried.0 now older;
            turns = refl;
            summary_given = e;
            answered = attempts_from-Answered ask older left 1 e;
            previous = previous_summary-message tried.0 now older recent;
            next = turns_to_process-message tried.0 now older recent e;
          })
    ]

drop_past : (n : ℕ) (l : List Turn) → length l ≤ n → drop n l ≡ []
drop_past zero [] h = refl
drop_past zero (t ∷ l) h = absurd (omega (arith, h))
drop_past (suc n) [] h = refl
drop_past (suc n) (t ∷ l) h = drop_past n l (omega (arith, h))

take_past : (n : ℕ) (l : List Turn) → length l ≤ n → take n l ≡ l
take_past zero [] h = refl
take_past zero (t ∷ l) h = absurd (omega (arith, h))
take_past (suc n) [] h = refl
take_past (suc n) (t ∷ l) h = rw (take_past n l (omega (arith, h))) refl

-- A number to keep that has a successor of its type.
finished-shorter :
    (cfg : Config) (ask : Ask) (now : Str) (history : List Turn) (split : ℕ)
    → split ≡ length history - cfg.keep_recent_turns
    → cfg.keep_recent_turns + 1 < u64_mod
    → cfg.keep_recent_turns + 1 < length history
    → Shape cfg ask history (finished cfg ask now history split)
finished-shorter cfg ask now history split e room long =
    finished-cases (Shape cfg ask history) cfg ask now history split
      (λ reason silent.
        same_silent reason (take split history) (inl (room, ap (λ n. take n history) e)) refl
          silent)
      (λ r c'.
        let c : Carries cfg ask (older_turns cfg history) (recent_turns cfg history) r =
          rw e at c' in
        let size : length r.history ≡ cfg.keep_recent_turns + 1 = omega (
          arith,
          ap length c.turns,
          length-drop (length history - cfg.keep_recent_turns) history,
          long,
        ) in
        shorter room c size (omega (arith, size, long)))

finished-emptied :
    (cfg : Config) (ask : Ask) (now : Str) (history : List Turn)
    → cfg.keep_recent_turns + 1 ≡ u64_mod
    → (split : ℕ) → length history ≤ split
    → Shape cfg ask history (finished cfg ask now history split)
finished-emptied cfg ask now history top split past =
    finished-cases (Shape cfg ask history) cfg ask now history split
      (λ reason silent.
        same_silent reason (take split history) (inr (top, take_past split history past)) refl
          silent)
      (λ r c. emptied top (rw (take_past split history past, drop_past split history past) at c))

-- The arithmetic of size_t.
top_or_room : (keep : ℕ) → keep < u64_mod → (keep + 1 ≡ u64_mod) ⊎ (keep + 1 < u64_mod)
top_or_room keep h = ground (arith, h)

below : (keep n : ℕ) → keep < u64_mod → leb n (add64 keep 1) ≡ true → n ≤ keep + 1
below keep n h b = let least : add64 keep 1 ≤ keep + 1 = add64_le keep 1 in ground (arith, b, least)

above : (keep n : ℕ) → keep + 1 < u64_mod → leb n (add64 keep 1) ≡ false → keep + 1 < n
above keep n room b = ground (arith, b, add64_lt keep 1 room)

past : (n keep : ℕ) → keep + 1 ≡ u64_mod → n + 1 < u64_mod → n ≤ sub64 n keep
past n keep top small =
    omega (arith, sub64_wraps n keep (omega (arith, top, small)) (omega (arith, top)), top)

-- Whatever the scheduler replies: the history is returned as it was, with no summary, because the
-- compacter is off, the history is short, or the first attempt brought no text; or it got shorter, to
-- the number of turns to keep and one, and its last turns are kept. If the number to keep is the
-- greatest size_t, no turn is kept. What stands before the kept turns is a message from which a later
-- compaction takes the summary as the previous one, and the kept turns as the new ones; the summary
-- is not empty and is the scheduler's response to one of the attempts on the turns before. The number
-- to keep is a size_t, and the history's length and one fit one.
pub compact_history-Shape :
    (cfg : Config) (ask : Ask) (now : Str) (history : List Turn)
    → cfg.keep_recent_turns < u64_mod
    → length history + 1 < u64_mod
    → Shape cfg ask history (compact_history_if_needed cfg ask now history)
unfolding compact_history_if_needed finished
compact_history-Shape cfg ask now history fits small =
    let keep = cfg.keep_recent_turns in
    let split = sub64 (length history) keep in
    if_known (Shape cfg ask history) (not cfg.enabled) _ _
      (λ off. same_off refl (ground (arith, off)))
      (λ _.
        if_known (Shape cfg ask history) (leb (length history) (add64 keep 1)) _ _
          (λ b. same_short refl (below keep (length history) fits b))
          (λ b. elim (top_or_room keep fits) [
            | inr room ↦
                let long : keep + 1 < length history = above keep (length history) room b in
                finished-shorter cfg ask now history split
                  (sub64_le (length history) keep (omega (arith, long)) (omega (arith, small))) room
                  long
            | inl top ↦
                finished-emptied cfg ask now history top split
                  (past (length history) keep top small)
          ]))
