-- ===== src/Compacter/Answers.antt =====
-- llm/compacter.cpp: the loop over the attempts, and the scheduler's replies.
use velix.Prelude.{
  ℕ, zero, suc, ◌+◌, ◌≤◌, Str, true, false, List, [], ◌≡◌, ◌≢◌, refl, arith, is_empty, Bool-cases,
  inl, inr, nat_eq,
}
use velix.Compacter.{
  Turn, Ask, Reply, throws, fails, responds, previous_summary, turns_to_process, read_reply,
  request_llm_summary, serialize_turns_for_summary_prompt, is_transient_summary_error,
  attempts_from,
}

-- A reply that is a summary was the scheduler's response.
read_reply-responds : (r : Reply) → (read_reply r).0 ≡ true → r ≡ responds (read_reply r).1
unfolding read_reply
read_reply-responds (throws what) h = cc
read_reply-responds (fails error) h = cc
read_reply-responds (responds summary) h = ground (arith, h)

-- The scheduler's reply to an attempt on these turns.
abbrev pub reply_to : Ask → List Turn → ℕ → Reply
reply_to ask older attempt =
    ask attempt (previous_summary older)
      (serialize_turns_for_summary_prompt (turns_to_process older))

-- The text is the response to one of the attempts.
abbrev pub Answered : Ask → List Turn → ℕ → ℕ → Str → Type 0
Answered ask older left first s =
    (k : ℕ) × (first ≤ k) × (k ≤ first + left) × (reply_to ask older k ≡ responds s)

request-Answered :
    (ask : Ask) (older : List Turn) (n : ℕ)
    → (request_llm_summary ask n older).0 ≡ true
    → reply_to ask older n ≡ responds (request_llm_summary ask n older).1
unfolding request_llm_summary
request-Answered ask older n h = read_reply-responds (reply_to ask older n) h

pub attempts_from-Answered :
    (ask : Ask) (older : List Turn) (left n : ℕ)
    → is_empty (attempts_from ask older left n).0 ≡ false
    → Answered ask older left n (attempts_from ask older left n).0
unfolding attempts_from
attempts_from-Answered ask older zero n h = elim (Bool-cases (request_llm_summary ask n older).0) [
  | inl e ↦ rw e (n, omega arith, omega arith, request-Answered ask older n e)
  | inr e ↦ absurd (ground (arith, e, h))
]
attempts_from-Answered ask older (suc left) n h =
    elim (Bool-cases (request_llm_summary ask n older).0) [
      | inl e ↦ rw e (n, omega arith, omega arith, request-Answered ask older n e)
      | inr e ↦ elim (Bool-cases (is_transient_summary_error (request_llm_summary ask n older).1)) [
        | inl t ↦
            let later = attempts_from-Answered ask older left (n + 1) (rw (e, t) at h) in
            rw (e, t) (later.0, omega (arith, later.1), omega (arith, later.2), later.3)
        | inr t ↦ absurd (ground (arith, e, t, h))
      ]
    ]

-- Without a summary, the first attempt brought none.
request_first :
    (ask : Ask) (older : List Turn) (n : ℕ) (s : Str)
    → is_empty s ≡ false
    → reply_to ask older n ≡ responds s
    → request_llm_summary ask n older ≡ (true, s)
unfolding request_llm_summary read_reply
request_first ask older n s some_text e = rw (e, some_text, read_reply) refl

attempts_first :
    (ask : Ask) (older : List Turn) (left n : ℕ) (s : Str)
    → request_llm_summary ask n older ≡ (true, s)
    → attempts_from ask older left n ≡ (s, [])
unfolding attempts_from
attempts_first ask older zero n s e = rw e refl
attempts_first ask older (suc left) n s e = rw e refl

pub attempts_from-silent :
    (ask : Ask) (older : List Turn) (left n : ℕ)
    → is_empty (attempts_from ask older left n).0 ≡ true
    → (s : Str) → is_empty s ≡ false
    → reply_to ask older n ≢ responds s
attempts_from-silent ask older left n h s some_text e =
    let found : attempts_from ask older left n ≡ (s, []) =
      attempts_first ask older left n s (request_first ask older n s some_text e) in
    ground (arith, rw found at h, some_text)
