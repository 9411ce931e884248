-- ===== src/Tests/CompacterTests.antt =====
-- The compacter's theorem on a short history.
use velix.Prelude.{ℕ, pos, Str, none, true, List, [], ◌∷◌, codes, arith}
use velix.Compacter.{Turn, Config, Reply, responds, compact_history_if_needed}
use velix.Compacter.Shape.{Shape, compact_history-Shape}

abbrev turn : ℕ → Turn
turn n = record {
  is_object = true;
  role = codes "user";
  content = n ∷ [];
  timestamp = none;
  metadata = none;
}

abbrev config : Config
config = record {
  enabled = true;
  keep_recent_turns = 1;
  summary_retry_count = pos 2;
  scheduler_timeout_ms = pos 30000;
}

-- The scheduler answers every attempt.
abbrev ask : ℕ → Str → Str → Reply
ask attempt previous turns = responds (codes "done")

abbrev history : List Turn
history = turn 97 ∷ turn 98 ∷ turn 99 ∷ []

compact_history-Shape_example :
    Shape config ask history (compact_history_if_needed config ask (codes "noon") history)
compact_history-Shape_example =
    compact_history-Shape config ask (codes "noon") history (omega arith) (omega arith)
