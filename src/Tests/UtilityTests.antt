-- ===== src/Tests/UtilityTests.antt =====
-- The theorems on frames, on text and on the pool, on small inputs.
use velix.Prelude.{
  Str, List, ℕ, ◌==◌, ◌||◌, ◌++◌, nat_eq, pos, [], ◌∷◌, ◌≡◌, arith, codes, length, ltb,
  if◌then◌else◌,
}
use velix.Framing.{message_size, frame, make_frame, async_read_frame, async_read_frame-make_frame}
use velix.ThreadPool.{
  Event, submits, worker_wakes, stops, happen_all, Faithful, fresh_pool, new_pool-Faithful,
}

async_read_frame-make_frame_example :
    async_read_frame 1048576 (make_frame (codes "ping") ++ codes "rest") ≡ (
      if length (codes "ping") == 0 || ltb 1048576 (length (codes "ping"))
      then message_size (codes "ping" ++ codes "rest")
      else frame (codes "ping") (codes "rest"))
async_read_frame-make_frame_example =
    async_read_frame-make_frame 1048576 (codes "ping") (codes "rest") (omega arith)

-- A letter, a lone lead byte, a letter, and a sequence of two bytes.
abbrev mixed : Str
mixed = 97 ∷ 195 ∷ 98 ∷ 195 ∷ 169 ∷ []

abbrev events : List (Event ℕ)
events = submits 7 ∷ submits 8 ∷ submits 9 ∷ worker_wakes ∷ stops ∷ submits 5 ∷ []

new_pool-Faithful_example : Faithful (happen_all events (fresh_pool (pos 2)))
new_pool-Faithful_example = new_pool-Faithful (pos 2) events
