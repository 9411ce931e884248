-- ===== src/Terminal/Sentinel/Ending.antt =====
-- The loop of SentinelParser::feed ends.
use velix.Prelude.{ℕ, zero, suc, ◌≤◌, ◌<◌, Str, List, [], ◌≡◌, arith, length, inl, inr}
use velix.Terminal.Sentinel.{Event, turn, stops, goes}
use velix.Terminal.Sentinel.Views.{view, Turn-cases, turn-more}
use velix.Terminal.Sentinel.Chunks.{view_enough}

-- The loop returns within so many turns.
pub data Halts : ℕ → Str → Type 0 where
  now :
      {n : ℕ} {buf : Str}
      → (out : List Event) → (pending : Str) → turn buf ≡ stops out pending
      → Halts (suc n) buf
  later :
      {n : ℕ} {buf : Str}
      → (out : List Event) → (rest : Str) → turn buf ≡ goes out rest
      → Halts n rest
      → Halts (suc n) buf

none_shorter : {k m : ℕ} → k < m → m ≤ 0 → ⊥
none_shorter h k = omega (arith, h, k)

turns-Halts : (n : ℕ) (buf : Str) → length buf ≤ n → Halts (suc n) buf
turns-Halts zero buf h = elim (Turn-cases (turn buf)) [
  | inl (out, (pending, t)) ↦ now out pending t
  | inr (out, (rest, t)) ↦ elim (none_shorter (turn-more buf [] rest out t).1 h) [ ]
]
turns-Halts (suc n) buf h = elim (Turn-cases (turn buf)) [
  | inl (out, (pending, t)) ↦ now out pending t
  | inr (out, (rest, t)) ↦
      let shorter = (turn-more buf [] rest out t).1 in
      later out rest t (turns-Halts n rest (omega (arith, shorter, h)))
]

-- The loop of feed returns, within one turn more than there are bytes, whatever the bytes; and a fuel
-- that is not below their number makes the callbacks of the whole loop, with the output taken byte
-- by byte, and leaves the same bytes pending.
pub feed-Halts :
    (n : ℕ) (buf : Str)
    → length buf ≤ n
    → Halts (suc (length buf)) buf × (view n buf ≡ view (length buf) buf)
feed-Halts n buf h =
    (turns-Halts (length buf) buf (omega arith), view_enough n (length buf) buf h (omega arith))
