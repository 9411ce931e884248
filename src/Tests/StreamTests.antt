-- ===== src/Tests/StreamTests.antt =====
-- The theorems on the sentinel parser, on quoting and on the comparison, on small inputs.
use velix.Prelude.{
  suc, ◌≤◌, pos, Str, [], ◌∷◌, ◌++◌, ◌≡◌, refl, arith, codes, length, contains, nat_eq, false,
  map_option,
}
use velix.Terminal.Sentinel.{
  frame_start, field_separator, max_pending_frame_bytes, ended, split_at, try_parse_frame,
  parse_turn, turn, scan,
}
use velix.Terminal.Sentinel.Items.{frame, bytes}
use velix.Terminal.Sentinel.Views.{view, join}
use velix.Terminal.Sentinel.Ending.{Halts, feed-Halts}
use velix.Terminal.Sentinel.Chunks.{fed, feed_chunks}
use velix.Terminal.Sentinel.Frames.{end_frame, feed_end_frame}
use velix.Terminal.Quoting.{bare, read_word, shell_quote, shell_quote_roundtrip}

-- Output, and the start of a frame.
abbrev chunk : Str
chunk = 104 ∷ 105 ∷ frame_start ∷ 86 ∷ []

pending_small : length (scan (length chunk) chunk).1 ≤ max_pending_frame_bytes
unfolding scan turn split_at parse_turn try_parse_frame
pending_small = omega arith

feed_chunks_example :
    fed [] (chunk ++ codes "ELIX") ≡ join (fed [] chunk).0 (fed (fed [] chunk).1 (codes "ELIX"))
feed_chunks_example = feed_chunks [] chunk (codes "ELIX") pending_small

feed-Halts_example : Halts (suc (length chunk)) chunk × (view 9 chunk ≡ view (length chunk) chunk)
feed-Halts_example = feed-Halts 9 chunk (omega arith)

no_start : contains frame_start (codes "hi") ≡ false
unfolding contains
no_start = refl

no_separator : contains field_separator (codes "t1") ≡ false
unfolding contains
no_separator = refl

feed_end_frame_example :
    fed [] (codes "hi" ++ (end_frame (codes "t1") (codes "t1") 7 ++ codes "bye"))
    ≡ join
        (bytes (codes "hi") ++ (frame (ended (codes "t1") (codes "t1") (pos 7)) ∷ []))
        (fed [] (codes "bye"))
feed_end_frame_example =
    feed_end_frame (codes "hi") (codes "t1") (codes "t1") (codes "bye") 7 no_start no_separator
      no_separator (omega arith)

-- A text with a quote, in front of another word.
shell_quote_roundtrip_example :
    read_word bare (shell_quote (codes "it's") ++ codes " ;")
    ≡ map_option (λ p. (codes "it's" ++ p.0, p.1)) (read_word bare (codes " ;"))
shell_quote_roundtrip_example = shell_quote_roundtrip (codes "it's") (codes " ;")
