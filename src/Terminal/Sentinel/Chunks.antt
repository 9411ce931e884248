-- ===== src/Terminal/Sentinel/Chunks.antt =====
-- The sentinel parser does not depend on how the stream is cut into chunks.
use velix.Prelude.{
  ℕ, zero, suc, ◌≤◌, Str, List, [], ◌∷◌, ◌++◌, ◌≡◌, refl, arith, sym, ap, ◌∙◌, length,
  length-append, inl, inr, nat_eq,
}
use velix.Terminal.Sentinel.{max_pending_frame_bytes, Event, turn, scan, guard, feed}
use velix.Terminal.Sentinel.Items.{append_assoc, append_nil, Item, items, items-append}
use velix.Terminal.Sentinel.Views.{
  view, join, join-join, view-stops, view-goes, Turn-cases, turn-more, turn_stops, view-plain,
}

-- More fuel than bytes changes nothing.
pub view_enough : (m n : ℕ) (z : Str) → length z ≤ m → length z ≤ n → view m z ≡ view n z
unfolding scan turn
view_enough zero zero z h k = refl
view_enough zero (suc n) [] h k = refl
view_enough zero (suc n) (c ∷ z) h k = ground arith
view_enough (suc m) zero [] h k = refl
view_enough (suc m) zero (c ∷ z) h k = ground arith
view_enough (suc m) (suc n) z h k = elim (Turn-cases (turn z)) [
  | inl (e, (w, t)) ↦ view-stops m z w e t ∙ sym (view-stops n z w e t)
  | inr (e, (r, t)) ↦
      let shorter = (turn-more z [] r e t).1 in
      view-goes m z r e t
      ∙ ap (join (items e)) (view_enough m n r (omega arith) (omega arith))
      ∙ sym (view-goes n z r e t)
]

view_pending : (n : ℕ) (z : Str) → length (view n z).1 ≤ length z
unfolding scan
view_pending zero z = omega arith
view_pending (suc n) z = elim (Turn-cases (turn z)) [
  | inl (e, (w, t)) ↦
      let s = turn_stops z w e t in ground (arith, view-stops n z w e t, s.1.0, length-append s.0 w)
  | inr (e, (r, t)) ↦
      ground (arith, view-goes n z r e t, (turn-more z [] r e t).1, view_pending n r)
]

-- Bytes that come behind those scanned so far are scanned behind the pending ones.
view-append :
    (n m : ℕ) (x y : Str)
    → length x ≤ n
    → length (x ++ y) ≤ m
    → view m (x ++ y) ≡ join (view n x).0 (view m ((view n x).1 ++ y))
unfolding scan turn items
view-append zero m [] y h k = refl
view-append zero m (c ∷ x) y h k = ground arith
view-append (suc n) zero [] y h k = refl
view-append (suc n) zero (c ∷ x) y h k = ground arith
view-append (suc n) (suc m) x y h k =
    let after = λ (v : List Item × Str). join v.0 (view (suc m) (v.1 ++ y)) in
    elim (Turn-cases (turn x)) [
      | inl (e, (w, t)) ↦
          let s = turn_stops x w e t in
          ap (λ u. view (suc m) (u ++ y)) s.1.0
          ∙ ap (view (suc m)) (append_assoc s.0 w y)
          ∙ view-plain m s.0 (w ++ y) s.1.1.1
          ∙ ap (λ i. join i (view (suc m) (w ++ y))) (sym s.1.1.0)
          ∙ sym (ap after (view-stops n x w e t))
      | inr (e, (r, t)) ↦
          let more = turn-more x y r e t in
          let less = (view n r).1 in
          let fits : length (r ++ y) ≤ m =
            omega (arith, more.1, k, length-append x y, length-append r y) in
          let room : length (less ++ y) ≤ m =
            omega (arith, view_pending n r, fits, length-append less y, length-append r y) in
          view-goes m (x ++ y) (r ++ y) e more.0
          ∙ ap (join (items e)) (
              view-append n m r y (omega (arith, more.1, h)) fits
              ∙ ap (join (view n r).0)
                  (view_enough m (suc m) (less ++ y) room (omega (arith, room))))
          ∙ sym (join-join (items e) (view n r).0 (view (suc m) (less ++ y)))
          ∙ sym (ap after (view-goes n x r e t))
    ]

-- The guard behind the loop.
abbrev pub guarded : List Item × Str → List Item × Str
guarded v = (v.0 ++ items (guard v.1).0, (guard v.1).1)

-- A call of feed, with the output byte by byte.
abbrev pub fed : Str → Str → List Item × Str
fed buf chunk = (items (feed buf chunk).0, (feed buf chunk).1)

pub feed-view :
    (buf chunk : Str) → fed buf chunk ≡ guarded (view (length (buf ++ chunk)) (buf ++ chunk))
unfolding feed
feed-view buf chunk =
    let all = buf ++ chunk in
    let r = scan (length all) all in ap (λ i. (i, (guard r.1).1)) (items-append r.0 (guard r.1).0)

pub guarded-join : (i : List Item) (v : List Item × Str) → guarded (join i v) ≡ join i (guarded v)
guarded-join i (j, w) = ap (λ k. (k, (guard w).1)) (append_assoc i j (items (guard w).0))

guarded_quiet : (v : List Item × Str) → length v.1 ≤ max_pending_frame_bytes → guarded v ≡ v
unfolding guard items
guarded_quiet (i, w) h =
    let q : guard w ≡ ([], w) = ground arith in
    ap (λ (g : List Event × Str). (i ++ items g.0, g.1)) q ∙ ap (λ j. (j, w)) (append_nil i)

-- When the flood guard stays quiet at the end of the first chunk, which is when at most 4096 bytes
-- are then pending, feeding the two chunks one after the other makes the same callbacks as feeding
-- them at once, with the output taken byte by byte, and leaves the same bytes pending.
pub feed_chunks :
    (buf first second : Str)
    → length (scan (length (buf ++ first)) (buf ++ first)).1 ≤ max_pending_frame_bytes
    → fed buf (first ++ second) ≡ join (fed buf first).0 (fed (fed buf first).1 second)
feed_chunks buf first second quiet =
    let a = buf ++ first in
    let v = view (length a) a in
    let rest = v.1 ++ second in
    let m = length (a ++ second) in
    let room : length rest ≤ m =
      omega (arith, view_pending (length a) a, length-append v.1 second, length-append a second) in
    let one : fed buf first ≡ v = feed-view buf first ∙ guarded_quiet v quiet in
    feed-view buf (first ++ second)
    ∙ ap (λ z. guarded (view (length z) z)) (sym (append_assoc buf first second))
    ∙ ap guarded (
        view-append (length a) m a second (omega arith) (omega arith)
        ∙ ap (join v.0) (view_enough m (length rest) rest room (omega arith)))
    ∙ guarded-join v.0 (view (length rest) rest)
    ∙ ap (join v.0) (sym (feed-view v.1 second))
    ∙ ap (λ (u : List Item × Str). join u.0 (fed u.1 second)) (sym one)
