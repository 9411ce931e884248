-- ===== src/Terminal/Sentinel/Views.antt =====
-- A turn of the sentinel parser's loop, and the loop's result with the output byte by byte.
use velix.Prelude.{
  ℕ, suc, ◌<◌, Str, none, some, false, List, [], ◌∷◌, ◌++◌, ◌≡◌, refl, arith, sym, ap, ◌∙◌, length,
  map_option, Option-cases, inl, inr, contains, nat_eq,
}
use mathlib.Core.Logic.{◌⊎◌}
use velix.Terminal.Sentinel.{
  frame_start, Event, split_at, try_parse_frame, Turn, stops, goes, parse_turn, turn, scan,
}
use velix.Terminal.Sentinel.Items.{
  append_assoc, append_nil, Item, bytes, items, bytes-append, items-append, split_at-more,
  split_at-shorter, split_at-absent, split_at-none, split_at-some, try_parse_frame-more, said,
  on_split, turn-split, items-said,
}

-- The loop's result with the callbacks byte by byte.
abbrev pub view : ℕ → Str → List Item × Str
view n buf = (items (scan n buf).0, (scan n buf).1)

abbrev pub join : List Item → List Item × Str → List Item × Str
join a r = (a ++ r.0, r.1)

pub join-join : (a b : List Item) (r : List Item × Str) → join (a ++ b) r ≡ join a (join b r)
join-join a b (i, s) = rw (append_assoc a b i) refl

pub view-stops :
    (n : ℕ) (buf w : Str) (e : List Event) → turn buf ≡ stops e w → view (suc n) buf ≡ (items e, w)
unfolding scan
view-stops n buf w e h =
    let s : scan (suc n) buf ≡ (e, w) = rw (h, scan) refl in ap (λ r. (items r.0, r.1)) s

pub view-goes :
    (n : ℕ) (buf r : Str) (e : List Event)
    → turn buf ≡ goes e r
    → view (suc n) buf ≡ join (items e) (view n r)
unfolding scan
view-goes n buf r e h =
    let s : scan (suc n) buf ≡ (e ++ (scan n r).0, (scan n r).1) = rw (h, scan) refl in
    ap (λ q. (items q.0, q.1)) s ∙ ap (λ i. (i, (scan n r).1)) (items-append e (scan n r).0)

pub Turn-cases :
    (t : Turn)
    → ((e : List Event) × ((w : Str) × (t ≡ stops e w)))
      ⊎ ((e : List Event) × ((r : Str) × (t ≡ goes e r)))
Turn-cases (stops e w) = inl (e, (w, refl))
Turn-cases (goes e r) = inr (e, (r, refl))

-- A turn that goes on consumes a byte, and does the same with more bytes behind.
pub turn-more :
    (x y r : Str) (e : List Event)
    → turn x ≡ goes e r
    → (turn (x ++ y) ≡ goes e (r ++ y)) × (length r < length x)
unfolding parse_turn
turn-more x y r e h =
    let split = turn-split x in
    let split_more = turn-split (x ++ y) in
    elim (Option-cases (split_at frame_start x)) [
      | inl n ↦ ground (arith, n, h, split)
      | inr ((p, body), n) ↦ elim (Option-cases (try_parse_frame body)) [
        | inl m ↦ ground (arith, n, m, h, split)
        | inr ((es, rest), m) ↦ ground (
          arith,
          n,
          m,
          h,
          split,
          split_more,
          split_at-more frame_start x y p body n,
          split_at-shorter frame_start x p body n,
          try_parse_frame-more body y rest es m,
        )
      ]
    ]

-- A turn that stops has put out what stands before the pending bytes, which is plain output.
pub turn_stops :
    (x w : Str) (e : List Event)
    → turn x ≡ stops e w
    → (p : Str) × ((x ≡ (p ++ w)) × ((items e ≡ bytes p) × (contains frame_start p ≡ false)))
unfolding parse_turn
turn_stops x w e h =
    let split = turn-split x in
    elim (Option-cases (split_at frame_start x)) [
      | inl n ↦ (
        x,
        ground (arith, n, h, split, append_nil x, items-said x, split_at-none frame_start x n),
      )
      | inr ((p, body), n) ↦ elim (Option-cases (try_parse_frame body)) [
        | inl m ↦
            (p, ground (arith, n, m, h, split, items-said p, split_at-some frame_start x p body n))
        | inr (done, m) ↦ (p, ground (arith, n, m, h, split))
      ]
    ]

pub view-none : (n : ℕ) (z : Str) → split_at frame_start z ≡ none → view (suc n) z ≡ (bytes z, [])
view-none n z h =
    view-stops n z [] (said z) (turn-split z ∙ ap (on_split z) h) ∙ ap (λ i. (i, [])) (items-said z)

pub view-wait :
    (n : ℕ) (z q body : Str)
    → split_at frame_start z ≡ some (q, body)
    → try_parse_frame body ≡ none
    → view (suc n) z ≡ (bytes q, frame_start ∷ body)
unfolding parse_turn
view-wait n z q body h k =
    let t : parse_turn (said q) body ≡ stops (said q) (frame_start ∷ body) =
      rw (k, parse_turn) refl in
    view-stops n z (frame_start ∷ body) (said q) (turn-split z ∙ ap (on_split z) h ∙ t)
    ∙ ap (λ i. (i, frame_start ∷ body)) (items-said q)

pub view-go :
    (n : ℕ) (z q body r : Str) (es : List Event)
    → split_at frame_start z ≡ some (q, body)
    → try_parse_frame body ≡ some (es, r)
    → view (suc n) z ≡ join (bytes q ++ items es) (view n r)
unfolding parse_turn
view-go n z q body r es h k =
    let t : parse_turn (said q) body ≡ goes (said q ++ es) r = rw (k, parse_turn) refl in
    let i : items (said q ++ es) ≡ (bytes q ++ items es) =
      items-append (said q) es ∙ ap (λ j. j ++ items es) (items-said q) in
    view-goes n z r (said q ++ es) (turn-split z ∙ ap (on_split z) h ∙ t)
    ∙ ap (λ j. join j (view n r)) i

-- Plain output in front.
pub view-plain :
    (n : ℕ) (p z : Str)
    → contains frame_start p ≡ false
    → view (suc n) (p ++ z) ≡ join (bytes p) (view (suc n) z)
view-plain n p z a =
    let split = split_at-absent frame_start p z a in
    elim (Option-cases (split_at frame_start z)) [
      | inl h ↦
          view-none n (p ++ z) (split ∙ ap (map_option (λ q. (p ++ q.0, q.1))) h)
          ∙ ap (λ i. (i, [])) (bytes-append p z)
          ∙ ap (join (bytes p)) (sym (view-none n z h))
      | inr ((q, body), h) ↦
          let there = split ∙ ap (map_option (λ q. (p ++ q.0, q.1))) h in
          elim (Option-cases (try_parse_frame body)) [
            | inl k ↦
                view-wait n (p ++ z) (p ++ q) body there k
                ∙ ap (λ i. (i, frame_start ∷ body)) (bytes-append p q)
                ∙ ap (join (bytes p)) (sym (view-wait n z q body h k))
            | inr ((es, r), k) ↦
                view-go n (p ++ z) (p ++ q) body r es there k
                ∙ ap (λ i. join (i ++ items es) (view n r)) (bytes-append p q)
                ∙ ap (λ i. join i (view n r)) (append_assoc (bytes p) (bytes q) (items es))
                ∙ join-join (bytes p) (bytes q ++ items es) (view n r)
                ∙ ap (join (bytes p)) (sym (view-go n z q body r es h k))
          ]
    ]
