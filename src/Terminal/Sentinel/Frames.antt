-- ===== src/Terminal/Sentinel/Frames.antt =====
-- What the sentinel parser makes of a stream with a frame in it.
use velix.Prelude.{
  ℕ, ◌<◌, ◌≤◌, ◌^◌, pos, Str, some, false, [], ◌∷◌, ◌++◌, ◌≡◌, refl, arith, sym, ap, ◌∙◌, length,
  length-append, suc, contains, nat_eq, str_eq, to_string, map_option, ==_refl, str_beq, ◌==◌,
}
use velix.Prelude.Numerals.Printed.{stoi-to_string, contains-to_string}
use velix.Terminal.Sentinel.{
  frame_start, field_separator, ended, end_tag, start_tag, split_at, Fields, read_fields,
  end_events, try_parse_frame,
}
use velix.Terminal.Sentinel.Items.{
  frame, bytes, items, append_nil, split_at-absent, try_parse_frame-more,
}
use velix.Terminal.Sentinel.Views.{view, join, join-join, view-plain, view-go}
use velix.Terminal.Sentinel.Chunks.{fed, feed-view, guarded, guarded-join, view_enough}

-- The bytes that the shell side prints for the end of a job, without kFrameStart.
abbrev end_body : Str → Str → ℕ → Str
end_body token job_id exit_code =
    end_tag
    ++ (field_separator
        ∷ (token
            ++ (field_separator
                ∷ (job_id ++ (field_separator ∷ (to_string exit_code ++ (field_separator ∷ [])))))))

abbrev pub end_frame : Str → Str → ℕ → Str
end_frame token job_id exit_code = frame_start ∷ end_body token job_id exit_code

split_at-here : (c : ℕ) (a b : Str) → contains c a ≡ false → split_at c (a ++ (c ∷ b)) ≡ some (a, b)
unfolding split_at
split_at-here c a b h =
    let front : split_at c (c ∷ b) ≡ some ([], b) = ground arith in
    split_at-absent c a (c ∷ b) h
    ∙ ap (map_option (λ q. (a ++ q.0, q.1))) front
    ∙ ap (λ u. some (u, b)) (append_nil a)

read_fields-end :
    (token job_id number : Str)
    → contains field_separator token ≡ false
    → contains field_separator job_id ≡ false
    → contains field_separator number ≡ false
    → read_fields (
        token
        ++ (field_separator ∷ (job_id ++ (field_separator ∷ (number ++ (field_separator ∷ []))))))
      ≡ some (record { token = token; job_id = job_id; number = number; rest = [] })
unfolding read_fields
read_fields-end token job_id number h k l =
    let c = number ++ (field_separator ∷ []) in
    let b = job_id ++ (field_separator ∷ c) in
    rw
      (
        split_at-here field_separator token b h,
        split_at-here field_separator job_id c k,
        split_at-here field_separator number [] l,
        read_fields,
      )
      refl

no_separator : contains field_separator end_tag ≡ false
unfolding contains end_tag
no_separator = refl

not_start : (end_tag == start_tag) ≡ false
unfolding end_tag start_tag str_beq
not_start = refl

try_parse_frame-end :
    (token job_id : Str) (n : ℕ)
    → contains field_separator token ≡ false
    → contains field_separator job_id ≡ false
    → n < 2 ^ 31
    → try_parse_frame (end_body token job_id n) ≡ some (ended token job_id (pos n) ∷ [], [])
unfolding try_parse_frame end_events
try_parse_frame-end token job_id n h k small =
    let fields : Fields = record {
      token = token;
      job_id = job_id;
      number = to_string n;
      rest = [];
    } in
    let events : end_events fields ≡ ended token job_id (pos n) ∷ [] =
      rw (stoi-to_string n small, end_events) refl in
    rw
      (
        split_at-here field_separator end_tag
            (token
              ++ (field_separator
                  ∷ (job_id ++ (field_separator ∷ (to_string n ++ (field_separator ∷ []))))))
            no_separator,
        not_start,
        ==_refl end_tag,
        read_fields-end token job_id (to_string n) h k (contains-to_string field_separator n refl),
        try_parse_frame,
      )
      (ap (λ e. some (e, [])) events)

-- A stream that has, behind bytes without kFrameStart, the frame that the shell prints for the end
-- of a job, then any bytes, is put out up to the frame; then on_end_ gets the token, the job and
-- the exit code; then the rest is treated like a stream of its own. The token and the job's id
-- have no separator, and the exit code is not negative and fits an int.
pub feed_end_frame :
    (before token job_id after : Str) (n : ℕ)
    → contains frame_start before ≡ false
    → contains field_separator token ≡ false
    → contains field_separator job_id ≡ false
    → n < 2 ^ 31
    → fed [] (before ++ (end_frame token job_id n ++ after))
      ≡ join (bytes before ++ (frame (ended token job_id (pos n)) ∷ [])) (fed [] after)
unfolding split_at items
feed_end_frame before token job_id after n plain h k small =
    let body = end_body token job_id n in
    let z = frame_start ∷ (body ++ after) in
    let all = before ++ z in
    let parsed =
      (try_parse_frame-more body after [] (ended token job_id (pos n) ∷ [])
        (try_parse_frame-end token job_id n h k small)).0 in
    let front : split_at frame_start z ≡ some ([], body ++ after) = ground arith in
    let es = ended token job_id (pos n) ∷ [] in
    let m = length all in
    let room : length after ≤ m = omega (arith, length-append before z, length-append body after) in
    feed-view [] all
    ∙ ap guarded (
        view_enough m (suc m) all (omega arith) (omega arith)
        ∙ view-plain m before z plain
        ∙ ap (join (bytes before)) (
            view-go m z [] (body ++ after) after es front parsed
            ∙ ap (join (items es)) (view_enough m (length after) after room (omega arith)))
        ∙ sym (join-join (bytes before) (items es) (view (length after) after)))
    ∙ guarded-join (bytes before ++ items es) (view (length after) after)
    ∙ ap (join (bytes before ++ items es)) (sym (feed-view [] after))
