-- ===== src/Framing.antt =====
-- communication/asio_framing.hpp: frames of a length in four bytes, the highest first, and a payload. The stream is the
-- list of the bytes still to come, and `async_read` reads exactly as many bytes as it was asked for or reports an
-- error. A byte is a number below 256.
use velix.Prelude.{
  nat_eq, ℕ, ◌+◌, ◌*◌, ◌/◌, ◌%◌, ◌^◌, ◌<◌, ◌==◌, ◌||◌, ◌++◌, [], ◌∷◌, ◌≡◌, arith, length, take,
  drop, ltb, leb, Str, refl, ◌∙◌, length-append, if◌then◌else◌,
}

-- std::array<unsigned char, 4>
pub record Header : Type 0 where
  pub b0 : ℕ
  pub b1 : ℕ
  pub b2 : ℕ
  pub b3 : ℕ

-- The shifts put the four bytes in disjoint ranges, so `|` is a sum.
unfoldable pub decode_frame_length : Header → ℕ
decode_frame_length h = (h.b0 * 2 ^ 24 + h.b1 * 2 ^ 16 + h.b2 * 2 ^ 8 + h.b3) % 2 ^ 32

unfoldable pub encode_frame_length : ℕ → Header
encode_frame_length length = record {
  b0 = length / 2 ^ 24 % 256;
  b1 = length / 2 ^ 16 % 256;
  b2 = length / 2 ^ 8 % 256;
  b3 = length % 256;
}

unfoldable pub make_frame : Str → Str
unfolding encode_frame_length
make_frame payload =
    let h = encode_frame_length (length payload % 2 ^ 32) in h.b0 ∷ h.b1 ∷ h.b2 ∷ h.b3 ∷ payload

-- What the handler gets, and the bytes that stay in the stream.
pub data ReadResult : Type 0 where
  stream_error : ReadResult
  message_size : Str → ReadResult
  frame : Str → Str → ReadResult

-- The second read, of the payload.
unfoldable pub read_payload : ℕ → Str → ReadResult
read_payload size stream =
    if leb size (length stream) then frame (take size stream) (drop size stream) else stream_error

unfoldable pub async_read_frame : ℕ → Str → ReadResult
unfolding decode_frame_length read_payload
async_read_frame max_message_bytes (b0 ∷ b1 ∷ b2 ∷ b3 ∷ stream) =
    let size = decode_frame_length (record { b0 = b0; b1 = b1; b2 = b2; b3 = b3 }) in
    if size == 0 || ltb max_message_bytes size
    then message_size stream
    else read_payload size stream
async_read_frame max_message_bytes _ = stream_error

decode-encode_frame_length : (n : ℕ) → n < 2 ^ 32 → decode_frame_length (encode_frame_length n) ≡ n
unfolding decode_frame_length encode_frame_length
decode-encode_frame_length n h = omega arith

take-append : (xs ys : Str) → take (length xs) (xs ++ ys) ≡ xs
take-append [] ys = refl
take-append (x ∷ xs) ys = rw (take-append xs ys)

drop-append : (xs ys : Str) → drop (length xs) (xs ++ ys) ≡ ys
drop-append [] ys = refl
drop-append (x ∷ xs) ys = drop-append xs ys

-- The header of a payload whose length fits 32 bits gives that length.
header_length :
    (payload : Str)
    → length payload < 2 ^ 32
    → decode_frame_length (encode_frame_length (length payload % 2 ^ 32)) ≡ length payload
header_length payload h =
    decode-encode_frame_length (length payload % 2 ^ 32) (omega arith) ∙ omega arith

read_payload-append :
    (payload rest : Str) → read_payload (length payload) (payload ++ rest) ≡ frame payload rest
unfolding read_payload
read_payload-append payload rest =
    ground (arith, length-append payload rest, take-append payload rest, drop-append payload rest)

-- A frame that make_frame wrote, with more bytes behind it, is read back as its payload, and the bytes behind it stay,
-- unless the payload is empty or longer than the limit: then the reader reports message_size. The payload's length fits
-- 32 bits.
pub async_read_frame-make_frame :
    (max_message_bytes : ℕ) (payload rest : Str)
    → length payload < 2 ^ 32
    → async_read_frame max_message_bytes (make_frame payload ++ rest) ≡ (
        if length payload == 0 || ltb max_message_bytes (length payload)
        then message_size (payload ++ rest)
        else frame payload rest)
unfolding async_read_frame make_frame
async_read_frame-make_frame max_message_bytes payload rest h =
    ground (arith, header_length payload h, read_payload-append payload rest)
