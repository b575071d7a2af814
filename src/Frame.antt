-- ===== src/Frame.antt =====
-- WebSocket frames (vcmp/src/websockets/frame.c, vcmp/include/vcmp/websockets/frame.h). A pointer
-- into the buffer is its offset. The host is little endian.
pub mod Order
pub mod Mask
pub mod Parse
pub mod Make
mod Tests
use Prim.Native.Nat.{bit_and, bit_or, bit_xor}
use vcmp.Prelude.{
  ℕ, zero, suc, ◌+◌, ◌*◌, ◌/◌, ◌%◌, ◌^◌, Bool, true, false, not, Option, none, some, Outcome, done,
  fault, ◌>>=◌, Bytes, u8, u16, u32, u64, leb, ltb, ◌==◌, if◌then◌else◌, ◌||◌, load, store,
  load_bytes, load_front, store_bytes, le_bytes, le_word, ntohs, ntohl,
}

abbrev pub opcode_continuation : ℕ
opcode_continuation = 0

abbrev pub opcode_text : ℕ
opcode_text = 1

abbrev pub opcode_binary : ℕ
opcode_binary = 2

abbrev pub opcode_close : ℕ
opcode_close = 8

abbrev pub opcode_ping : ℕ
opcode_ping = 9

abbrev pub opcode_pong : ℕ
opcode_pong = 10

pub record WsFrame : Type 0 where
  pub fin : Bool
  pub opcode : ℕ
  pub len : ℕ
  pub begin : ℕ

-- The frame, the buffer with its payload unmasked, and the number returned.
pub record Parsed : Type 0 where
  pub frame : WsFrame
  pub buf : Bytes
  pub size : ℕ

-- `((uint64_t)high << 32) | low`
join_halves : ℕ → ℕ → ℕ
join_halves high low = bit_or (u64 (high * 2 ^ 32)) low

unfoldable pub ntohll : ℕ → ℕ
unfolding join_halves
ntohll net =
    let high = ntohl (u32 (net / 2 ^ 32)) in
    let low = ntohl (u32 (bit_and net 0xffff_ffff)) in join_halves high low

-- `htonl` is `ntohl` on this host.
unfoldable pub htonll : ℕ → ℕ
unfolding join_halves
htonll host =
    let high = ntohl (u32 (host / 2 ^ 32)) in
    let low = ntohl (u32 (bit_and host 0xffff_ffff)) in join_halves high low

-- The loop at index `i`, with `left` rounds to go: the payload and the key are parts of `buf`.
unmask_loop : ℕ → ℕ → Bytes → ℕ → ℕ → Outcome Bytes
unmask_loop zero i buf payload key = done buf
unmask_loop (suc left) i buf payload key = do
  k ← load buf (key + i % 4)
  x ← load buf (payload + i)
  buf' ← store buf (payload + i) (bit_xor x k)
  unmask_loop left (i + 1) buf' payload key

unfoldable pub ws_payload_unmask : Bytes → ℕ → ℕ → ℕ → Outcome Bytes
unfolding unmask_loop
ws_payload_unmask buf payload payload_len key = unmask_loop payload_len 0 buf payload key

-- The length of the payload, and the offset behind it.
read_len : Bytes → ℕ → Outcome (ℕ × ℕ)
read_len buf short =
    if short == 126
    then (do bs ← load_bytes buf 2 2; done (ntohs (le_word bs), 4))
    else if short == 127
    then (do bs ← load_bytes buf 2 8; done (ntohll (le_word bs), 10))
    else done (short, 2)

-- What follows the test of the mask bit.
parse_masked : Bytes → ℕ → ℕ → Outcome (Option Parsed)
unfolding read_len
parse_masked buf b0 short = do
  (payload_len, key) ← read_len buf short
  buf' ← ws_payload_unmask buf (key + 4) payload_len key
  done (
      some (record {
        frame = record {
          fin = not (b0 / 2 ^ 7 == 0);
          opcode = bit_and b0 0xf;
          len = payload_len;
          begin = key + 4;
        };
        buf = buf';
        size = key + 4;
      }))

-- `none` is the result -1. The parameter `buf_len` is not looked at.
unfoldable pub ws_parse_frame : Bytes → ℕ → Outcome (Option Parsed)
unfolding parse_masked
ws_parse_frame buf buf_len = do
  b0 ← load buf 0
  b1 ← load buf 1
  let payload_len = bit_and b1 0x7f
  let masked = not (b1 / 2 ^ 7 == 0)
  if not masked then done none else parse_masked buf b0 payload_len

unfoldable pub ws_calc_frame_size : ℕ → ℕ
ws_calc_frame_size payload_len =
    if leb payload_len 125 then 2 else 2 + (if leb payload_len 65535 then 2 else 8)

abbrev pub bit_of : Bool → ℕ
bit_of true = 1
bit_of false = 0

-- Bytes 1 and on, and the number of bytes of the header.
put_len : Bytes → ℕ → Outcome (ℕ × Bytes)
put_len buf payload_len =
    if leb payload_len 125
    then (do buf' ← store buf 1 (u8 payload_len); done (2, buf'))
    else if leb payload_len 65535
    then (do
      buf' ← store buf 1 126
      buf'' ← store_bytes buf' 2 (le_bytes 2 (ntohs (u16 payload_len)))
      done (4, buf''))
    else (do
      buf' ← store buf 1 127
      buf'' ← store_bytes buf' 2 (le_bytes 8 (htonll payload_len))
      done (10, buf''))

make_frame_in : Bool → ℕ → ℕ → Bytes → ℕ → Outcome (Option (ℕ × Bytes))
unfolding put_len
make_frame_in fin opcode payload_len buf buf_len = if ltb buf_len 2 then done none else do
  buf' ← store buf 0 (u8 (bit_or (bit_of fin * 2 ^ 7) opcode))
  (n, buf'') ← put_len buf' payload_len
  done (some (n, buf''))

-- The number returned and the buffer; `none` is the result -1. A null `buf_out` is `none` too.
unfoldable pub ws_make_frame : Bool → ℕ → ℕ → Option Bytes → ℕ → Outcome (Option (ℕ × Bytes))
unfolding make_frame_in
ws_make_frame fin opcode payload_len none buf_len = done none
ws_make_frame fin opcode payload_len (some buf_out) buf_len =
    make_frame_in fin opcode payload_len buf_out buf_len
