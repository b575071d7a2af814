-- ===== src/Frame/Tests.antt =====
-- Frames on the wire, and the theorems at them. The masked text is the example of RFC 6455.
use vcmp.Prelude.{
  ℕ, ◌+◌, ◌*◌, ◌/◌, ◌%◌, ◌^◌, ◌≡◌, refl, Option, none, some, List, [], ◌∷◌, ◌++◌, Bool, true, false,
  Bytes, Outcome, done, fault, arith, length, le_word, be_bytes,
}
use vcmp.Frame.{
  WsFrame, Parsed, ws_parse_frame, ws_make_frame, ws_calc_frame_size, ntohll, htonll, opcode_text,
  opcode_binary,
}
use vcmp.Frame.Mask.{masked}
use vcmp.Frame.Parse.{
  MaskingKey, key_at, client_header, parse_result, ws_parse_frame-client_header,
  ws_parse_frame_long,
}
use vcmp.Frame.Make.{server_header, ws_make_frame-server_header}
use vcmp.Randdata.{codes}

abbrev rfc_key : MaskingKey
rfc_key = record { k0 = 0x37; k1 = 0xfa; k2 = 0x21; k3 = 0x3d }

abbrev hello : Bytes
hello = codes "Hello"

-- `81 85 37 fa 21 3d 7f 9f 4d 51 58` is a text frame with "Hello".
hello_run :
    ws_parse_frame
      (0x81 ∷ 0x85 ∷ 0x37 ∷ 0xfa ∷ 0x21 ∷ 0x3d ∷ 0x7f ∷ 0x9f ∷ 0x4d ∷ 0x51 ∷ 0x58 ∷ [])
      11
    ≡ done (
        some (record {
          frame = record { fin = true; opcode = opcode_text; len = 5; begin = 6 };
          buf = 0x81 ∷ 0x85 ∷ 0x37 ∷ 0xfa ∷ 0x21 ∷ 0x3d ∷ hello;
          size = 6;
        }))
unfolding ws_parse_frame vcmp.Frame.ws_payload_unmask
hello_run = refl

-- 70000 is 0x11170: the halves of the length go out exchanged.
long_make_run :
    ws_make_frame true opcode_binary 70000 (some (0 ∷ 0 ∷ 0 ∷ 0 ∷ 0 ∷ 0 ∷ 0 ∷ 0 ∷ 0 ∷ 0 ∷ [])) 10
    ≡ done (some (10, 0x82 ∷ 127 ∷ 0 ∷ 1 ∷ 0x11 ∷ 0x70 ∷ 0 ∷ 0 ∷ 0 ∷ 0 ∷ []))
unfolding ws_make_frame vcmp.Prelude.store_bytes vcmp.Prelude.le_bytes htonll vcmp.Prelude.ntohl
long_make_run = refl

ws_parse_frame-client_header_example :
    ws_parse_frame (client_header true 1 5 rfc_key ++ (masked (key_at rfc_key) 0 hello ++ [])) 11
    ≡ done (some (parse_result true 1 (client_header true 1 5 rfc_key) hello []))
ws_parse_frame-client_header_example =
    ws_parse_frame-client_header true 1 rfc_key hello [] 11 (omega arith) (omega arith)

ws_parse_frame_long_example :
    ws_parse_frame (client_header true 2 70000 rfc_key ++ hello) 19 ≡ fault
ws_parse_frame_long_example =
    ws_parse_frame_long true 2 70000 19 rfc_key hello (omega arith) (omega arith) (omega arith)
      (omega arith)

ws_make_frame-server_header_example :
    ws_make_frame true 1 300 (some (9 ∷ 9 ∷ ((9 ∷ 9 ∷ []) ++ hello))) 9
    ≡ done (some (ws_calc_frame_size 300, server_header true 1 300 ++ hello))
unfolding ws_calc_frame_size
ws_make_frame-server_header_example =
    ws_make_frame-server_header true 1 300 9 9 9 (9 ∷ 9 ∷ []) hello (omega arith) (omega arith)
      (omega arith) refl
