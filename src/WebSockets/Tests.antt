-- ===== src/WebSockets/Tests.antt =====
-- A client that shakes hands, sends a frame and closes. The key and its answer are those of RFC 6455;
-- the hash is the key itself, and the encoding is fixed.
use vcmp.Prelude.{ℕ, ◌≡◌, refl, [], ◌∷◌, ◌++◌, true, false, done, Bytes, arith, pos}
use vcmp.Libevent.{Input}
use vcmp.Handshake.Tests.{Table, listed, zero_malloc}
use vcmp.Handshake.Lines.{Header}
use vcmp.Handshake.Requests.{header_lines}
use vcmp.Frame.Mask.{masked}
use vcmp.Frame.Parse.{MaskingKey, key_at, client_header}
use vcmp.WebSockets.State.{
  WsClient, WsCtx, Env, client_ctx, accept_cb, close_cb, read_cb_of, bufferevent_write,
}
use vcmp.WebSockets.{read_cb, key_name}
use vcmp.WebSockets.Order.{InOrder, read_cb-InOrder}
use vcmp.WebSockets.Replies.{drained, read_cb_passes, read_cb_closes}
use vcmp.Randdata.{codes}

abbrev pub env : Env Table
env = record {
  entries = zero_malloc;
  uthash = listed;
  malloc = λ n. true;
  sha1 = λ b. b;
  encode_block = λ b. codes "s3pPLMBiTxaQ9kYGzzhZRbK+xOo=";
  write = λ b. pos 0;
}

abbrev all_cbs : WsCtx
all_cbs = record { read_cb = true; accept_cb = true; close_cb = true }

abbrev pub new_client : WsClient
new_client = record { handshake_done = false; disconnect = false; ctx = 0 }

abbrev pub old_client : WsClient
old_client = record { handshake_done = true; disconnect = false; ctx = 0 }

abbrev mask : MaskingKey
mask = record { k0 = 0x37; k1 = 0xfa; k2 = 0x21; k3 = 0x3d }

abbrev hello : Bytes
hello = codes "Hello"

abbrev frame_input : ℕ → Input
frame_input opcode = record {
  length = 11;
  extent = client_header true opcode 5 mask ++ (masked (key_at mask) 0 hello ++ []);
}

read_cb_passes_example :
    read_cb env all_cbs old_client (frame_input 1)
    ≡ done (record { calls = read_cb_of 1 6 5 (client_ctx 0) ∷ drained 11 11; client = old_client })
read_cb_passes_example =
    read_cb_passes env all_cbs old_client (frame_input 1) true mask hello [] refl (omega arith) 1
      (omega arith) (λ e. ground arith) refl

read_cb_closes_example :
    read_cb env all_cbs old_client (frame_input 8)
    ≡ done (record {
      calls = close_cb (client_ctx 0) ∷ bufferevent_write (136 ∷ 5 ∷ []) ∷ drained 11 11;
      client = record old_client { disconnect = true };
    })
read_cb_closes_example =
    read_cb_closes env all_cbs old_client (frame_input 8) true mask hello [] refl (omega arith)
      (omega arith) refl refl

read_cb-InOrder_example :
    InOrder env all_cbs old_client
      (record { calls = read_cb_of 1 6 5 (client_ctx 0) ∷ drained 11 11; client = old_client })
read_cb-InOrder_example =
    read_cb-InOrder env all_cbs old_client (frame_input 1) read_cb_passes_example

abbrev key_header : Header
key_header = record { name = key_name; value = codes "dGhlIHNhbXBsZSBub25jZQ==" }

abbrev request_input : Input
request_input = record {
  length = 51;
  extent = codes "GET" ++ (b'\n' ∷ header_lines (key_header ∷ []) []);
}
