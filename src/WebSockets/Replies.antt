-- ===== src/WebSockets/Replies.antt =====
-- What the server answers to requests and frames.
use vcmp.Prelude.{
  none, ℕ, ◌+◌, ◌-◌, ◌^◌, ◌%◌, ◌≤◌, ◌<◌, ◌≡◌, ◌≢◌, refl, ap, ◌∙◌, some, List, [], ◌∷◌, ◌++◌, Bool,
  true, false, not, Outcome, done, Bytes, leb, leb-true, be_bytes, Bool-cases, inl, inr, ◌==◌,
  ==_false, if◌then◌else◌, is_zero, arith, int_as_size, length,
}
use vcmp.Libevent.{Input}
use vcmp.Prelude.{zeros}
use vcmp.Frame.{Parsed, ws_parse_frame, ws_make_frame, ws_calc_frame_size, opcode_close}
use vcmp.Frame.Mask.{masked}
use vcmp.Frame.Parse.{MaskingKey, key_at, client_header, parse_result, ws_parse_frame-client_header}
use vcmp.Frame.Make.{ws_make_frame-server_header}
use vcmp.WebSockets.State.{
  WsClient, WsCtx, Env, client_ctx, Call, close_cb, read_cb_of, bufferevent_write, bufferevent_free,
  evbuffer_drain, bufferevent_trigger, Step,
}
use vcmp.WebSockets.{drain_frame, answer_close, pass_frame, read_frame, read_handshake, read_cb}

-- What is drained of a buffer of `n` bytes, and whether the callback runs again.
abbrev pub drained : ℕ → ℕ → List Call
drained n size = evbuffer_drain size ∷ (if leb 2 (n - size) then bufferevent_trigger ∷ [] else [])

small_size : (n : ℕ) → n ≤ 125 → 2 ≡ ws_calc_frame_size n
unfolding ws_calc_frame_size
small_size n small = rw (leb-true n 125 small) refl

close_made :
    (n : ℕ)
    → n ≤ 125
    → ws_make_frame true 8 n (some (zeros 256)) 256 ≡ done (some (2, 136 ∷ n ∷ zeros 254))
close_made n small =
    ws_make_frame-server_header true 8 n 0 0 256 [] (zeros 254) (omega arith) (omega arith)
      (omega arith) (small_size n small)
    ∙ rw (← small_size n small) (rw (leb-true n 125 small) refl)

length-client_header :
    (fin : Bool) (opcode n : ℕ) (k : MaskingKey)
    → n ≤ 65535
    → length (client_header fin opcode n k) ≡ (if leb n 125 then 6 else 8)
unfolding be_bytes
length-client_header fin opcode n k h = elim (Bool-cases (leb n 125)) [
  | inl e ↦ rw e refl
  | inr e ↦ rw (e, leb-true n 65535 h) refl
]

module _ {H : Type 0} (env : Env H) (ctx : WsCtx) (cl : WsClient) (input : Input) where
  read_cb-read_frame :
      cl.handshake_done ≡ true → read_cb env ctx cl input ≡ read_frame env ctx cl input
  unfolding read_cb
  read_cb-read_frame e =
      ap (λ b. if not b then read_handshake env ctx cl input else read_frame env ctx cl input) e

  read_frame_malformed :
      ws_parse_frame input.extent (int_as_size input.length) ≡ done none
      → read_frame env ctx cl input ≡ done (record { calls = bufferevent_free ∷ []; client = cl })
  unfolding read_frame
  read_frame_malformed unmasked = rw unmasked refl

  -- A frame that is not masked frees the bufferevent, and tells the application nothing.
  pub read_cb_malformed :
      cl.handshake_done ≡ true
      → ws_parse_frame input.extent (int_as_size input.length) ≡ done none
      → read_cb env ctx cl input ≡ done (record { calls = bufferevent_free ∷ []; client = cl })
  read_cb_malformed shaken unmasked = read_cb-read_frame shaken ∙ read_frame_malformed unmasked

  module _ (p : Parsed)
      (parsed : ws_parse_frame input.extent (int_as_size input.length) ≡ done (some p)) where
    abbrev branch : Bool → Outcome Step
    branch true = answer_close env ctx cl input p
    branch false = done (pass_frame env ctx cl input p)

    read_frame-pass_frame :
        (p.frame.opcode == opcode_close) ≡ false
        → read_frame env ctx cl input ≡ done (pass_frame env ctx cl input p)
    unfolding read_frame
    read_frame-pass_frame e = rw parsed (ap branch e)

    read_frame-answer_close :
        (p.frame.opcode == opcode_close) ≡ true
        → read_frame env ctx cl input ≡ answer_close env ctx cl input p
    unfolding read_frame
    read_frame-answer_close e = rw parsed (ap branch e)

module _ {H : Type 0} (env : Env H) (ctx : WsCtx) (cl : WsClient) (input : Input) (fin : Bool)
    (k : MaskingKey) (payload rest : Bytes) (shaken : cl.handshake_done ≡ true)
    (fits : length payload ≤ 65535) where
  drain_frame-drained :
      (opcode : ℕ)
      → let header = client_header fin opcode (length payload) k in
        drain_frame input (parse_result fin opcode header payload rest)
        ≡ drained input.length (length header + length payload)
  unfolding drain_frame
  drain_frame-drained opcode =
      let header = client_header fin opcode (length payload) k in
      let whole : (length header + length payload) % 2 ^ 64 ≡ length header + length payload =
        ground (arith, length-client_header fin opcode (length payload) k fits) in
      rw whole refl

  frame_parsed :
      (opcode : ℕ)
      → opcode < 16
      → let header = client_header fin opcode (length payload) k in
        input.extent ≡ header ++ (masked (key_at k) 0 payload ++ rest)
        → ws_parse_frame input.extent (int_as_size input.length)
          ≡ done (some (parse_result fin opcode header payload rest))
  frame_parsed opcode op_fits packet =
      ap (λ b. ws_parse_frame b (int_as_size input.length)) packet
      ∙ ws_parse_frame-client_header fin opcode k payload rest (int_as_size input.length) op_fits
          fits

  -- A frame of a client that has shaken hands, other than a close frame, with an opcode of four bits and
  -- at most 65535 bytes of payload, is passed on to the application with its opcode, the place of its
  -- payload and its length, and drained together with its payload; the client stays as it is.
  pub read_cb_passes :
      (opcode : ℕ)
      → opcode < 16
      → opcode ≢ 8
      → let header = client_header fin opcode (length payload) k in
        input.extent ≡ header ++ (masked (key_at k) 0 payload ++ rest)
        → read_cb env ctx cl input
          ≡ done (record {
            calls =
                (if ctx.read_cb
                  then read_cb_of opcode (length header) (length payload) (client_ctx cl.ctx) ∷ []
                  else [])
                ++ drained input.length (length header + length payload);
            client = cl;
          })
  unfolding pass_frame
  read_cb_passes opcode op_fits other packet =
      let header = client_header fin opcode (length payload) k in
      let told : List Call =
        if ctx.read_cb
        then read_cb_of opcode (length header) (length payload) (client_ctx cl.ctx) ∷ []
        else [] in
      read_cb-read_frame env ctx cl input shaken
      ∙ read_frame-pass_frame env ctx cl input (parse_result fin opcode header payload rest)
          (frame_parsed opcode op_fits packet) (==_false opcode 8 other)
      ∙ ap (λ cs. done (record { calls = told ++ cs; client = cl })) (drain_frame-drained opcode)

  -- A close frame of a client that has shaken hands, with at most 125 bytes of payload, is answered, if the
  -- write is made, by a header that announces as many bytes of payload and by nothing more; the
  -- application is told before, and the frame is drained. The client is marked, but neither it nor
  -- its bufferevent is freed.
  pub read_cb_closes :
      length payload ≤ 125
      → let header = client_header fin 8 (length payload) k in
        input.extent ≡ header ++ (masked (key_at k) 0 payload ++ rest)
        → is_zero (env.write (136 ∷ length payload ∷ [])) ≡ true
        → read_cb env ctx cl input
          ≡ done (record {
            calls =
                ((if ctx.close_cb then close_cb (client_ctx cl.ctx) ∷ [] else [])
                  ++ (bufferevent_write (136 ∷ length payload ∷ []) ∷ []))
                ++ drained input.length (length header + length payload);
            client = record cl { disconnect = true };
          })
  unfolding answer_close
  read_cb_closes small packet sent =
      let header = client_header fin 8 (length payload) k in
      let told : List Call =
        (if ctx.close_cb then close_cb (client_ctx cl.ctx) ∷ [] else [])
        ++ (bufferevent_write (136 ∷ length payload ∷ []) ∷ []) in
      read_cb-read_frame env ctx cl input shaken
      ∙ read_frame-answer_close env ctx cl input (parse_result fin 8 header payload rest)
          (frame_parsed 8 (omega arith) packet) refl
      ∙ rw (close_made (length payload) small) (rw sent refl)
      ∙ ap (λ cs. done (record { calls = told ++ cs; client = record cl { disconnect = true } }))
          (drain_frame-drained 8)
