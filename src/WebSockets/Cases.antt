-- ===== src/WebSockets/Cases.antt =====
-- All that a WebSocket client's callback can do.
use vcmp.Prelude.{
  ℕ, ◌+◌, ◌≡◌, refl, Option, none, some, List, [], ◌∷◌, ◌++◌, Bool, true, false, not, Outcome, done,
  fault, Bytes, Holds, >>=-Holds, if-Holds, Holds-done, ◌==◌, if◌then◌else◌, is_zero, arith,
  int_as_size, take, length, load_front,
}
use vcmp.Libevent.{Input}
use vcmp.Handshake.Entries.{Entry}
use vcmp.Prelude.{zeros}
use vcmp.Prelude.{string_of}
use vcmp.Handshake.{ws_parse_handshake, ws_header_get}
use vcmp.Frame.{Parsed, ws_parse_frame, ws_make_frame, opcode_close}
use vcmp.WebSockets.State.{
  WsClient, WsCtx, Env, client_ctx, Call, accept_cb, close_cb, bufferevent_write, bufferevent_free,
  evbuffer_drain, ws_free_handshake, Step,
}
use vcmp.WebSockets.{
  send_response, answer_key, read_handshake, drain_frame, answer_close, pass_frame, read_frame,
  read_cb, key_name, int_rounds, response, ws_magic,
}

module _ {H : Type 0} (env : Env H) (ctx : WsCtx) (cl : WsClient) (input : Input) where
  abbrev pub closing : Bytes → List Call
  closing sent =
      (if ctx.close_cb then close_cb (client_ctx cl.ctx) ∷ [] else [])
      ++ (bufferevent_write sent ∷ [])

  abbrev pub answering : ℕ → Bytes → List Call
  answering len sent = ws_free_handshake ∷ evbuffer_drain len ∷ bufferevent_write sent ∷ []

  -- What a request leads to: no headers, no key or no memory; no answer; or the handshake.
  pub data RequestStep (s : Step) : Type 0 where
    no_headers : s ≡ record { calls = bufferevent_free ∷ []; client = cl } → RequestStep s
    no_key :
        s ≡ record { calls = ws_free_handshake ∷ bufferevent_free ∷ []; client = cl }
        → RequestStep s
    unsent :
        (len : ℕ) (sent : Bytes)
        → s ≡ record { calls = answering len sent ++ (bufferevent_free ∷ []); client = cl }
        → RequestStep s
    accepted :
        (len : ℕ) (sent : Bytes)
        → s ≡ record {
          calls = answering len sent ++ (if ctx.accept_cb then accept_cb ∷ [] else []);
          client = record cl { handshake_done = true };
        }
        → RequestStep s

  -- What a frame leads to: one that is not masked; a close frame that is not answered, and one that is;
  -- and any other frame.
  pub data FrameStep (s : Step) : Type 0 where
    malformed :
        ws_parse_frame input.extent (int_as_size input.length) ≡ done none
        → s ≡ record { calls = bufferevent_free ∷ []; client = cl }
        → FrameStep s
    unanswered :
        (sent : Bytes)
        → s ≡ record { calls = closing sent ++ (bufferevent_free ∷ []); client = cl }
        → FrameStep s
    closed :
        (sent : Bytes) (p : Parsed)
        → s ≡ record {
          calls = closing sent ++ drain_frame input p;
          client = record cl { disconnect = true };
        }
        → FrameStep s
    passed : (p : Parsed) → s ≡ pass_frame env ctx cl input p → FrameStep s

  send_response-RequestStep :
      (len : ℕ) (hash : Bytes) → Holds RequestStep (send_response env ctx cl len hash)
  unfolding send_response
  send_response-RequestStep len hash =
      let text = response (env.encode_block hash) in
      >>=-Holds RequestStep (load_front (length text) (take 1023 text ++ (0 ∷ []))) _
        λ sent e. written sent (is_zero (env.write sent))
    where
      written :
          (sent : Bytes) (b : Bool)
          → RequestStep (
              if not b
              then record { calls = answering len sent ++ (bufferevent_free ∷ []); client = cl }
              else record {
                calls = answering len sent ++ (if ctx.accept_cb then accept_cb ∷ [] else []);
                client = record cl { handshake_done = true };
              })
      written sent true = accepted len sent refl
      written sent false = unsent len sent refl

  answer_key-RequestStep :
      (len : ℕ) (entry : Entry) → Holds RequestStep (answer_key env ctx cl len entry)
  unfolding answer_key
  answer_key-RequestStep len entry = >>=-Holds RequestStep (string_of entry.value) _ λ key e.
      if-Holds RequestStep (not (env.malloc (length key + 37))) _ _ (λ _. no_key refl)
        (λ _. send_response-RequestStep len (env.sha1 (key ++ ws_magic)))

  read_handshake-RequestStep : Holds RequestStep (read_handshake env ctx cl input)
  unfolding read_handshake
  read_handshake-RequestStep =
      >>=-Holds RequestStep
        (ws_parse_handshake env.uthash env.entries input.extent (int_rounds input.length)) _
        λ parsed e. at_table parsed
    where
      at_entry :
          (o : Option Entry)
          → Holds {A = Step} RequestStep (elim o [
            | none ↦
                done (record { calls = ws_free_handshake ∷ bufferevent_free ∷ []; client = cl })
            | some entry ↦ answer_key env ctx cl (int_as_size input.length) entry
          ])
      at_entry none = no_key refl
      at_entry (some entry) = answer_key-RequestStep (int_as_size input.length) entry

      at_table :
          (o : Option H)
          → Holds {A = Step} RequestStep (elim o [
            | none ↦ done (record { calls = bufferevent_free ∷ []; client = cl })
            | some head ↦ elim (ws_header_get env.uthash head key_name) [
              | none ↦
                  done (record { calls = ws_free_handshake ∷ bufferevent_free ∷ []; client = cl })
              | some entry ↦ answer_key env ctx cl (int_as_size input.length) entry
            ]
          ])
      at_table none = no_headers refl
      at_table (some head) = at_entry (ws_header_get env.uthash head key_name)

  answer_close-FrameStep : (p : Parsed) → Holds FrameStep (answer_close env ctx cl input p)
  unfolding answer_close
  answer_close-FrameStep p =
      >>=-Holds FrameStep (ws_make_frame true p.frame.opcode p.frame.len (some (zeros 256)) 256) _
        λ made e. at_made made
    where
      written :
          (sent : Bytes) (b : Bool)
          → FrameStep (
              if not b
              then record { calls = closing sent ++ (bufferevent_free ∷ []); client = cl }
              else record {
                calls = closing sent ++ drain_frame input p;
                client = record cl { disconnect = true };
              })
      written sent true = closed sent p refl
      written sent false = unanswered sent refl

      at_made :
          (o : Option (ℕ × Bytes))
          → Holds {A = Step} FrameStep (elim o [
            | none ↦ fault
            | some (n, tmp) ↦ done (
                if not (is_zero (env.write (take n tmp)))
                then record { calls = closing (take n tmp) ++ (bufferevent_free ∷ []); client = cl }
                else record {
                  calls = closing (take n tmp) ++ drain_frame input p;
                  client = record cl { disconnect = true };
                })
          ])
      at_made none = tt
      at_made (some (n, tmp)) = written (take n tmp) (is_zero (env.write (take n tmp)))

  read_frame-FrameStep : Holds FrameStep (read_frame env ctx cl input)
  unfolding read_frame
  read_frame-FrameStep =
      >>=-Holds FrameStep (ws_parse_frame input.extent (int_as_size input.length)) _
        λ parsed e. at_parsed parsed e
    where
      at_opcode :
          (p : Parsed) (b : Bool)
          → Holds {A = Step} FrameStep (elim b [
            | true ↦ answer_close env ctx cl input p
            | false ↦ done (pass_frame env ctx cl input p)
          ])
      at_opcode p true = answer_close-FrameStep p
      at_opcode p false = passed p refl

      at_parsed :
          (o : Option Parsed)
          → ws_parse_frame input.extent (int_as_size input.length) ≡ done o
          → Holds {A = Step} FrameStep (elim o [
            | none ↦ done (record { calls = bufferevent_free ∷ []; client = cl })
            | some p ↦ elim (p.frame.opcode == opcode_close) [
              | true ↦ answer_close env ctx cl input p
              | false ↦ done (pass_frame env ctx cl input p)
            ]
          ])
      at_parsed none e = malformed e refl
      at_parsed (some p) e = at_opcode p (p.frame.opcode == opcode_close)

  pub data ReadStep (s : Step) : Type 0 where
    request : cl.handshake_done ≡ false → RequestStep s → ReadStep s
    frame : cl.handshake_done ≡ true → FrameStep s → ReadStep s

  pub read_cb-ReadStep : {s : Step} → read_cb env ctx cl input ≡ done s → ReadStep s
  unfolding read_cb
  read_cb-ReadStep h =
      Holds-done ReadStep (read_cb env ctx cl input)
        (if-Holds ReadStep (not cl.handshake_done) (read_handshake env ctx cl input)
          (read_frame env ctx cl input)
          (λ e.
            on_request (read_handshake env ctx cl input) (ground arith) read_handshake-RequestStep)
          (λ e. on_frame (read_frame env ctx cl input) (ground arith) read_frame-FrameStep))
        h
    where
      on_request :
          (m : Outcome Step)
          → cl.handshake_done ≡ false
          → Holds {A = Step} RequestStep m
          → Holds {A = Step} ReadStep m
      on_request (done s) e r = request e r
      on_request fault e r = tt

      on_frame :
          (m : Outcome Step)
          → cl.handshake_done ≡ true
          → Holds {A = Step} FrameStep m
          → Holds {A = Step} ReadStep m
      on_frame (done s) e r = frame e r
      on_frame fault e r = tt
