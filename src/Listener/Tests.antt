-- ===== src/Listener/Tests.antt =====
-- Runs of the listener's callback, and its theorems at them.
mod Data
use vcmp.Prelude.{
  ℕ, ◌≡◌, ◌≢◌, ◌<◌, ◌≤◌, ◌^◌, ◌∷◌, refl, Option, none, some, [], Bytes, Outcome, done, fault, arith,
  take, pos, is_positive, length, le_bytes, ◌++◌, if◌then◌else◌, leb, int_as_size, ◌%◌, true,
}
use vcmp.Listener.State.{
  Peer, Step, no_stage, ready, pubkey_check, pubkey_wait, drop_peer, evbuffer_drain,
  bufferevent_write, free_pkey,
}
use vcmp.Listener.Tests.Data.{
  sure_env, strict_env, strict_law, input_of, fresh_peer, waiting_peer, asked_peer, verify_packet,
  key_packet, answer_packet, challenge,
}
use vcmp.Listener.Challenge.{OpensslLaw, Reaches_not_ready, read_cb-challenge}
use vcmp.Listener.Progress.{
  Follows, IsValid, read_cb-Follows, Reaches, accepted, kept, Reaches-IsValid,
}
use vcmp.Listener.Freeing.{EndsRight, read_cb-EndsRight, keys_freed, read_cb-keys_freed}
use vcmp.Listener.Stages.Laws.{DerLaw, InOnePiece}
use vcmp.Listener.Stages.Bounds.{LongAnswers}
use vcmp.Listener.Bounds.{read_cb_returns}
use vcmp.Listener.Success.{read_cb_verified, read_cb_keyed}
use vcmp.Listener.Stages.Success.{with_header}
use vcmp.Listener.Stages.WaitCases.{sent_bytes}
use vcmp.Listener.Accept.{accept_conn_cb}
use vcmp.Protocol.{data_size}
use vcmp.Listener.{read_cb}
use vcmp.Rsa.{rsa_decrypt}

abbrev key_sent : Step ℕ
key_sent = record {
  calls =
      evbuffer_drain 7
      ∷ bufferevent_write (b'V' ∷ b'C' ∷ b'M' ∷ b'P' ∷ 0 ∷ 1 ∷ 2 ∷ 2 ∷ 0 ∷ 0 ∷ 0 ∷ 48 ∷ 7 ∷ [])
      ∷ [];
  peer = some waiting_peer;
}

fresh_run : read_cb strict_env 7 fresh_peer (input_of verify_packet) ≡ done key_sent
unfolding read_cb vcmp.Listener.Stages.stage_none vcmp.Listener.Stages.is_other
    vcmp.Listener.Wire.vcmp_validate vcmp.Listener.Stages.send_pubkey vcmp.Rsa.rsa_get_der_pubkey
    vcmp.Protocol.vcmp_gen_hs_header vcmp.Prelude.load_front vcmp.Listener.Stages.send_handshake
    vcmp.Protocol.handshake_bytes le_bytes
fresh_run = refl

abbrev challenge_sent : Step ℕ
challenge_sent = record {
  calls =
      evbuffer_drain 13 ∷ bufferevent_write (b'V' ∷ b'C' ∷ b'M' ∷ b'P' ∷ 0 ∷ 1 ∷ 4 ∷ 3 ∷ []) ∷ [];
  peer = some asked_peer;
}

waiting_run : read_cb strict_env 7 waiting_peer (input_of key_packet) ≡ done challenge_sent
unfolding read_cb vcmp.Listener.Stages.stage_pubkey_wait vcmp.Listener.Wire.load_keylen
    vcmp.Prelude.load_bytes vcmp.Prelude.load_front vcmp.Prelude.le_word
    vcmp.Listener.Stages.is_other vcmp.Listener.Wire.vcmp_validate vcmp.Listener.Stages.load_pubkey
    vcmp.Rsa.rsa_load_der_pubkey vcmp.Listener.Stages.send_challenge vcmp.Randdata.rand_array
    vcmp.Rsa.rsa_encrypt vcmp.Listener.Stages.send_data vcmp.Protocol.data_bytes
    vcmp.Protocol.vcmp_gen_data_header le_bytes
waiting_run = refl

abbrev ready_peer : Peer ℕ
ready_peer = record { pubkey = some 9; stage = ready; authenticity = challenge }

abbrev verified : Step ℕ
verified = record { calls = evbuffer_drain 47 ∷ []; peer = some ready_peer }

-- The library that refuses drops the peer.
refused_run :
    read_cb strict_env 7 asked_peer (input_of answer_packet)
    ≡ done (drop_peer (evbuffer_drain 47 ∷ free_pkey (some 9) ∷ []))
unfolding read_cb vcmp.Listener.Stages.stage_pubkey_check vcmp.Listener.Wire.load_len
    vcmp.Prelude.load_bytes vcmp.Prelude.load_front vcmp.Prelude.le_word
    vcmp.Listener.Stages.is_other vcmp.Listener.Wire.vcmp_validate
    vcmp.Listener.Stages.decrypt_answer vcmp.Rsa.rsa_decrypt
refused_run = refl

short_run : read_cb strict_env 7 asked_peer (input_of verify_packet) ≡ done (drop_peer [])
unfolding read_cb vcmp.Listener.Stages.stage_pubkey_check
short_run = refl

abbrev asked_Reaches : Reaches {C = ℕ} OpensslLaw 7 asked_peer
unfolding accept_conn_cb
asked_Reaches =
    kept strict_env (input_of key_packet)
      (kept strict_env (input_of verify_packet) (accepted refl) strict_law fresh_run refl)
      strict_law waiting_run refl

Reaches_not_ready_example : asked_peer.stage ≢ ready
Reaches_not_ready_example = Reaches_not_ready asked_Reaches

Reaches-IsValid_example : IsValid asked_peer
Reaches-IsValid_example = Reaches-IsValid asked_Reaches

waiting_IsValid : IsValid waiting_peer
waiting_IsValid = record { key_fits = refl; challenge_fits = refl }

read_cb-Follows_example : Follows pubkey_wait pubkey_check × IsValid asked_peer
read_cb-Follows_example =
    read_cb-Follows strict_env 7 waiting_peer (input_of key_packet) waiting_IsValid waiting_run refl

read_cb-EndsRight_example :
    EndsRight {K = ℕ} none (drop_peer (evbuffer_drain 47 ∷ free_pkey (some 9) ∷ [])).calls
unfolding drop_peer
read_cb-EndsRight_example =
    read_cb-EndsRight strict_env 7 asked_peer (input_of answer_packet) refused_run

read_cb-keys_freed_example : keys_freed {K = ℕ} (drop_peer []).calls ≡ 0
unfolding drop_peer
read_cb-keys_freed_example =
    read_cb-keys_freed strict_env 7 9 asked_peer (input_of verify_packet) refl refl short_run refl

read_cb-challenge_example :
    challenge_sent.calls
    ≡ evbuffer_drain 13
      ∷ bufferevent_write (b'V' ∷ b'C' ∷ b'M' ∷ b'P' ∷ 0 ∷ 1 ∷ 4 ∷ 259 % 256 ∷ [])
      ∷ []
read_cb-challenge_example =
    read_cb-challenge strict_env 7 waiting_peer (input_of key_packet) refl waiting_run refl

read_cb_verified_example : read_cb strict_env 7 fresh_peer (input_of verify_packet) ≡ done key_sent
unfolding le_bytes
read_cb_verified_example =
    read_cb_verified strict_env 7 fresh_peer (input_of verify_packet) [] (48 ∷ 7 ∷ []) refl refl
      (omega arith) refl (omega arith) (omega arith) refl refl

read_cb_keyed_example :
    read_cb strict_env 7 waiting_peer (input_of key_packet) ≡ done challenge_sent
unfolding le_bytes vcmp.Protocol.data_bytes vcmp.Protocol.vcmp_gen_data_header
    vcmp.Randdata.rand_array vcmp.Rsa.rsa_encrypt
read_cb_keyed_example =
    read_cb_keyed strict_env 7 waiting_peer (input_of key_packet) (48 ∷ 9 ∷ []) challenge challenge
      9 refl refl refl (omega arith) (omega arith) refl refl refl refl refl

sure_law : DerLaw sure_env.evp
sure_law = record { writes = λ k outlen der e h. ground arith }

sure_answers : LongAnswers sure_env 7
unfolding rsa_decrypt
sure_answers = λ payload answer e. ground arith

asked_IsValid : IsValid asked_peer
asked_IsValid = record { key_fits = λ e. ground arith; challenge_fits = refl }

read_cb_returns_example :
    (s : Step ℕ) × (read_cb sure_env 7 asked_peer (input_of answer_packet) ≡ done s)
read_cb_returns_example =
    read_cb_returns sure_env 7 asked_peer (input_of answer_packet) asked_IsValid sure_law
      sure_answers (record { whole = refl; fits = omega arith })
