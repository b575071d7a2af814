-- ===== src/Listener/Stages/CheckCases.antt =====
-- All that `read_cb` can do with the answer of a peer, with what each result rests on.
use vcmp.Prelude.{
  ℕ, ◌+◌, ◌≡◌, refl, ap, ◌∙◌, Option, none, some, List, [], ◌∷◌, ◌++◌, Bool, true, false, not,
  Bytes, done, arith, Holds, >>=-Holds, if-Holds, leb, ◌==◌, load_bytes, memcmp_equal, int_as_size,
  if◌then◌else◌,
}
use vcmp.Listener.State.{Peer, Env, Input, Step, ready, Call, evbuffer_drain, free_pkey, drop_peer}
use vcmp.Listener.Stages.{is_other, compare_answer, decrypt_answer, stage_pubkey_check}
use vcmp.Listener.Wire.{load_len}
use vcmp.Protocol.{data_size, type_data}
use vcmp.Rsa.{rsa_decrypt}

module _ {K C : Type 0} (env : Env K C) (keypair : K) (peer : Peer K) (input : Input) where
  -- The packet holds a payload of `len` bytes and nothing else, and its header is right.
  pub record DataPacket : Type 0 where
    pub len : ℕ
    pub len_read : load_len input.extent ≡ done len
    pub fits : int_as_size input.length ≡ data_size + len
    pub is_data : is_other input.extent type_data ≡ done false

  abbrev drained : List (Call K)
  drained = evbuffer_drain (int_as_size input.length) ∷ []

  pub data CheckStep (s : Step K) : Type 0 where
    too_short : leb (int_as_size input.length) data_size ≡ true → s ≡ drop_peer [] → CheckStep s
    refused :
        leb (int_as_size input.length) data_size ≡ false
        → s ≡ drop_peer (free_pkey peer.pubkey ∷ [])
        → CheckStep s
    failed :
        leb (int_as_size input.length) data_size ≡ false
        → s ≡ drop_peer (drained ++ (free_pkey peer.pubkey ∷ []))
        → CheckStep s
    verified :
        (p : DataPacket) (payload answer : Bytes)
        → load_bytes input.extent data_size p.len ≡ done payload
        → (rsa_decrypt env.evp env.malloc payload keypair).0 ≡ some answer
        → memcmp_equal 12 peer.authenticity answer ≡ done true
        → s ≡ record { calls = drained; peer = some (record peer { stage = ready }) }
        → CheckStep s

  module _ (long : leb (int_as_size input.length) data_size ≡ false) (p : DataPacket) where
    compare_answer-CheckStep :
        (payload answer : Bytes)
        → load_bytes input.extent data_size p.len ≡ done payload
        → (rsa_decrypt env.evp env.malloc payload keypair).0 ≡ some answer
        → Holds CheckStep (compare_answer env peer answer drained)
    unfolding compare_answer
    compare_answer-CheckStep payload answer r d =
        >>=-Holds CheckStep (memcmp_equal 12 peer.authenticity answer) _ compared
      where
        compared :
            (same : Bool)
            → memcmp_equal 12 peer.authenticity answer ≡ done same
            → CheckStep (
                if not same
                then drop_peer (drained ++ (free_pkey peer.pubkey ∷ []))
                else record { calls = drained; peer = some (record peer { stage = ready }) })
        compared true e = verified p payload answer r d e refl
        compared false e = failed long refl

    decrypt_answer-CheckStep : Holds CheckStep (decrypt_answer env keypair peer input p.len)
    unfolding decrypt_answer
    decrypt_answer-CheckStep =
        >>=-Holds CheckStep (load_bytes input.extent data_size p.len) _
          λ payload r. decrypted payload r (rsa_decrypt env.evp env.malloc payload keypair).0 refl
      where
        decrypted :
            (payload : Bytes)
            → load_bytes input.extent data_size p.len ≡ done payload
            → (o : Option Bytes) → (rsa_decrypt env.evp env.malloc payload keypair).0 ≡ o
            → Holds CheckStep (elim o [
              | none ↦ done (drop_peer (drained ++ (free_pkey peer.pubkey ∷ [])))
              | some answer ↦ compare_answer env peer answer drained
            ])
        decrypted payload r none e = failed long refl
        decrypted payload r (some answer) e = compare_answer-CheckStep payload answer r e

  pub stage_pubkey_check-CheckStep : Holds CheckStep (stage_pubkey_check env keypair peer input)
  unfolding stage_pubkey_check
  stage_pubkey_check-CheckStep =
      if-Holds CheckStep (leb (int_as_size input.length) data_size) _ _
        (λ short. too_short short refl)
        λ long. >>=-Holds CheckStep (load_len input.extent) _ λ len lr.
          if-Holds CheckStep (not (int_as_size input.length == data_size + len)) _ _
            (λ _. refused long refl)
            λ fits. >>=-Holds CheckStep (is_other input.extent type_data) _ λ other o.
              if-Holds CheckStep other _ _ (λ _. refused long refl)
                λ f. decrypt_answer-CheckStep long (record {
                  len = len;
                  len_read = lr;
                  fits = ground arith;
                  is_data = o ∙ ap done f;
                })
