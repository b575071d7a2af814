-- ===== src/Frame/Mask.antt =====
-- The payload is masked byte by byte with a key of four bytes.
use Prim.Native.Nat.{bit_xor}
use vcmp.Prelude.{
  ℕ, zero, suc, ◌+◌, ◌%◌, ◌≤◌, ◌<◌, ◌≡◌, refl, ap, ◌∙◌, [], ◌∷◌, ◌++◌, append_assoc, arith, some,
  done, fault, Bytes, length, length-append, length-set, set, Option-cases, inl, inr, get_elem?,
  get_elem?-append, get_elem?-append_right, get_elem?-none, store-append, bit_xor_undo,
}
use vcmp.Frame.{unmask_loop, ws_payload_unmask}
use mathlib.Core.Path.{subst}

-- Masking as a client does it: byte `i` of the payload with byte `i % 4` of the key.
abbrev pub masked : (ℕ → ℕ) → ℕ → Bytes → Bytes
masked key i [] = []
masked key i (x ∷ xs) = bit_xor x (key (i % 4)) ∷ masked key (i + 1) xs

pub length-masked : (key : ℕ → ℕ) (i : ℕ) (xs : Bytes) → length (masked key i xs) ≡ length xs
length-masked key i [] = refl
length-masked key i (x ∷ xs) = ap suc (length-masked key (i + 1) xs)

pub masked-masked : (key : ℕ → ℕ) (i : ℕ) (xs : Bytes) → masked key i (masked key i xs) ≡ xs
masked-masked key i [] = refl
masked-masked key i (x ∷ xs) = cc (bit_xor_undo x (key (i % 4)), masked-masked key (i + 1) xs)

module _ (key : ℕ → ℕ) (payload key_off : ℕ) where
  unmask_loop-masked :
      (xs pre post : Bytes) (i : ℕ)
      → ((j : ℕ) → j < 4 → get_elem? pre (key_off + j) ≡ some (key j))
      → payload + i ≡ length pre
      → unmask_loop (length xs) i (pre ++ (xs ++ post)) payload key_off
        ≡ done (pre ++ (masked key i xs ++ post))
  unfolding unmask_loop
  unmask_loop-masked [] pre post i keyed at_i = refl
  unmask_loop-masked (x ∷ xs) pre post i keyed at_i =
      let y = bit_xor x (key (i % 4)) in
      rw
        (
          get_elem?-append pre (x ∷ (xs ++ post)) (key_off + i % 4) (keyed (i % 4) (omega arith)),
          get_elem?-append_right pre (x ∷ (xs ++ post)) (payload + i) 0 (omega arith),
          store-append pre x y (xs ++ post) (payload + i) at_i,
        )
        (subst
          (λ b.
            unmask_loop (length xs) (i + 1) b payload key_off
            ≡ done (pre ++ (y ∷ (masked key (i + 1) xs ++ post))))
          (append_assoc pre (y ∷ []) (xs ++ post))
          (unmask_loop-masked xs (pre ++ (y ∷ [])) post (i + 1)
              (λ j h. get_elem?-append pre (y ∷ []) (key_off + j) (keyed j h))
              (omega (arith, length-append pre (y ∷ [])))
            ∙ ap done (append_assoc pre (y ∷ []) (masked key (i + 1) xs ++ post))))

-- With the key in front of it, the payload is unmasked where it stands and nothing else changes.
pub ws_payload_unmask_lem :
    (key : ℕ → ℕ) (pre xs post : Bytes) (payload key_off : ℕ)
    → ((j : ℕ) → j < 4 → get_elem? pre (key_off + j) ≡ some (key j))
    → payload ≡ length pre
    → ws_payload_unmask (pre ++ (xs ++ post)) payload (length xs) key_off
      ≡ done (pre ++ (masked key 0 xs ++ post))
unfolding ws_payload_unmask
ws_payload_unmask_lem key pre xs post payload key_off keyed e =
    unmask_loop-masked key payload key_off xs pre post 0 keyed (omega arith)

-- A payload that is longer than the rest of the buffer is unmasked past its end.
unmask_loop_overrun :
    (left i : ℕ) (buf : Bytes) (payload key_off : ℕ)
    → payload + i ≤ length buf
    → length buf < payload + i + left
    → unmask_loop left i buf payload key_off ≡ fault
unfolding unmask_loop
unmask_loop_overrun zero i buf payload key_off lo h = absurd (omega arith)
unmask_loop_overrun (suc left) i buf payload key_off lo h =
    elim (Option-cases (get_elem? buf (key_off + i % 4))) [
      | inl e ↦ rw e
      | inr (k, e) ↦ elim (Option-cases (get_elem? buf (payload + i))) [
        | inl e' ↦ rw (e, e')
        | inr (x, e') ↦
            rw (e, e')
              (ground (
                arith,
                get_elem?-none buf (payload + i),
                length-set buf (payload + i) (bit_xor x k),
                unmask_loop_overrun left (i + 1) (set buf (payload + i) (bit_xor x k)) payload
                    key_off,
              ))
      ]
    ]

pub ws_payload_unmask_overrun :
    (buf : Bytes) (payload payload_len key_off : ℕ)
    → payload ≤ length buf
    → length buf < payload + payload_len
    → ws_payload_unmask buf payload payload_len key_off ≡ fault
unfolding ws_payload_unmask
ws_payload_unmask_overrun buf payload payload_len key_off lo h =
    unmask_loop_overrun payload_len 0 buf payload key_off (omega arith) (omega arith)
