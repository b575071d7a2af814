-- ===== src/Frame/Parse.antt =====
-- What `ws_parse_frame` makes of the frames that a client sends.
use Prim.Native.Nat.{bit_and}
use vcmp.Prelude.{
  ℕ, suc, ◌+◌, ◌*◌, ◌/◌, ◌%◌, ◌^◌, ◌≤◌, ◌<◌, ◌≡◌, refl, ap, ◌∙◌, [], ◌∷◌, ◌++◌, append_assoc, arith,
  Bool, true, false, not, some, done, fault, Bytes, length, length-append, get_elem?,
  get_elem?-get_or, get_elem?-append_right, get_or, load_bytes-append, le_word, be_bytes, leb,
  leb-true, leb-false, ◌==◌, if◌then◌else◌, bit_and_mask, Bool-cases, inl, inr,
}
use vcmp.Frame.{Parsed, bit_of, read_len, parse_masked, ws_parse_frame, ws_payload_unmask}
use vcmp.Frame.Order.{ntohs-le_word, ntohll_network}
use vcmp.Frame.Mask.{
  masked, masked-masked, length-masked, ws_payload_unmask_lem, ws_payload_unmask_overrun,
}

-- The 7 bits for the length, and the bytes that follow them (RFC 6455, section 5.2).
abbrev pub short_len : ℕ → ℕ
short_len n = if leb n 125 then n else if leb n 65535 then 126 else 127

abbrev pub extended_len : ℕ → Bytes
extended_len n = if leb n 125 then [] else if leb n 65535 then be_bytes 2 n else be_bytes 8 n

pub record MaskingKey : Type 0 where
  pub k0 : ℕ
  pub k1 : ℕ
  pub k2 : ℕ
  pub k3 : ℕ

abbrev pub key_bytes : MaskingKey → Bytes
key_bytes k = k.k0 ∷ k.k1 ∷ k.k2 ∷ k.k3 ∷ []

abbrev pub key_at : MaskingKey → ℕ → ℕ
key_at k j = get_or (key_bytes k) j 0

-- The header of a client's frame with `n` bytes of payload.
abbrev pub client_header : Bool → ℕ → ℕ → MaskingKey → Bytes
client_header fin opcode n k =
    (bit_of fin * 128 + opcode) ∷ (128 + short_len n) ∷ (extended_len n ++ key_bytes k)

low_seven : (s : ℕ) → s < 128 → bit_and (128 + s) 0x7f ≡ s
low_seven s h = omega (arith, bit_and_mask 7 (128 + s))

low_four : (f s : ℕ) → s < 16 → bit_and (f * 128 + s) 0xf ≡ s
low_four f s h = omega (arith, bit_and_mask 4 (f * 128 + s))

top_bit : (fin : Bool) (s : ℕ) → s < 16 → not ((bit_of fin * 128 + s) / 2 ^ 7 == 0) ≡ fin
top_bit true s h = ground arith
top_bit false s h = ground arith

read_len_short : (buf : Bytes) (n : ℕ) → n ≤ 125 → read_len buf n ≡ done (n, 2)
unfolding read_len
read_len_short buf n h = ground arith

read_len_two :
    (b0 b1 n : ℕ) (rest : Bytes)
    → n ≤ 65535
    → read_len (b0 ∷ b1 ∷ (be_bytes 2 n ++ rest)) 126 ≡ done (n, 4)
unfolding read_len be_bytes le_word
read_len_two b0 b1 n rest h =
    rw (load_bytes-append (b0 ∷ b1 ∷ []) (n / 256 % 256 ∷ n / 1 % 256 ∷ []) rest 2 2 refl refl)
      (ap (λ (t : ℕ). done (t, 4)) (ground (arith, ntohs-le_word (n / 256 % 256) (n / 1 % 256))))

read_len_eight :
    (b0 b1 n : ℕ) (rest : Bytes)
    → n < 2 ^ 64
    → read_len (b0 ∷ b1 ∷ (be_bytes 8 n ++ rest)) 127 ≡ done (n % 2 ^ 32 * 2 ^ 32 + n / 2 ^ 32, 10)
unfolding read_len
read_len_eight b0 b1 n rest h =
    rw (load_bytes-append (b0 ∷ b1 ∷ []) (be_bytes 8 n) rest 2 8 refl (unfold be_bytes in refl))
      (ap (λ (t : ℕ). done (t, 10)) (ntohll_network n h))

-- The length is read back where it has 16 bits or fewer.
read_len-extended_len :
    (b0 b1 n : ℕ) (rest : Bytes)
    → n ≤ 65535
    → read_len (b0 ∷ b1 ∷ (extended_len n ++ rest)) (short_len n)
      ≡ done (n, 2 + length (extended_len n))
read_len-extended_len b0 b1 n rest h = elim (Bool-cases (leb n 125)) [
  | inl e ↦ rw e (read_len_short _ n (ground arith))
  | inr e ↦ rw (e, leb-true n 65535 h) (read_len_two b0 b1 n rest h ∙ (unfold be_bytes in refl))
]

parse_after_mask_bit :
    (b0 s : ℕ) (rest : Bytes) (buf_len : ℕ)
    → s < 128
    → ws_parse_frame (b0 ∷ (128 + s) ∷ rest) buf_len ≡ parse_masked (b0 ∷ (128 + s) ∷ rest) b0 s
unfolding ws_parse_frame
parse_after_mask_bit b0 s rest buf_len h = ground (arith, low_seven s)

short_len-lt : (n : ℕ) → short_len n < 128
short_len-lt n = ground arith

key_in_front :
    (pre : Bytes) (k : MaskingKey) (j : ℕ)
    → j < 4
    → get_elem? (pre ++ key_bytes k) (length pre + j) ≡ some (key_at k j)
key_in_front pre k j h =
    get_elem?-append_right pre (key_bytes k) (length pre + j) j refl
    ∙ get_elem?-get_or (key_bytes k) j 0 h

unmask_payload :
    (pre : Bytes) (k : MaskingKey) (payload rest : Bytes)
    → ws_payload_unmask
        (pre ++ (key_bytes k ++ (masked (key_at k) 0 payload ++ rest)))
        (length pre + 4)
        (length payload)
        (length pre)
      ≡ done (pre ++ (key_bytes k ++ (payload ++ rest)))
unmask_payload pre k payload rest =
    let xs = masked (key_at k) 0 payload in
    rw
      (
        ← append_assoc pre (key_bytes k) (xs ++ rest),
        ← append_assoc pre (key_bytes k) (payload ++ rest),
        ← length-masked (key_at k) 0 payload,
      )
      (ws_payload_unmask_lem (key_at k) (pre ++ key_bytes k) xs rest (length pre + 4) (length pre)
          (key_in_front pre k) (omega (arith, length-append pre (key_bytes k)))
        ∙ rw (masked-masked (key_at k) 0 payload))

-- What the parse of a frame gives.
abbrev pub parse_result : Bool → ℕ → Bytes → Bytes → Bytes → Parsed
parse_result fin opcode header payload rest = record {
  frame = record { fin = fin; opcode = opcode; len = length payload; begin = length header };
  buf = header ++ (payload ++ rest);
  size = length header;
}

parse_frame_of_len :
    (fin : Bool) (opcode s : ℕ) (ext : Bytes) (k : MaskingKey) (payload rest : Bytes) (buf_len : ℕ)
    → opcode < 16
    → s < 128
    → let header = (bit_of fin * 128 + opcode) ∷ (128 + s) ∷ (ext ++ key_bytes k) in
      read_len (header ++ (masked (key_at k) 0 payload ++ rest)) s
        ≡ done (length payload, 2 + length ext)
      → ws_parse_frame (header ++ (masked (key_at k) 0 payload ++ rest)) buf_len
        ≡ done (some (parse_result fin opcode header payload rest))
parse_frame_of_len fin opcode s ext k payload rest buf_len op_fits s_fits len_read =
    let b0 = bit_of fin * 128 + opcode in
    let b1 = 128 + s in
    let tail = masked (key_at k) 0 payload ++ rest in
    parse_after_mask_bit b0 s ((ext ++ key_bytes k) ++ tail) buf_len s_fits
    ∙ unfold parse_masked in
      rw len_read (
        rw (append_assoc ext (key_bytes k) tail, append_assoc ext (key_bytes k) (payload ++ rest))
          (rw (two_more ext, unmask_payload (b0 ∷ b1 ∷ ext) k payload rest)
            (rw
              (
                top_bit fin opcode op_fits,
                low_four (bit_of fin) opcode op_fits,
                length-append ext (key_bytes k),
              )
              (ap
                (λ (t : ℕ). done (
                  some (record {
                    frame = record { fin = fin; opcode = opcode; len = length payload; begin = t };
                    buf = b0 ∷ b1 ∷ (ext ++ (key_bytes k ++ (payload ++ rest)));
                    size = t;
                  })))
                (omega arith)))))
  where
    two_more : (xs : Bytes) → 2 + length xs ≡ suc (suc (length xs))
    two_more xs = omega arith

-- A frame of a client, with an opcode of four bits and at most 65535 bytes of payload, is parsed to what the client sent: the
-- final bit, the opcode and the length are its own, the payload stands unmasked behind the header,
-- and what follows the frame in the buffer is left alone.
pub ws_parse_frame-client_header :
    (fin : Bool) (opcode : ℕ) (k : MaskingKey) (payload rest : Bytes) (buf_len : ℕ)
    → opcode < 16
    → length payload ≤ 65535
    → let header = client_header fin opcode (length payload) k in
      ws_parse_frame (header ++ (masked (key_at k) 0 payload ++ rest)) buf_len
      ≡ done (some (parse_result fin opcode header payload rest))
ws_parse_frame-client_header fin opcode k payload rest buf_len op_fits len_fits =
    let n = length payload in
    parse_frame_of_len fin opcode (short_len n) (extended_len n) k payload rest buf_len op_fits
      (short_len-lt n)
      (rw (append_assoc (extended_len n) (key_bytes k) (masked (key_at k) 0 payload ++ rest))
        (read_len-extended_len _ _ n _ len_fits))

-- The header of a client's frame with more than 65535 and less than 2 ^ 32 bytes of payload, with less
-- than 2 ^ 48 bytes behind it in the buffer, makes the parser unmask past the end of the buffer.
pub ws_parse_frame_long :
    (fin : Bool) (opcode n buf_len : ℕ) (k : MaskingKey) (body : Bytes)
    → opcode < 16
    → 65535 < n
    → n < 2 ^ 32
    → length body < 2 ^ 48
    → ws_parse_frame (client_header fin opcode n k ++ body) buf_len ≡ fault
ws_parse_frame_long fin opcode n buf_len k body op_fits long fits room =
    rw (leb-false n 125 (omega arith), leb-false n 65535 long)
      (parse_after_mask_bit _ 127 _ buf_len (omega arith)
        ∙ unfold parse_masked in
          rw
            (
              append_assoc (be_bytes 8 n) (key_bytes k) body,
              read_len_eight _ _ n (key_bytes k ++ body) (omega arith),
            )
            (rw (
              ws_payload_unmask_overrun
                ((bit_of fin * 128 + opcode)
                  ∷ (128 + 127)
                  ∷ (be_bytes 8 n ++ (key_bytes k ++ body)))
                14 (n % 2 ^ 32 * 2 ^ 32 + n / 2 ^ 32) 10 (unfold be_bytes in omega arith)
                (unfold be_bytes in omega arith))))
