-- ===== src/Frame/Make.antt =====
-- What `ws_make_frame` writes, and how it fits the other functions.
use Prim.Native.Nat.{bit_or}
use vcmp.Prelude.{
  ℕ, ◌+◌, ◌*◌, ◌/◌, ◌%◌, ◌^◌, ◌≤◌, ◌<◌, ◌≡◌, refl, ap, ◌∙◌, [], ◌∷◌, ◌++◌, arith, Bool, true, false,
  some, none, done, Bytes, length, store_bytes-append, store-append, store_in_bounds,
  store_bytes_overrun, length-le_bytes, le_bytes, be_bytes, ntohs, u8, u16, leb, leb-true,
  leb-false, ltb-false, nil_of_length, fault, length-set, set, if◌then◌else◌, bit_or_fields,
  Bool-cases, inl, inr,
}
use vcmp.Frame.{bit_of, put_len, ws_make_frame, ws_calc_frame_size, ws_parse_frame, htonll}
use vcmp.Frame.Order.{le_bytes-ntohs, le_bytes-htonll}
use vcmp.Frame.Parse.{short_len}

-- The bytes behind the second one: RFC 6455 wants `be_bytes 8 n` where these stand exchanged.
abbrev pub sent_len : ℕ → Bytes
sent_len n =
    if leb n 125
    then []
    else if leb n 65535
    then be_bytes 2 n
    else be_bytes 4 (n % 2 ^ 32) ++ be_bytes 4 (n / 2 ^ 32)

-- The header of a frame of the server for `n` bytes.
abbrev pub server_header : Bool → ℕ → ℕ → Bytes
server_header fin opcode n = (bit_of fin * 128 + opcode) ∷ short_len n ∷ sent_len n

first_byte :
    (fin : Bool) (opcode : ℕ)
    → opcode < 16
    → u8 (bit_or (bit_of fin * 2 ^ 7) opcode) ≡ bit_of fin * 128 + opcode
first_byte true opcode h = omega (arith, bit_or_fields 7 1 opcode (omega arith))
first_byte false opcode h = omega (arith, bit_or_fields 7 0 opcode (omega arith))

put_len_two :
    (x y n : ℕ) (rest : Bytes) → n ≤ 125 → put_len (x ∷ y ∷ rest) n ≡ done (2, x ∷ n ∷ rest)
unfolding put_len
put_len_two x y n rest h = ground arith

put_len_four :
    (x y n : ℕ) (old rest : Bytes)
    → 125 < n
    → n ≤ 65535
    → length old ≡ 2
    → put_len (x ∷ y ∷ (old ++ rest)) n ≡ done (4, x ∷ 126 ∷ (be_bytes 2 n ++ rest))
unfolding put_len
put_len_four x y n old rest lo hi e =
    rw (leb-false n 125 lo, leb-true n 65535 hi, store-append (x ∷ []) y 126 (old ++ rest) 1 refl)
      (rw (
        two_bytes,
        store_bytes-append (be_bytes 2 n) (x ∷ 126 ∷ []) old rest 2 refl
            (unfold be_bytes in omega arith),
      ))
  where
    two_bytes : le_bytes 2 (ntohs (u16 n)) ≡ be_bytes 2 n
    two_bytes = ap (λ (t : ℕ). le_bytes 2 (ntohs t)) (omega arith) ∙ le_bytes-ntohs n (omega arith)

put_len_ten :
    (x y n : ℕ) (old rest : Bytes)
    → 65535 < n
    → n < 2 ^ 64
    → length old ≡ 8
    → put_len (x ∷ y ∷ (old ++ rest)) n
      ≡ done (10, x ∷ 127 ∷ ((be_bytes 4 (n % 2 ^ 32) ++ be_bytes 4 (n / 2 ^ 32)) ++ rest))
unfolding put_len
put_len_ten x y n old rest lo hi e =
    rw
      (
        leb-false n 125 (omega arith),
        leb-false n 65535 lo,
        store-append (x ∷ []) y 127 (old ++ rest) 1 refl,
      )
      (rw (
        le_bytes-htonll n hi,
        store_bytes-append (be_bytes 4 (n % 2 ^ 32) ++ be_bytes 4 (n / 2 ^ 32)) (x ∷ 127 ∷ []) old
            rest 2 refl (unfold be_bytes in omega arith),
      ))

-- `put_len` on a buffer with room for the header.
put_len_lem :
    (x y n : ℕ) (old rest : Bytes)
    → n < 2 ^ 64
    → 2 + length old ≡ ws_calc_frame_size n
    → put_len (x ∷ y ∷ (old ++ rest)) n
      ≡ done (ws_calc_frame_size n, x ∷ short_len n ∷ (sent_len n ++ rest))
unfolding ws_calc_frame_size
put_len_lem x y n old rest fits room = elim (Bool-cases (leb n 125)) [
  | inl e ↦
      rw e (put_len_two x y n (old ++ rest) (ground arith) ∙ rw (nil_of_length old (ground arith)))
  | inr e ↦ elim (Bool-cases (leb n 65535)) [
    | inl e' ↦ rw (e, e') (put_len_four x y n old rest (ground arith) (ground arith) (ground arith))
    | inr e' ↦ rw (e, e') (put_len_ten x y n old rest (ground arith) fits (ground arith))
  ]
]

-- For an opcode of four bits and a length below 2 ^ 64, in a buffer that has room for the header and
-- is said to have 2 bytes at least, the header is written whole, is as long as `ws_calc_frame_size`
-- says, and leaves the rest of the buffer alone.
pub ws_make_frame-server_header :
    (fin : Bool) (opcode n x y buf_len : ℕ) (old rest : Bytes)
    → opcode < 16
    → n < 2 ^ 64
    → 2 ≤ buf_len
    → 2 + length old ≡ ws_calc_frame_size n
    → ws_make_frame fin opcode n (some (x ∷ y ∷ (old ++ rest))) buf_len
      ≡ done (some (ws_calc_frame_size n, server_header fin opcode n ++ rest))
unfolding ws_make_frame
ws_make_frame-server_header fin opcode n x y buf_len old rest op_fits fits guard room =
    rw
      (
        ltb-false buf_len 2 guard,
        store-append [] x (u8 (bit_or (bit_of fin * 2 ^ 7) opcode)) (y ∷ (old ++ rest)) 0 refl,
        first_byte fin opcode op_fits,
      )
      (rw (put_len_lem (bit_of fin * 128 + opcode) y n old rest fits room))

pub length-server_header :
    (fin : Bool) (opcode n : ℕ) → length (server_header fin opcode n) ≡ ws_calc_frame_size n
unfolding ws_calc_frame_size be_bytes
length-server_header fin opcode n = ground arith

put_len_overrun :
    (n : ℕ) (buf : Bytes)
    → 2 ≤ length buf
    → length buf < ws_calc_frame_size n
    → put_len buf n ≡ fault
unfolding put_len ws_calc_frame_size
put_len_overrun n buf lo hi = elim (Bool-cases (leb n 125)) [
  | inl e ↦ absurd (ground arith)
  | inr e ↦ elim (Bool-cases (leb n 65535)) [
    | inl e' ↦
        rw (e, e', store_in_bounds buf 1 126 lo)
          (rw (
            store_bytes_overrun (le_bytes 2 (ntohs (u16 n))) (set buf 1 126) 2
              (omega (arith, length-set buf 1 126))
              (ground (arith, length-set buf 1 126, length-le_bytes 2 (ntohs (u16 n))))))
    | inr e' ↦
        rw (e, e', store_in_bounds buf 1 127 lo)
          (rw (
            store_bytes_overrun (le_bytes 8 (htonll n)) (set buf 1 127) 2
              (omega (arith, length-set buf 1 127))
              (ground (arith, length-set buf 1 127, length-le_bytes 8 (htonll n)))))
  ]
]

-- In a buffer of 2 bytes at least that has less room than `ws_calc_frame_size` says, the header is
-- written past the end of the buffer.
pub ws_make_frame_overrun :
    (fin : Bool) (opcode n buf_len : ℕ) (buf : Bytes)
    → 2 ≤ buf_len
    → length buf ≡ buf_len
    → buf_len < ws_calc_frame_size n
    → ws_make_frame fin opcode n (some buf) buf_len ≡ fault
unfolding ws_make_frame
ws_make_frame_overrun fin opcode n buf_len buf guard same short =
    let b0 = u8 (bit_or (bit_of fin * 2 ^ 7) opcode) in
    rw (ltb-false buf_len 2 guard, store_in_bounds buf 0 b0 (omega arith))
      (rw (
        put_len_overrun n (set buf 0 b0) (omega (arith, length-set buf 0 b0))
          (omega (arith, length-set buf 0 b0))))

-- `ws_parse_frame` refuses each frame that starts with a header of the server, as it is not masked.
pub ws_parse_frame-server_header :
    (fin : Bool) (opcode n buf_len : ℕ) (rest : Bytes)
    → ws_parse_frame (server_header fin opcode n ++ rest) buf_len ≡ done none
unfolding ws_parse_frame
ws_parse_frame-server_header fin opcode n buf_len rest = ground arith
