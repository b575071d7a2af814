-- ===== src/Handshake/Overflow.antt =====
-- Requests that make the parser write outside of an entry, or read past the end of a string.
use vcmp.Prelude.{
  ℕ, zero, suc, ◌+◌, ◌<◌, ◌≡◌, ◌≢◌, refl, ◌∙◌, Option, none, some, [], ◌∷◌, ◌++◌, append_assoc,
  done, fault, Bytes, length, length-append, drop, drop_past, arith, ◌==◌, Bool-cases, inl, inr,
}
use vcmp.Handshake.Entries.{Entry, Uthash}
use vcmp.Prelude.{Without}
use vcmp.Handshake.Lines.{find_delim-colon, parse_loop-line, parse_loop-first, parse_loop-faulted}
use vcmp.Prelude.{zero_fill, strncpy}
use vcmp.Handshake.{find_delim, add_header, ws_parse_handshake}

zero_fill_overrun : (dst : Bytes) (n : ℕ) → length dst < n → zero_fill dst n ≡ fault
zero_fill_overrun [] zero h = absurd (omega arith)
zero_fill_overrun [] (suc n) h = refl
zero_fill_overrun (d ∷ ds) zero h = absurd (omega arith)
zero_fill_overrun (d ∷ ds) (suc n) h = rw (zero_fill_overrun ds n (omega arith)) refl

-- A copy of more bytes than the array has does not end well, whatever is copied.
pub strncpy_overrun : (dst src : Bytes) (n : ℕ) → length dst < n → strncpy dst src n ≡ fault
unfolding strncpy
strncpy_overrun dst src zero h = absurd (omega arith)
strncpy_overrun [] src (suc n) h = refl
strncpy_overrun (d ∷ ds) [] (suc n) h = refl
strncpy_overrun (d ∷ ds) (c ∷ cs) (suc n) h =
    rw (strncpy_overrun ds cs n (omega arith), zero_fill_overrun ds n (omega arith))
      (elim (Bool-cases (c == 0)) [ inl e ↦ rw e refl | inr e ↦ rw e refl ])

module _ {H : Type 0} (uthash : Uthash H) (malloc : ℕ → Option Entry) (buf : Bytes)
    (i line_begin line_len delim_pos : ℕ) (head : Option H) (entry : Entry)
    (given : malloc i ≡ some entry)
    (delim : find_delim buf line_begin line_len 0 ≡ done delim_pos) where
  add_header_key_overrun :
      length entry.key < delim_pos → add_header uthash malloc buf i line_begin line_len head ≡ fault
  unfolding add_header
  add_header_key_overrun long =
      rw (delim, given, strncpy_overrun entry.key (drop line_begin buf) delim_pos long) refl

-- A request of which the line behind the first one makes `add_header` fail.
module _ {H : Type 0} (uthash : Uthash H) (malloc : ℕ → Option Entry) (first line rest : Bytes)
    (left : ℕ) (w : Without b'\n' first) (lw : Without b'\n' line) where
  abbrev request : Bytes
  request = first ++ (b'\n' ∷ (line ++ (b'\n' ∷ rest)))

  at_line : drop (length first + 1) request ≡ line ++ (b'\n' ∷ rest)
  at_line =
      drop_past request (b'\n' ∷ []) (length first) (length first + 1)
        (drop_past request first 0 (length first) refl (omega arith)) refl

  ws_parse_handshake-faulted :
      length line ≢ 1
      → add_header uthash malloc request
          (length first + 1 + length line)
          (length first + 1)
          (length line)
          none
        ≡ fault
      → ws_parse_handshake uthash malloc request (length first + (length line + (2 + left))) ≡ fault
  unfolding ws_parse_handshake
  ws_parse_handshake-faulted n faulted =
      let same : 0 + length line ≡ length line = omega arith in
      parse_loop-line uthash malloc request first (b'\n' ∷ (line ++ (b'\n' ∷ rest)))
        (length first + (length line + (2 + left))) (suc (length line + (1 + left))) 0 0 0 none refl
        w (omega arith)
      ∙ parse_loop-first uthash malloc request (line ++ (b'\n' ∷ rest)) (0 + length first)
          (length line + (1 + left)) 0 (0 + length first) none
          (drop_past request first 0 (0 + length first) refl refl) (length first + 1) refl
          (omega arith)
      ∙ parse_loop-line uthash malloc request line (b'\n' ∷ rest) (length line + (1 + left))
          (suc left) (length first + 1) (length first + 1) 0 none at_line lw (omega arith)
      ∙ parse_loop-faulted uthash malloc request rest (length first + 1 + length line) left
          (length first + 1) (0 + length line) none
          (drop_past request line (length first + 1) (length first + 1 + length line) at_line refl)
          (omega arith) (λ e. n (omega arith)) (rw same faulted)

-- A first header whose name is longer than 256 bytes is copied past the end of an entry.
ws_parse_handshake_long_name :
    {H : Type 0} (uthash : Uthash H) (malloc : ℕ → Option Entry) (first name value rest : Bytes)
    (left : ℕ) (entry : Entry)
    → Without b'\n' first
    → Without b'\n' (name ++ (b':' ∷ value))
    → Without b':' name
    → 256 < length name
    → length entry.key ≡ 256
    → malloc (length first + 1 + length (name ++ (b':' ∷ value))) ≡ some entry
    → ws_parse_handshake uthash malloc
        (first ++ (b'\n' ∷ ((name ++ (b':' ∷ value)) ++ (b'\n' ∷ rest))))
        (length first + (length (name ++ (b':' ∷ value)) + (2 + left)))
      ≡ fault
ws_parse_handshake_long_name uthash malloc first name value rest left entry w lw nc too_long full
      given =
    ws_parse_handshake-faulted uthash malloc first line rest left w lw (λ e. omega (arith, long))
      (add_header_key_overrun uthash malloc (request uthash malloc first line rest left w lw)
        (length first + 1 + length line) (length first + 1) (length line) (length name) none entry
        given delim (omega arith))
  where
    line : Bytes
    line = name ++ (b':' ∷ value)

    long : length line ≡ length name + suc (length value)
    long = length-append name (b':' ∷ value)

    buf : Bytes
    buf = first ++ (b'\n' ∷ (line ++ (b'\n' ∷ rest)))

    at_name : drop (length first + 1) buf ≡ name ++ (b':' ∷ (value ++ (b'\n' ∷ rest)))
    at_name =
        at_line uthash malloc first line rest left w lw
        ∙ append_assoc name (b':' ∷ value) (b'\n' ∷ rest)

    delim : find_delim buf (length first + 1) (length line) 0 ≡ done (length name)
    delim =
        let same : 0 + length name ≡ length name = omega arith in
        rw same at (
          find_delim-colon buf (length first + 1) (length first + 1) (length line) 0 name
            (value ++ (b'\n' ∷ rest)) at_name (omega arith) nc (omega (arith, long)))
