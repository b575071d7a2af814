-- ===== src/Handshake/Lines.antt =====
-- The loop of `ws_parse_handshake` over the lines of a request.
use vcmp.Prelude.{
  ℕ, zero, suc, ◌+◌, ◌<◌, ◌≡◌, ◌≢◌, refl, Option, some, [], ◌∷◌, ◌++◌, done, fault, Bytes, length,
  drop, load-drop, drop_next, drop_past, arith, ==_false,
}
use vcmp.Handshake.Entries.{Entry, Uthash}
use vcmp.Prelude.{Without, zeros, padded, strncpy-zeros, string_of-padded}
use vcmp.Handshake.{find_delim, val_size, add_header, parse_loop}

-- A header that fits an entry: a name without a colon, and a value.
pub record Header : Type 0 where
  pub name : Bytes
  pub value : Bytes

pub record IsHeader (h : Header) : Type 0 where
  pub name_fits : length h.name < 256
  pub value_fits : length h.value < 256
  pub name_ends : Without 0 h.name
  pub value_ends : Without 0 h.value
  pub one_line : Without b'\n' h.name
  pub value_one_line : Without b'\n' h.value
  pub no_colon : Without b':' h.name

abbrev pub header_line : Header → Bytes → Bytes
header_line h rest = h.name ++ (b':' ∷ b' ' ∷ (h.value ++ (b'\r' ∷ b'\n' ∷ rest)))

abbrev pub entry_of : Header → Entry
entry_of h = record { key = padded h.name; value = padded h.value }

-- Memory as it comes from the system: zeros.
abbrev pub zero_entry : Entry
zero_entry = record { key = zeros 256; value = zeros 256 }

pub find_delim-colon :
    (buf : Bytes) (line_begin i left j : ℕ) (xs rest : Bytes)
    → drop i buf ≡ xs ++ (b':' ∷ rest)
    → i ≡ line_begin + j
    → Without b':' xs
    → length xs < left
    → find_delim buf line_begin left j ≡ done (j + length xs)
unfolding find_delim
find_delim-colon buf line_begin i zero j xs rest at_i e w room = absurd (omega arith)
find_delim-colon buf line_begin i (suc left) j [] rest at_i e w room =
    let same : j + 0 ≡ j = omega arith in rw (← e, load-drop buf i at_i, same) refl
find_delim-colon buf line_begin i (suc left) j (x ∷ xs) rest at_i e (nc, w) room =
    let same : j + suc (length xs) ≡ j + 1 + length xs = omega arith in
    rw (← e, load-drop buf i at_i, same)
      (rw nc (
        find_delim-colon buf line_begin (suc i) left (j + 1) xs rest (drop_next buf i at_i)
          (omega arith) w (omega arith)))

module _ {H : Type 0} (uthash : Uthash H) (malloc : ℕ → Option Entry) (buf : Bytes) where
  -- Bytes that do not end a line.
  pub parse_loop-line :
      (xs rest : Bytes) (n left i line_begin line_len : ℕ) (head : Option H)
      → drop i buf ≡ xs ++ rest
      → Without b'\n' xs
      → n ≡ length xs + left
      → parse_loop uthash malloc buf n i line_begin line_len head
        ≡ parse_loop uthash malloc buf left (i + length xs) line_begin (line_len + length xs) head
  unfolding parse_loop
  parse_loop-line [] rest n left i line_begin line_len head at_i w e =
      let n_left : n ≡ left = omega arith in
      let i_0 : i + 0 ≡ i = omega arith in
      let l_0 : line_len + 0 ≡ line_len = omega arith in rw (n_left, i_0, l_0) refl
  parse_loop-line (x ∷ xs) rest zero left i line_begin line_len head at_i w e = absurd (omega arith)
  parse_loop-line (x ∷ xs) rest (suc n) left i line_begin line_len head at_i (nl, w) e =
      let i_1 : i + suc (length xs) ≡ i + 1 + length xs = omega arith in
      let l_1 : line_len + suc (length xs) ≡ line_len + 1 + length xs = omega arith in
      let i_s : suc i ≡ i + 1 = omega arith in
      rw (load-drop buf i at_i, i_1, l_1)
        (rw nl (
          parse_loop-line xs rest n left (i + 1) line_begin (line_len + 1) head
            (rw i_s at (drop_next buf i at_i)) w (omega arith)))

  -- A header is copied to an entry of zeros and added under its name.
  pub add_header_lem :
      (h : Header) (rest : Bytes) (i line_begin line_len : ℕ) (head : Option H)
      → IsHeader h
      → malloc i ≡ some zero_entry
      → drop line_begin buf ≡ h.name ++ (b':' ∷ b' ' ∷ (h.value ++ rest))
      → line_len ≡ length h.name + (length h.value + 3)
      → add_header uthash malloc buf i line_begin line_len head
        ≡ done (some (uthash.add_str head h.name (entry_of h)))
  unfolding add_header
  add_header_lem h rest i line_begin line_len head ok given at_line e =
      rw
        (
          delim,
          given,
          at_line,
          strncpy-zeros h.name (b':' ∷ b' ' ∷ (h.value ++ rest)) ok.name_ends
              (omega (arith, ok.name_fits)),
        )
        (rw
          (
            at_value,
            size,
            strncpy-zeros h.value rest ok.value_ends (omega (arith, ok.value_fits)),
            string_of-padded h.name ok.name_ends ok.name_fits,
          )
          refl)
    where
      delim : find_delim buf line_begin line_len 0 ≡ done (length h.name)
      delim =
          let same : 0 + length h.name ≡ length h.name = omega arith in
          rw same at (
            find_delim-colon buf line_begin line_begin line_len 0 h.name (b' ' ∷ (h.value ++ rest))
              at_line (omega arith) ok.no_colon (omega arith))

      at_value : drop (line_begin + length h.name + 2) buf ≡ h.value ++ rest
      at_value =
          drop_past buf (b':' ∷ b' ' ∷ []) (line_begin + length h.name)
            (line_begin + length h.name + 2)
            (drop_past buf h.name line_begin (line_begin + length h.name) at_line refl) refl

      size : val_size line_len (length h.name) ≡ length h.value
      size = ground arith

  -- The end of a line: of one with a header, of the line that ends the headers, and of the first line.
  module _ (rest : Bytes) (i left line_begin line_len : ℕ) (head : Option H)
      (at_i : drop i buf ≡ b'\n' ∷ rest) where
    pub parse_loop-added :
        (t : H) (next : ℕ)
        → 0 < line_begin
        → 1 < line_len
        → add_header uthash malloc buf i line_begin line_len head ≡ done (some t)
        → next ≡ i + 1
        → parse_loop uthash malloc buf (suc left) i line_begin line_len head
          ≡ parse_loop uthash malloc buf left next next 0 (some t)
    unfolding parse_loop
    parse_loop-added t next inner long added e =
        rw
          (
            load-drop buf i at_i,
            ==_false line_begin 0 (omega arith),
            ==_false line_len 1 (omega arith),
            added,
            e,
          )
          refl

    pub parse_loop-ended :
        0 < line_begin
        → line_len ≡ 1
        → parse_loop uthash malloc buf (suc left) i line_begin line_len head ≡ done head
    unfolding parse_loop
    parse_loop-ended inner e =
        rw (load-drop buf i at_i, ==_false line_begin 0 (omega arith), e) refl

    pub parse_loop-first :
        (next : ℕ)
        → line_begin ≡ 0
        → next ≡ i + 1
        → parse_loop uthash malloc buf (suc left) i line_begin line_len head
          ≡ parse_loop uthash malloc buf left next next 0 head
    unfolding parse_loop
    parse_loop-first next first e = rw (load-drop buf i at_i, first, e) refl

    pub parse_loop-faulted :
        0 < line_begin
        → line_len ≢ 1
        → add_header uthash malloc buf i line_begin line_len head ≡ fault
        → parse_loop uthash malloc buf (suc left) i line_begin line_len head ≡ fault
    unfolding parse_loop
    parse_loop-faulted inner n faulted =
        rw
          (
            load-drop buf i at_i,
            ==_false line_begin 0 (omega arith),
            ==_false line_len 1 n,
            faulted,
          )
          refl
