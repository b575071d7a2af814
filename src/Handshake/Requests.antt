-- ===== src/Handshake/Requests.antt =====
-- The headers of a whole request.
use vcmp.Prelude.{
  ℕ, suc, ◌+◌, ◌<◌, ◌≡◌, refl, sym, ◌∙◌, Option, none, some, List, [], ◌∷◌, ◌++◌, append_assoc,
  done, Bytes, All, length, length-append, drop, drop_past, arith,
}
use vcmp.Handshake.Entries.{Entry, Uthash}
use vcmp.Prelude.{Without}
use vcmp.Handshake.Lines.{
  Header, IsHeader, header_line, entry_of, zero_entry, parse_loop-line, parse_loop-added,
  parse_loop-ended, parse_loop-first, add_header_lem,
}
use vcmp.Handshake.{parse_loop, ws_parse_handshake}

pub Without-append : (c : ℕ) (xs ys : Bytes) → Without c xs → Without c ys → Without c (xs ++ ys)
Without-append c [] ys w v = v
Without-append c (x ∷ xs) ys (n, w) v = (n, Without-append c xs ys w v)

-- A header line up to its line feed.
abbrev header_chars : Header → Bytes
header_chars h = h.name ++ (b':' ∷ b' ' ∷ (h.value ++ (b'\r' ∷ [])))

header_chars-header_line :
    (h : Header) (rest : Bytes) → header_line h rest ≡ header_chars h ++ (b'\n' ∷ rest)
header_chars-header_line h rest =
    rw
      (
        append_assoc h.name (b':' ∷ b' ' ∷ (h.value ++ (b'\r' ∷ []))) (b'\n' ∷ rest),
        append_assoc h.value (b'\r' ∷ []) (b'\n' ∷ rest),
      )
      refl

length-header_chars : (h : Header) → length (header_chars h) ≡ length h.name + (length h.value + 3)
length-header_chars h = omega (
  arith,
  length-append h.name (b':' ∷ b' ' ∷ (h.value ++ (b'\r' ∷ []))),
  length-append h.value (b'\r' ∷ []),
)

header_chars-Without : (h : Header) → IsHeader h → Without b'\n' (header_chars h)
header_chars-Without h ok =
    Without-append b'\n' h.name (b':' ∷ b' ' ∷ (h.value ++ (b'\r' ∷ []))) ok.one_line
      (refl, (refl, Without-append b'\n' h.value (b'\r' ∷ []) ok.value_one_line (refl, tt)))

abbrev pub line_size : Header → ℕ
line_size h = length h.name + (length h.value + 4)

module _ {H : Type 0} (uthash : Uthash H) (malloc : ℕ → Option Entry)
    (given : (i : ℕ) → malloc i ≡ some zero_entry) (buf : Bytes) where
  parse_loop-header_line :
      (h : Header) (rest : Bytes) (n left i next : ℕ) (head : Option H)
      → IsHeader h
      → drop i buf ≡ header_line h rest
      → 0 < i
      → n ≡ line_size h + left
      → next ≡ i + line_size h
      → parse_loop uthash malloc buf n i i 0 head
        ≡ parse_loop uthash malloc buf left next next 0
            (some (uthash.add_str head h.name (entry_of h)))
  parse_loop-header_line h rest n left i next head ok at_i inner e e' =
      parse_loop-line uthash malloc buf (header_chars h) (b'\n' ∷ rest) n (suc left) i i 0 head
        at_chars (header_chars-Without h ok) (omega (arith, length-header_chars h))
      ∙ parse_loop-added uthash malloc buf rest (i + length (header_chars h)) left i
          (0 + length (header_chars h)) head at_end (uthash.add_str head h.name (entry_of h)) next
          inner (omega (arith, length-header_chars h))
          (add_header_lem uthash malloc buf h (b'\r' ∷ b'\n' ∷ rest) (i + length (header_chars h)) i
            (0 + length (header_chars h)) head ok (given (i + length (header_chars h))) at_i
            (omega (arith, length-header_chars h)))
          (omega (arith, length-header_chars h))
    where
      at_chars : drop i buf ≡ header_chars h ++ (b'\n' ∷ rest)
      at_chars = at_i ∙ header_chars-header_line h rest

      at_end : drop (i + length (header_chars h)) buf ≡ b'\n' ∷ rest
      at_end = drop_past buf (header_chars h) i (i + length (header_chars h)) at_chars refl

-- The headers, and the line that ends them.
abbrev pub header_lines : List Header → Bytes → Bytes
header_lines [] rest = b'\r' ∷ b'\n' ∷ rest
header_lines (h ∷ hs) rest = header_line h (header_lines hs rest)

abbrev pub lines_size : List Header → ℕ
lines_size [] = 2
lines_size (h ∷ hs) = line_size h + lines_size hs

abbrev pub added_all : {H : Type 0} → Uthash H → Option H → List Header → Option H
added_all uthash head [] = head
added_all uthash head (h ∷ hs) =
    added_all uthash (some (uthash.add_str head h.name (entry_of h))) hs

module _ {H : Type 0} (uthash : Uthash H) (malloc : ℕ → Option Entry)
    (given : (i : ℕ) → malloc i ≡ some zero_entry) (buf : Bytes) where
  parse_loop-header_lines :
      (hs : List Header) (rest : Bytes) (n left i : ℕ) (head : Option H)
      → All IsHeader hs
      → drop i buf ≡ header_lines hs rest
      → 0 < i
      → n ≡ lines_size hs + left
      → parse_loop uthash malloc buf n i i 0 head ≡ done (added_all uthash head hs)
  parse_loop-header_lines [] rest n left i head ok at_i inner e =
      parse_loop-line uthash malloc buf (b'\r' ∷ []) (b'\n' ∷ rest) n (suc left) i i 0 head at_i
        (refl, tt) (omega arith)
      ∙ parse_loop-ended uthash malloc buf rest (i + 1) left i 1 head
          (drop_past buf (b'\r' ∷ []) i (i + 1) at_i refl) inner refl
  parse_loop-header_lines (h ∷ hs) rest n left i head (ok_h, ok) at_i inner e =
      parse_loop-header_line uthash malloc given buf h (header_lines hs rest) n
        (lines_size hs + left) i (i + line_size h) head ok_h at_i inner (omega arith) refl
      ∙ parse_loop-header_lines hs rest (lines_size hs + left) left (i + line_size h)
          (some (uthash.add_str head h.name (entry_of h))) ok
          (past_header_line h (header_lines hs rest) i at_i) (omega arith) refl
    where
      past_header_line :
          (h : Header) (rest : Bytes) (i : ℕ)
          → drop i buf ≡ header_line h rest
          → drop (i + line_size h) buf ≡ rest
      past_header_line h rest i at_line =
          drop_past buf (header_chars h ++ (b'\n' ∷ [])) i (i + line_size h)
            (at_line
              ∙ header_chars-header_line h rest
              ∙ sym (append_assoc (header_chars h) (b'\n' ∷ []) rest))
            (omega (arith, length-header_chars h, length-append (header_chars h) (b'\n' ∷ [])))

-- Where the memory for entries is zero, a request with any headers that fit their entries is parsed to
-- the table to which these are added, one by one, and what follows the headers is not looked at.
pub ws_parse_handshake-header_lines :
    {H : Type 0} (uthash : Uthash H) (malloc : ℕ → Option Entry) (first rest : Bytes)
    (hs : List Header) (left : ℕ)
    → ((i : ℕ) → malloc i ≡ some zero_entry)
    → Without b'\n' first
    → All IsHeader hs
    → ws_parse_handshake uthash malloc
        (first ++ (b'\n' ∷ header_lines hs rest))
        (length first + (1 + lines_size hs + left))
      ≡ done (added_all uthash none hs)
unfolding ws_parse_handshake
ws_parse_handshake-header_lines {H} uthash malloc first rest hs left given w ok =
    parse_loop-line uthash malloc buf first (b'\n' ∷ header_lines hs rest)
      (length first + (1 + lines_size hs + left)) (suc (lines_size hs + left)) 0 0 0 none refl w
      (omega arith)
    ∙ parse_loop-first uthash malloc buf (header_lines hs rest) (0 + length first)
        (lines_size hs + left) 0 (0 + length first) none
        (drop_past buf first 0 (0 + length first) refl refl) (0 + length first + 1) refl refl
    ∙ parse_loop-header_lines uthash malloc given buf hs rest (lines_size hs + left) left
        (0 + length first + 1) none ok
        (drop_past buf (b'\n' ∷ []) (0 + length first) (0 + length first + 1)
          (drop_past buf first 0 (0 + length first) refl refl) refl)
        (omega arith) refl
  where
    buf : Bytes
    buf = first ++ (b'\n' ∷ header_lines hs rest)
