-- ===== src/Handshake.antt =====
-- The headers of a WebSocket request (vcmp/src/websockets/handshake.c and
-- vcmp/include/vcmp/websockets/handshake.h).
pub mod Entries
pub mod Lines
pub mod Requests
pub mod Lookup
pub mod Overflow
pub mod Tests
use vcmp.Prelude.{
  ℕ, zero, suc, ◌+◌, ◌-◌, ◌^◌, Option, none, some, List, [], ◌∷◌, Bool, true, false, Outcome, done,
  fault, ◌>>=◌, Bytes, ◌==◌, leb, if◌then◌else◌, load, drop,
}
use vcmp.Prelude.{strncpy, string_of}
use vcmp.Handshake.Entries.{Entry, Uthash, UthashLoop}

-- The loop over `j`, with `left` rounds to go; 0 where no colon is found.
unfoldable pub find_delim : Bytes → ℕ → ℕ → ℕ → Outcome ℕ
find_delim buf line_begin zero j = done 0
find_delim buf line_begin (suc left) j = do
  c ← load buf (line_begin + j)
  let further = find_delim buf line_begin left (j + 1)
  if c == b':' then done j else further

-- `carr_pos - delim_pos - 2`, of type `int`, as the `size_t` that `strncpy` takes.
abbrev pub val_size : ℕ → ℕ → ℕ
val_size line_len delim_pos =
    if leb (delim_pos + 3) line_len
    then line_len - (delim_pos + 3)
    else 2 ^ 64 - (delim_pos + 3 - line_len)

module _ {H : Type 0} (uthash : Uthash H) (malloc : ℕ → Option Entry) where
  -- From `delim_pos` on: the entry that is added, `none` where it cannot be allocated. `malloc i` is
  -- the answer for the line that ends at index `i`, with what the memory holds.
  unfoldable pub add_header : Bytes → ℕ → ℕ → ℕ → Option H → Outcome (Option H)
  add_header buf i line_begin line_len head = do
    delim_pos ← find_delim buf line_begin line_len 0
    elim (malloc i) [
      | none ↦ done none
      | some entry ↦ do
        key ← strncpy entry.key (drop line_begin buf) delim_pos
        value ←
            strncpy entry.value (drop (line_begin + delim_pos + 2) buf)
              (val_size line_len delim_pos)
        name ← string_of key
        done (some (uthash.add_str head name (record { key = key; value = value })))
    ]

  -- The loop at index `i`, with `left` rounds to go.
  unfoldable pub parse_loop : Bytes → ℕ → ℕ → ℕ → ℕ → Option H → Outcome (Option H)
  parse_loop buf zero i line_begin line_len head = done head
  parse_loop buf (suc left) i line_begin line_len head = do
    c ← load buf i
    let within = parse_loop buf left (i + 1) line_begin (line_len + 1) head
    let first = parse_loop buf left (i + 1) (i + 1) 0 head
    let added = (do
      added_to ← add_header buf i line_begin line_len head
      elim added_to [ none ↦ done none | some h ↦ parse_loop buf left (i + 1) (i + 1) 0 (some h) ])
    if c == b'\n'
        then (if line_begin == 0 then first else if line_len == 1 then done head else added)
        else within

  -- `none` is the null pointer.
  unfoldable pub ws_parse_handshake : Bytes → ℕ → Outcome (Option H)
  ws_parse_handshake buf data_len = parse_loop buf data_len 0 0 0 none

-- The entry that is found.
unfoldable pub ws_header_get : {H : Type 0} → Uthash H → H → Bytes → Option Entry
ws_header_get uthash head key = uthash.find_str (some head) key

-- The body of `HASH_ITER` for each entry: the entries that are freed, and the table that is left.
free_loop : {H : Type 0} → UthashLoop H → List Entry → Option H → List Entry × Option H
free_loop uthash [] head = ([], head)
free_loop uthash (entry ∷ entries) head =
    let (freed, left) = free_loop uthash entries (uthash.del head entry) in (entry ∷ freed, left)

unfoldable pub ws_free_handshake : {H : Type 0} → UthashLoop H → Option H → List Entry × Option H
unfolding free_loop
ws_free_handshake uthash head = free_loop uthash (uthash.entries head) head
