-- ===== src/Ini/Parser.antt =====
-- The parser of configuration files (`ini_parsebuf` of vcmp/lib/ini.c).
use vcmp.Prelude.{
  ℕ, suc, Option, none, some, [], ◌∷◌, Bool, not, ◌&&◌, ◌||◌, Outcome, done, fault, ◌>>=◌, Bytes,
  ◌==◌, if◌then◌else◌, load, store, zeros,
}
use vcmp.Ini.{Config}
use vcmp.Ini.Store.{assign_keyval}

pub data ParserState : Type 0 where
  ready_for_data : ParserState
  comment : ParserState
  section_name : ParserState
  key : ParserState
  value : ParserState

-- A pointer into the buffer: the bytes before it, the nearest first, and those from it on.
pub record Pointer : Type 0 where
  pub before : Bytes
  pub rest : Bytes

-- `*p`
abbrev pub peek : Pointer → Outcome ℕ
peek p = load p.rest 0

abbrev pub advance_in : Bytes → Bytes → Outcome Pointer
advance_in before [] = fault
advance_in before (c ∷ rest) = done (record { before = c ∷ before; rest = rest })

abbrev pub retreat_in : Bytes → Bytes → Outcome Pointer
retreat_in [] rest = fault
retreat_in (c ∷ before) rest = done (record { before = before; rest = c ∷ rest })

-- `p++`
abbrev pub advance : Pointer → Outcome Pointer
advance p = advance_in p.before p.rest

-- `p--`
abbrev pub retreat : Pointer → Outcome Pointer
retreat p = retreat_in p.before p.rest

-- The variables of the loop; `calls` counts the allocations so far. `current_value` is written
-- wherever it is read, and is none of them.
pub record Parser : Type 0 where
  pub state : ParserState
  pub bufp : Pointer
  pub tmp : Bytes
  pub current_section : Bytes
  pub current_key : Bytes
  pub cfg : Option Config
  pub calls : ℕ

-- The loops take the two parts of the pointer. `while (!stop(*p)) p++;`
unfoldable pub skip_until : (ℕ → Bool) → Bytes → Bytes → Outcome Pointer
skip_until stop before [] = fault
skip_until stop before (c ∷ rest) =
    let further = skip_until stop (c ∷ before) rest in
    if stop c then done (record { before = before; rest = c ∷ rest }) else further

-- `none` is `goto fail`.
unfoldable pub find_equals : Bytes → Bytes → Outcome (Option Pointer)
find_equals before [] = fault
find_equals before (c ∷ rest) =
    let further = find_equals (c ∷ before) rest in
    if c == b'='
    then done (some (record { before = before; rest = c ∷ rest }))
    else if c == 0 || c == b'\n'
    then done none
    else further

-- The copy of a name to `tmp[i]` and on, until a byte stops it or `i` is the limit.
unfoldable pub copy_name :
    (ℕ → Bool) → ℕ → Bytes → ℕ → Bytes → Bytes → Outcome (Option (Bytes × Pointer))
copy_name stop limit tmp i before [] = fault
copy_name stop limit tmp i before (c ∷ rest) =
    let further = (do tmp' ← store tmp i c; copy_name stop limit tmp' (suc i) (c ∷ before) rest) in
    if stop c || i == limit
    then done (some (tmp, record { before = before; rest = c ∷ rest }))
    else if c == 0 || c == b'\n'
    then done none
    else further

-- The copy of a value, which has no limit.
unfoldable pub copy_value : Bytes → ℕ → Bytes → Bytes → Outcome (Bytes × Pointer)
copy_value tmp i before [] = fault
copy_value tmp i before (c ∷ rest) =
    let further = (do tmp' ← store tmp i c; copy_value tmp' (suc i) (c ∷ before) rest) in
    if c == b'\n' || c == 0
    then done (tmp, record { before = before; rest = c ∷ rest })
    else further

abbrev pub ends_comment : ℕ → Bool
ends_comment c = c == b'\r' || c == b'\n' || c == b'\t' || c == 0

abbrev pub ends_section : ℕ → Bool
ends_section c = c == b']'

abbrev pub ends_key : ℕ → Bool
ends_key c = c == b' ' || c == b'\t' || c == b'='

abbrev pub is_not_blank : ℕ → Bool
is_not_blank c = not (c == b' ' || c == b'\t')

-- The state after a byte where data may start.
unfoldable pub data_state : ℕ → ParserState
data_state c =
    if c == b'#' || c == b';'
    then comment
    else if c == b'['
    then section_name
    else if not (c == b'\n') && not (c == b' ')
    then key
    else ready_for_data

unfoldable pub at_ready : Parser → Outcome (Option Parser)
unfolding data_state
at_ready s = do c ← peek s.bufp; done (some (record s { state = data_state c }))

unfoldable pub at_comment : Parser → Outcome (Option Parser)
unfolding skip_until
at_comment s = do
  p ← skip_until ends_comment s.bufp.before s.bufp.rest
  done (some (record s { bufp = p; state = ready_for_data }))

-- Behind the loop that copies the name.
abbrev pub with_section : Parser → Option (Bytes × Pointer) → Option Parser
with_section s none = none
with_section s (some (tmp, p)) =
    some (record s { bufp = p; current_section = tmp; tmp = zeros 256; state = ready_for_data })

unfoldable pub at_section_name : Parser → Outcome (Option Parser)
unfolding copy_name
at_section_name s = do
  copied ← copy_name ends_section 255 s.tmp 0 s.bufp.before s.bufp.rest
  done (with_section s copied)

-- Behind the loop that looks for `=`.
abbrev pub with_key : Parser → Bytes → Option Pointer → Option Parser
with_key s tmp none = none
with_key s tmp (some p) =
    some (record s { bufp = p; current_key = tmp; tmp = zeros 256; state = value })

-- Behind the loop that copies the name.
unfoldable pub find_value_of : Parser → Option (Bytes × Pointer) → Outcome (Option Parser)
unfolding find_equals
find_value_of s none = done none
find_value_of s (some (tmp, p)) = do
  found ← find_equals p.before p.rest
  done (with_key s tmp found)

unfoldable pub at_key : Parser → Outcome (Option Parser)
unfolding copy_name find_value_of
at_key s = do
  start ← retreat s.bufp
  copied ← copy_name ends_key 256 s.tmp 0 start.before start.rest
  find_value_of s copied

-- `bufp++` behind the `switch`.
abbrev pub step_over : Option Parser → Outcome (Option Parser)
step_over none = done none
step_over (some s) = do p ← advance s.bufp; done (some (record s { bufp = p }))

module _ (malloc : ℕ → Bool) where
  unfoldable pub at_value : Parser → Outcome (Option Parser)
  unfolding skip_until copy_value
  at_value s = do
    start ← skip_until is_not_blank s.bufp.before s.bufp.rest
    (current_value, p) ← copy_value s.tmp 0 start.before start.rest
    c ← load s.current_section 0
    (cfg, calls) ←
        assign_keyval malloc s.calls s.cfg (if c == 0 then none else some s.current_section)
          (some s.current_key) current_value
    done (
        some (record s {
          bufp = p;
          tmp = zeros 256;
          cfg = cfg;
          calls = calls;
          state = ready_for_data;
        }))

  -- The `switch`.
  unfoldable pub parse_state : ParserState → Parser → Outcome (Option Parser)
  unfolding at_ready at_comment at_section_name at_key at_value
  parse_state ready_for_data s = at_ready s
  parse_state comment s = at_comment s
  parse_state section_name s = at_section_name s
  parse_state key s = at_key s
  parse_state value s = at_value s

  -- The body of the loop.
  unfoldable pub parse_turn : Parser → Outcome (Option Parser)
  unfolding parse_state
  parse_turn s = do after ← parse_state s.state s; step_over after
