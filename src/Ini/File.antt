-- ===== src/Ini/File.antt =====
-- The parser's loop, and the file that it is given (`ini_parsebuf` and `ini_parse` of vcmp/lib/ini.c).
use vcmp.Prelude.{
  ℕ, zero, suc, ◌+◌, ◌*◌, Option, none, some, List, [], ◌∷◌, ◌++◌, Bool, true, false, not, ◌||◌,
  Outcome, done, fault, Bytes, ◌==◌, load, length, zeros,
}
use vcmp.Ini.{Config}
use vcmp.Ini.Store.{ini_create}
use vcmp.Ini.Frees.{ini_free}
use vcmp.Ini.Parser.{Parser, ready_for_data, peek, parse_turn}

-- The result, the blocks that were freed, and the number of allocations.
pub record Parsed : Type 0 where
  pub result : Option Config
  pub freed : List ℕ
  pub allocations : ℕ

-- The end behind `fail`.
abbrev pub fail_with : Parser → Parsed
fail_with s =
    let (freed, cfg) = ini_free s.cfg in
    record { result = cfg; freed = freed; allocations = s.calls }

abbrev pub end_with : Parser → Parsed
end_with s = record { result = s.cfg; freed = []; allocations = s.calls }

abbrev pub first_parser : Bytes → Option Config → ℕ → Parser
first_parser buf cfg n = record {
  state = ready_for_data;
  bufp = record { before = []; rest = buf };
  tmp = zeros 256;
  current_section = zeros 256;
  current_key = zeros 256;
  cfg = cfg;
  calls = n;
}

-- The null pointer.
abbrev pub no_config : List ℕ → ℕ → Parsed
no_config freed n = record { result = none; freed = freed; allocations = n }

-- With the block of the buffer freed.
abbrev pub free_buffer : ℕ → Option (Outcome Parsed) → Option (Outcome Parsed)
free_buffer block none = none
free_buffer block (some fault) = some fault
free_buffer block (some (done parsed)) =
    some (done (record parsed { freed = parsed.freed ++ (block ∷ []) }))

module _ (malloc : ℕ → Bool) where
  -- The loop with fuel; `none` is that the fuel has run out.
  unfoldable pub parse_loop : ℕ → Parser → Option (Outcome Parsed)
  unfolding parse_turn
  parse_loop zero s = none
  parse_loop (suc fuel) s = elim (peek s.bufp) [
    | fault ↦ some fault
    | done c ↦ elim (c == 0) [
      | true ↦ some (done (end_with s))
      | false ↦ elim (parse_turn malloc s) [
        | fault ↦ some fault
        | done none ↦ some (done (fail_with s))
        | done (some s') ↦ parse_loop fuel s'
      ]
    ]
  ]

  -- The buffer is the object that the pointer points to the start of.
  unfoldable pub ini_parsebuf : ℕ → Option Bytes → Option (Outcome Parsed)
  unfolding parse_loop
  ini_parsebuf n none = some (done (no_config [] n))
  ini_parsebuf n (some buf) = elim (load buf 0) [
    | fault ↦ some fault
    | done c ↦ elim (c == 0) [
      | true ↦ some (done (no_config [] n))
      | false ↦ elim (ini_create malloc n).0 [
        | none ↦ some (done (no_config [] (suc n)))
        | some cfg ↦
            parse_loop (2 * length buf + 1) (first_parser buf (some cfg) (ini_create malloc n).1)
      ]
    ]
  ]

  -- From the allocation of the buffer on. `fread` of no bytes gives 0.
  unfoldable pub read_file : (Bytes → Bool) → ℕ → Bytes → Option (Outcome Parsed)
  unfolding ini_parsebuf
  read_file fread n file = elim (malloc n) [
    | false ↦ some (done (no_config [] (suc n)))
    | true ↦ elim (length file == 0 || not (fread file)) [
      | true ↦ some (done (no_config (n ∷ []) (suc n)))
      | false ↦ free_buffer n (ini_parsebuf (suc n) (some file))
    ]
  ]

  -- `fopen` gives the bytes of a file, and `fread` tells whether they are read. The file that is
  -- opened is closed on every way out.
  unfoldable pub ini_parse :
      (Bytes → Option Bytes) → (Bytes → Bool) → ℕ → Option Bytes → Option (Outcome Parsed)
  unfolding read_file
  ini_parse fopen fread n none = some (done (no_config [] n))
  ini_parse fopen fread n (some path) = elim (load path 0) [
    | fault ↦ some fault
    | done c ↦ elim (c == 0) [
      | true ↦ some (done (no_config [] n))
      | false ↦ elim (fopen path) [
        | none ↦ some (done (no_config [] n))
        | some file ↦ read_file fread n file
      ]
    ]
  ]
