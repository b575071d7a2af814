-- ===== src/Ini/Termination.antt =====
-- The parser ends, with the fuel that `ini_parsebuf` gives it.
use vcmp.Prelude.{
  ℕ, zero, suc, ◌+◌, ◌*◌, ◌<◌, ◌≡◌, ◌∙◌, not, refl, Option, none, some, [], ◌∷◌, Bool, ◌||◌,
  Outcome, done, fault, Bytes, ◌==◌, load, length, Holds-done, arith, Bool-cases, Outcome-cases,
  Option-cases, inl, inr,
}
use vcmp.Ini.Store.{ini_create}
use vcmp.Ini.Parser.{Parser, peek, parse_turn}
use vcmp.Ini.Turns.{
  parse_loop_ended, parse_loop_unread, parse_loop_faulted, parse_loop_failed, parse_loop_turned,
  ini_parsebuf_started, read_file_parsed, ini_parse_opened,
}
use vcmp.Ini.File.{
  Parsed, parse_loop, ini_parsebuf, ini_parse, first_parser, end_with, fail_with, no_config,
  free_buffer, read_file,
}
use vcmp.Ini.Measure.{measure, MeasureBelow, parse_turn-MeasureBelow}

module _ (malloc : ℕ → Bool) where
  -- With more fuel than the measure, the loop ends.
  parse_loop-ends :
      (fuel : ℕ) (s : Parser)
      → measure s < fuel
      → (run : Outcome Parsed) × (parse_loop malloc fuel s ≡ some run)
  unfolding parse_loop
  parse_loop-ends zero s h = absurd (omega arith)
  parse_loop-ends (suc fuel) s h = elim (Outcome-cases (peek s.bufp)) [
    | inr bad ↦ (fault, parse_loop_unread malloc fuel s bad)
    | inl (c, e) ↦ elim (Bool-cases (c == 0)) [
      | inl end ↦ (done (end_with s), parse_loop_ended malloc fuel s e end)
      | inr more ↦ elim (Outcome-cases (parse_turn malloc s)) [
        | inr bad ↦ (fault, parse_loop_faulted malloc fuel s e more bad)
        | inl (none, turned) ↦ (done (fail_with s), parse_loop_failed malloc fuel s e more turned)
        | inl (some s', turned) ↦
            let below =
              Holds-done (MeasureBelow (measure s)) _ (parse_turn-MeasureBelow malloc s) turned in
            let (run, ends) = parse_loop-ends fuel s' (omega (arith, below)) in
            (run, parse_loop_turned malloc fuel s e more turned ∙ ends)
      ]
    ]
  ]

  ini_parsebuf-ends :
      (n : ℕ) (buf : Option Bytes) → (run : Outcome Parsed) × (ini_parsebuf malloc n buf ≡ some run)
  unfolding ini_parsebuf
  ini_parsebuf-ends n none = (_, refl)
  ini_parsebuf-ends n (some buf) = elim (Outcome-cases (load buf 0)) [
    | inr bad ↦ (fault, rw (ini_parsebuf, bad) refl)
    | inl (c, e) ↦ elim (Bool-cases (c == 0)) [
      | inl end ↦ (done (no_config [] n), rw (ini_parsebuf, e, end) refl)
      | inr more ↦ elim (Option-cases (ini_create malloc n).0) [
        | inl no_memory ↦ (done (no_config [] (suc n)), rw (ini_parsebuf, e, more, no_memory) refl)
        | inr (cfg, made) ↦
            let (run, ends) =
              parse_loop-ends (2 * length buf + 1)
                (first_parser buf (some cfg) (ini_create malloc n).1) (omega arith) in
            (run, ini_parsebuf_started malloc n buf e more made ∙ ends)
      ]
    ]
  ]

  free_buffer-ends :
      (n : ℕ) (parsing : Option (Outcome Parsed)) {run : Outcome Parsed}
      → parsing ≡ some run
      → (run' : Outcome Parsed) × (free_buffer n parsing ≡ some run')
  free_buffer-ends n none h = absurd cc
  free_buffer-ends n (some fault) h = (fault, refl)
  free_buffer-ends n (some (done parsed)) h = (_, refl)

  read_file-ends :
      (fread : Bytes → Bool) (n : ℕ) (file : Bytes)
      → (run : Outcome Parsed) × (read_file malloc fread n file ≡ some run)
  unfolding read_file
  read_file-ends fread n file = elim (Bool-cases (malloc n)) [
    | inr no_memory ↦ (done (no_config [] (suc n)), rw (read_file, no_memory) refl)
    | inl memory ↦ elim (Bool-cases (length file == 0 || not (fread file))) [
      | inl unread ↦ (done (no_config (n ∷ []) (suc n)), rw (read_file, memory, unread) refl)
      | inr read ↦
          let (run, ends) = ini_parsebuf-ends (suc n) (some file) in
          let (run', freed) = free_buffer-ends n (ini_parsebuf malloc (suc n) (some file)) ends in
          (run', read_file_parsed malloc fread n file memory read ∙ freed)
    ]
  ]

  -- Whatever the file holds, and whichever allocations succeed, `ini_parse` comes to its end with the
  -- fuel that `ini_parsebuf` gives the loop: twice the size of the buffer, and one.
  pub ini_parse-ends :
      (fopen : Bytes → Option Bytes) (fread : Bytes → Bool) (n : ℕ) (path : Option Bytes)
      → (run : Outcome Parsed) × (ini_parse malloc fopen fread n path ≡ some run)
  unfolding ini_parse
  ini_parse-ends fopen fread n none = (done (no_config [] n), refl)
  ini_parse-ends fopen fread n (some path) = elim (Outcome-cases (load path 0)) [
    | inr bad ↦ (fault, rw (ini_parse, bad) refl)
    | inl (c, e) ↦ elim (Bool-cases (c == 0)) [
      | inl end ↦ (done (no_config [] n), rw (ini_parse, e, end) refl)
      | inr more ↦ elim (Option-cases (fopen path)) [
        | inl missing ↦ (done (no_config [] n), rw (ini_parse, e, more, missing) refl)
        | inr (file, opened) ↦
            let (run, ends) = read_file-ends fread n file in
            (run, ini_parse_opened malloc fopen fread n path e more opened ∙ ends)
      ]
    ]
  ]
