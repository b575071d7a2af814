-- ===== src/Ini/Overrun.antt =====
-- Values that the parser does not stop at (vcmp/lib/ini.c).
use vcmp.Prelude.{
  ℕ, zero, suc, ◌+◌, ◌*◌, ◌<◌, ◌≡◌, refl, ◌∙◌, some, List, [], ◌∷◌, ◌++◌, Bool, true, false, Bytes,
  All, ◌==◌, length, zeros, padded, done, fault, arith, Holds-done,
}
use vcmp.Ini.{Config}
use vcmp.Ini.Store.{ini_create}
use vcmp.Ini.Parser.{Parser, value, peek, parse_turn, is_not_blank, at_value}
use vcmp.Ini.File.{parse_loop, ini_parsebuf}
use vcmp.Ini.Turns.{parse_loop_unread, parse_loop_faulted, parse_loop_turned, ini_parsebuf_started}
use vcmp.Ini.Measure.{measure, MeasureBelow, parse_turn-MeasureBelow}
use vcmp.Ini.Lookup.Added.{IsConfig}
use vcmp.Ini.Lookup.Names.{Starts}
use vcmp.Ini.Lookup.Runs.{created_lem}
use vcmp.Ini.Reading.{Line, file_text, IsLine, IsName, IsValue, NoneOf, ends_line, StartsValue}
use vcmp.Ini.Reading.Scans.{past, skip_until_stops, copy_value_overrun}
use vcmp.Ini.Reading.Steps.{parser_at, Turns, stay, turn}
use vcmp.Ini.Reading.Lines.{to_value, assigns}
use vcmp.Ini.Reading.Openings.{FitsArray, Turns-join, blank-IsOpen, in_line-Without}
use vcmp.Ini.Reading.Files.{file-Reads, file-IsOpen, last_section, last_section-FitsArray}

module _ (malloc : ℕ → Bool) where
  -- The parser stands where it cannot go on.
  data IsStuck : Parser → Type 0 where
    unread : {s : Parser} → peek s.bufp ≡ fault → IsStuck s
    faulted :
        {s : Parser} {c : ℕ}
        → peek s.bufp ≡ done c
        → (c == 0) ≡ false
        → parse_turn malloc s ≡ fault
        → IsStuck s

  parse_loop-IsStuck :
      (fuel : ℕ) {s s' : Parser}
      → measure s < fuel
      → Turns malloc s s'
      → IsStuck s'
      → parse_loop malloc fuel s ≡ some fault
  parse_loop-IsStuck zero h turns stuck = absurd (omega arith)
  parse_loop-IsStuck (suc fuel) h (stay s) (unread bad) = parse_loop_unread malloc fuel s bad
  parse_loop-IsStuck (suc fuel) h (stay s) (faulted at more bad) =
      parse_loop_faulted malloc fuel s at more bad
  parse_loop-IsStuck (suc fuel) {s} h (turn {s' = between} at more turned turns) stuck =
      let below =
        Holds-done (MeasureBelow (measure s)) _ (parse_turn-MeasureBelow malloc s) turned in
      parse_loop_turned malloc fuel s at more turned
      ∙ parse_loop-IsStuck fuel (omega (arith, below)) turns stuck

  long_value-IsStuck :
      (before gap v rest current key_name : Bytes) (cfg : Config) (n : ℕ)
      → All (λ c. is_not_blank c ≡ false) gap
      → StartsValue v
      → NoneOf ends_line v
      → 256 < length v
      → IsStuck (parser_at value before (gap ++ (v ++ rest)) current key_name cfg n)
  unfolding parse_turn at_value
  long_value-IsStuck before gap [] rest current key_name cfg n blanks starts in_line long =
      absurd (omega arith)
  long_value-IsStuck before gap (y ∷ v) rest current key_name cfg n blanks starts in_line long =
      let nonzero : (y == 0) ≡ false = (in_line-Without (y ∷ v) in_line).0 in
      let (c, at, more) = blank-IsOpen gap ((y ∷ v) ++ rest) blanks (y, refl, nonzero) in
      faulted at more (
        rw
          (
            skip_until_stops is_not_blank before gap y (v ++ rest) blanks starts,
            copy_value_overrun (zeros 256) 0 (past gap before) (y ∷ v) rest in_line (omega arith)
                (omega arith),
          )
          refl)

  module _ (memory : (n : ℕ) → malloc n ≡ true) where
    -- A value that ends at a zero with nothing behind it.
    last_value-IsStuck :
        (before : Bytes) (x : ℕ) (xs gap v current : Bytes) (cfg : Config) (n : ℕ)
        → IsConfig cfg
        → FitsArray current
        → IsName (x ∷ xs)
        → All (λ c. is_not_blank c ≡ false) gap
        → Starts v
        → IsValue v
        → (s : Parser) × Turns malloc
            (parser_at value before
              (gap ++ (v ++ (0 ∷ [])))
              (padded current)
              (padded (x ∷ xs))
              cfg
              n)
            s
          × IsStuck s
    last_value-IsStuck before x xs gap [] current cfg n ok fits name blanks start is_value =
        absurd start
    last_value-IsStuck before x xs gap (y ∷ v) current cfg n ok fits name blanks start is_value =
        let (cfg', n', turned, right) =
          assigns malloc memory before x xs gap (y ∷ v) 0 [] current cfg n ok fits name blanks
            is_value refl in
        let (c, at, more) =
          blank-IsOpen gap ((y ∷ v) ++ (0 ∷ [])) blanks
            (y, refl, (in_line-Without (y ∷ v) is_value.1).0) in
        (_, turn at more turned (stay _), unread refl)

    -- Where the parser gets stuck at the value of a pair behind some lines, the buffer is not parsed.
    ini_parsebuf-IsStuck :
        (lines : List Line) (x : ℕ) (xs gap after : Bytes)
        → All IsLine lines
        → IsName (x ∷ xs)
        → All (λ c. is_not_blank c ≡ false) gap
        → ((before : Bytes) (cfg : Config) (n : ℕ)
            → IsConfig cfg
            → (s : Parser) × Turns malloc
                (parser_at value before after
                  (padded (last_section [] lines))
                  (padded (x ∷ xs))
                  cfg
                  n)
                s
              × IsStuck s)
        → ini_parsebuf malloc 0 (some (file_text lines ((x ∷ xs) ++ (gap ++ (b'=' ∷ after)))))
          ≡ some fault
    ini_parsebuf-IsStuck lines x xs gap after all_lines name blanks h =
        let text = (x ∷ xs) ++ (gap ++ (b'=' ∷ after)) in
        let (cfg, made, ok, nothing) = created_lem malloc memory 0 in
        let (c, at, more) =
          file-IsOpen lines text all_lines (x, refl, (in_line-Without (x ∷ xs) name.2).0) in
        let n = (ini_create malloc 0).1 in
        let (before, key_name, cfg', n', turns, ok', found) =
          file-Reads malloc memory [] text [] (zeros 256) lines cfg n ok (tt, omega arith)
            all_lines in
        let to =
          to_value malloc memory before x xs gap after (last_section [] lines) key_name cfg' n' name
            blanks in
        let (s', turns', stuck) = h (b'=' ∷ past gap (past (x ∷ xs) before)) cfg' n' ok' in
        ini_parsebuf_started malloc 0 (file_text lines text) at more made
        ∙ parse_loop-IsStuck (2 * length (file_text lines text) + 1) (omega arith)
            (Turns-join malloc turns (Turns-join malloc to turns')) stuck

    -- With memory for all: behind any lines, a pair whose value is longer than 256 bytes is written
    -- past the end of the array `tmp`.
    pub ini_parsebuf_long_value :
        (lines : List Line) (x : ℕ) (xs gap gap' v rest : Bytes)
        → All IsLine lines
        → IsName (x ∷ xs)
        → All (λ c. is_not_blank c ≡ false) gap
        → All (λ c. is_not_blank c ≡ false) gap'
        → StartsValue v
        → NoneOf ends_line v
        → 256 < length v
        → ini_parsebuf malloc 0
            (some (file_text lines ((x ∷ xs) ++ (gap ++ (b'=' ∷ (gap' ++ (v ++ rest)))))))
          ≡ some fault
    ini_parsebuf_long_value lines x xs gap gap' v rest all_lines name blanks blanks' starts in_line
          long =
        ini_parsebuf-IsStuck lines x xs gap (gap' ++ (v ++ rest)) all_lines name blanks
          λ before cfg n ok. (
            _,
            stay _,
            long_value-IsStuck before gap' v rest (padded (last_section [] lines)) (padded (x ∷ xs))
                cfg n blanks' starts in_line long,
          )

    -- With memory for all: behind any lines, a pair whose value is followed by the zero that ends the
    -- buffer, without a line break, makes the parser step over the zero and read past the end.
    pub ini_parsebuf_last_value :
        (lines : List Line) (x : ℕ) (xs gap gap' v : Bytes)
        → All IsLine lines
        → IsName (x ∷ xs)
        → All (λ c. is_not_blank c ≡ false) gap
        → All (λ c. is_not_blank c ≡ false) gap'
        → Starts v
        → IsValue v
        → ini_parsebuf malloc 0
            (some (file_text lines ((x ∷ xs) ++ (gap ++ (b'=' ∷ (gap' ++ (v ++ (0 ∷ []))))))))
          ≡ some fault
    ini_parsebuf_last_value lines x xs gap gap' v all_lines name blanks blanks' start is_value =
        ini_parsebuf-IsStuck lines x xs gap (gap' ++ (v ++ (0 ∷ []))) all_lines name blanks
          λ before cfg n ok.
            last_value-IsStuck before x xs gap' v (last_section [] lines) cfg n ok
              (last_section-FitsArray [] lines (tt, omega arith) all_lines) name blanks' start
              is_value
