-- ===== src/Ini/Reading/Files.antt =====
-- A file of lines is read as the assignments that it stands for (vcmp/lib/ini.c).
use vcmp.Prelude.{
  ℕ, zero, suc, ◌+◌, ◌*◌, ◌<◌, ◌≡◌, refl, sym, ap, ◌∙◌, Option, some, List, [], ◌∷◌, Bool, true,
  Bytes, All, length, zeros, done, arith, Without, Holds-done,
}
use vcmp.Ini.{Config}
use vcmp.Ini.Store.{ini_create, ini_get_value}
use vcmp.Ini.Parser.{Parser, peek}
use vcmp.Ini.File.{parse_loop, ini_parsebuf, end_with}
use vcmp.Ini.Turns.{parse_loop_ended, parse_loop_turned, ini_parsebuf_started}
use vcmp.Ini.Measure.{measure, MeasureBelow, parse_turn-MeasureBelow}
use vcmp.Ini.Lookup.{first_value, lookup, or_else}
use vcmp.Ini.Lookup.Names.{Starts}
use vcmp.Ini.Lookup.Places.{or_else-none}
use vcmp.Ini.Lookup.Added.{IsConfig}
use vcmp.Ini.Lookup.Runs.{
  copied, or_else-first, object_of, section_object, IsSectionName, object_of-Spells,
  section_object-SpellsSection, ini_get_value_lem, created_lem,
}
use vcmp.Ini.Reading.{
  Line, blank, remark, heading, pair, line_text, file_text, section_named, assignments, IsLine,
}
use vcmp.Ini.Reading.Steps.{Turns, stay, turn}
use vcmp.Ini.Reading.Lines.{line-Reads}
use vcmp.Ini.Reading.Openings.{
  FitsArray, Turns-join, IsOpen, Reads, next_section, next_section-FitsArray, in_line-Without,
}

pub line-IsOpen : (line : Line) (tail : Bytes) → IsLine line → IsOpen (line_text line tail)
line-IsOpen blank tail h = (b'\n', refl, refl)
line-IsOpen (remark text) tail h = (b'#', refl, refl)
line-IsOpen (heading name) tail h = (b'[', refl, refl)
line-IsOpen (pair [] gap gap' v) tail h = absurd h.0.0
line-IsOpen (pair (x ∷ xs) gap gap' v) tail h = (x, refl, (in_line-Without (x ∷ xs) h.0.2).0)

pub file-IsOpen :
    (lines : List Line) (tail : Bytes)
    → All IsLine lines
    → IsOpen tail
    → IsOpen (file_text lines tail)
file-IsOpen [] tail h opened = opened
file-IsOpen (line ∷ lines) tail h opened = line-IsOpen line (file_text lines tail) h.0

-- The section behind some lines.
abbrev pub last_section : Bytes → List Line → Bytes
last_section current [] = current
last_section current (line ∷ lines) = last_section (next_section current line) lines

pub last_section-FitsArray :
    (current : Bytes) (lines : List Line)
    → FitsArray current
    → All IsLine lines
    → FitsArray (last_section current lines)
last_section-FitsArray current [] fits h = fits
last_section-FitsArray current (line ∷ lines) fits (h, all_h) =
    last_section-FitsArray (next_section current line) lines
      (next_section-FitsArray current line fits h) all_h

module _ (malloc : ℕ → Bool) where
  -- With more fuel than the measure, the loop follows the turns to the zero.
  parse_loop-Turns :
      (fuel : ℕ) {s s' : Parser}
      → measure s < fuel
      → Turns malloc s s'
      → peek s'.bufp ≡ done 0
      → parse_loop malloc fuel s ≡ some (done (end_with s'))
  parse_loop-Turns zero h turns end = absurd (omega arith)
  parse_loop-Turns (suc fuel) h (stay s) end = parse_loop_ended malloc fuel s end refl
  parse_loop-Turns (suc fuel) {s} h (turn {s' = between} at more turned turns) end =
      let below =
        Holds-done (MeasureBelow (measure s)) _ (parse_turn-MeasureBelow malloc s) turned in
      parse_loop_turned malloc fuel s at more turned
      ∙ parse_loop-Turns fuel (omega (arith, below)) turns end

  module _ (memory : (n : ℕ) → malloc n ≡ true) where
    -- What is found after a line and after those behind it.
    found_behind :
        (current : Bytes) (line : Line) (lines : List Line) (o : Option Bytes) (s : Option Bytes)
        (k : Bytes)
        → or_else
            (or_else o (first_value (assignments current (line ∷ [])) s k))
            (first_value (assignments (next_section current line) lines) s k)
          ≡ or_else o (first_value (assignments current (line ∷ lines)) s k)
    found_behind current blank lines o s k = rw (or_else-none o) refl
    found_behind current (remark text) lines o s k = rw (or_else-none o) refl
    found_behind current (heading name) lines o s k = rw (or_else-none o) refl
    found_behind current (pair name gap gap' v) lines o s k =
        or_else-first o (record { section = section_named current; name = name; value = v })
          (assignments current lines) s k

    pub file-Reads :
        (before tail current key_name : Bytes) (lines : List Line) (cfg : Config) (n : ℕ)
        → IsConfig cfg
        → FitsArray current
        → All IsLine lines
        → Reads malloc memory before
            (file_text lines tail)
            current
            key_name
            cfg
            n
            tail
            (last_section current lines)
            (assignments current lines)
    file-Reads before tail current key_name [] cfg n ok fits h =
        (before, key_name, cfg, n, stay _, ok, λ s k. sym (or_else-none (lookup cfg s k)))
    file-Reads before tail current key_name (line ∷ lines) cfg n ok fits (h, all_h) =
        let (before', key_name', cfg', n', turns, ok', found) =
          line-Reads malloc memory before (file_text lines tail) current key_name line cfg n ok fits
            h in
        let (before'', key_name'', cfg'', n'', turns', ok'', found') =
          file-Reads before' tail (next_section current line) key_name' lines cfg' n' ok'
            (next_section-FitsArray current line fits h) all_h in
        (
          before'',
          key_name'',
          cfg'',
          n'',
          Turns-join malloc turns turns',
          ok'',
          λ s k.
              found' s k
              ∙ ap
                  (λ o. or_else o (first_value (assignments (next_section current line) lines) s k))
                  (found s k)
              ∙ found_behind current line lines (lookup cfg s k) s k,
        )

    -- A buffer of lines, with a zero behind them, is read, and what is found in the configuration is
    -- what the lines say.
    pub ini_parsebuf_reads :
        (n : ℕ) (line : Line) (lines : List Line) (rest : Bytes)
        → All IsLine (line ∷ lines)
        → (cfg : Config) × (n' : ℕ) × (ini_parsebuf malloc n
              (some (file_text (line ∷ lines) (0 ∷ rest)))
            ≡ some (done (record { result = some cfg; freed = []; allocations = n' })))
          × IsConfig cfg
          × ((s : Option Bytes) (k : Bytes)
              → lookup cfg s k ≡ first_value (assignments [] (line ∷ lines)) s k)
    ini_parsebuf_reads n line lines rest h =
        let buf = file_text (line ∷ lines) (0 ∷ rest) in
        let (cfg, made, ok, nothing) = created_lem malloc memory n in
        let (c, at, more) = line-IsOpen line (file_text lines (0 ∷ rest)) h.0 in
        let (before, key_name, cfg', n', turns, ok', found) =
          file-Reads [] (0 ∷ rest) [] (zeros 256) (line ∷ lines) cfg (ini_create malloc n).1 ok
            (tt, omega arith) h in
        (
          cfg',
          n',
          ini_parsebuf_started malloc n buf at more made
              ∙ parse_loop-Turns (2 * length buf + 1) (omega arith) turns refl,
          ok',
          λ s k.
              found s k
              ∙ ap (λ o. or_else o (first_value (assignments [] (line ∷ lines)) s k)) (nothing s k),
        )

    -- With memory for all, a buffer of lines, with a zero behind them, is read without a fault, and
    -- then `ini_get_value` gives a copy of the first value that the lines give to that key in that
    -- section, or the null pointer if there is none. A line is blank, a remark behind `#`, a section,
    -- or a pair with blanks around its `=`, and its names and values are shorter than 256 bytes.
    pub ini_parsebuf-file_text :
        (n : ℕ) (line : Line) (lines : List Line) (rest : Bytes) (section : Option Bytes)
        (k : Bytes)
        → All IsLine (line ∷ lines)
        → IsSectionName section
        → Without 0 k
        → Starts k
        → (cfg : Config) × (n' : ℕ) × (ini_parsebuf malloc n
              (some (file_text (line ∷ lines) (0 ∷ rest)))
            ≡ some (done (record { result = some cfg; freed = []; allocations = n' })))
          × (ini_get_value malloc n' (some cfg) (section_object section) (some (object_of k))
              ≡ done (copied malloc n' (first_value (assignments [] (line ∷ lines)) section k)))
    ini_parsebuf-file_text n line lines rest section k h is_section w start =
        let (cfg, n', runs, ok, found) = ini_parsebuf_reads n line lines rest h in
        (
          cfg,
          n',
          runs,
          ini_get_value_lem malloc n' cfg (section_object section) section (object_of k) k ok
                (section_object-SpellsSection section is_section) (object_of-Spells k w) start
              ∙ ap (λ o. done (copied malloc n' o)) (found section k),
        )
