-- ===== src/Ini/Reading/Lines.antt =====
-- Each line is read as the assignment that it stands for (vcmp/lib/ini.c).
use vcmp.Prelude.{
  ℕ, ◌≡◌, refl, sym, ap, ◌∙◌, some, [], ◌∷◌, ◌++◌, Bool, true, false, Bytes, All, padded, done,
}
use vcmp.Ini.{Config}
use vcmp.Ini.Parser.{ready_for_data, value, data_state, parse_turn, is_not_blank}
use vcmp.Ini.Lookup.{lookup}
use vcmp.Ini.Lookup.Names.{padded-Spells}
use vcmp.Ini.Lookup.Places.{or_else-none}
use vcmp.Ini.Lookup.Added.{IsConfig}
use vcmp.Ini.Lookup.Assign.{assign_keyval_lem}
use vcmp.Ini.Lookup.Added.{IsAssigned}
use vcmp.Ini.Reading.{
  Line, blank, remark, heading, pair, line_text, section_named, assignments, IsLine, ends_line,
  IsName, IsValue,
}
use vcmp.Ini.Reading.Scans.{past}
use vcmp.Ini.Reading.Steps.{parser_at, Turns, stay, turn, ready_turn, key_turn, value_turn}
use vcmp.Ini.Reading.Openings.{
  FitsArray, in_line-IsOpen, blank-IsOpen, in_line-Without, next_section, Turns-join, Reads,
  remark-Reads, section-Reads, section_pointer,
}

module _ (malloc : ℕ → Bool) where
  module _ (memory : (n : ℕ) → malloc n ≡ true) where
    -- The turns from the name of a pair to what is behind its `=`.
    pub to_value :
        (before : Bytes) (x : ℕ) (xs gap after current key_name : Bytes) (cfg : Config) (n : ℕ)
        → IsName (x ∷ xs)
        → All (λ c. is_not_blank c ≡ false) gap
        → Turns malloc
            (parser_at ready_for_data before
              ((x ∷ xs) ++ (gap ++ (b'=' ∷ after)))
              (padded current)
              key_name
              cfg
              n)
            (parser_at value
              (b'=' ∷ past gap (past (x ∷ xs) before))
              after
              (padded current)
              (padded (x ∷ xs))
              cfg
              n)
    to_value before x xs gap after current key_name cfg n (starts, no_key, in_line, fits) blanks =
        let (c, at, more) =
          in_line-IsOpen xs (gap ++ (b'=' ∷ after)) in_line.1
            (blank-IsOpen gap (b'=' ∷ after) blanks (b'=', refl, refl)) in
        turn refl (in_line-Without (x ∷ xs) in_line).0
          (ready_turn malloc (padded current) key_name cfg n before x
              (xs ++ (gap ++ (b'=' ∷ after)))
            ∙ ap
                (λ state. done (
                  some (
                    parser_at state (x ∷ before) (xs ++ (gap ++ (b'=' ∷ after))) (padded current)
                      key_name cfg n)))
                starts)
          (turn at more
            (key_turn malloc (padded current) key_name cfg n before x xs gap after no_key in_line
              fits blanks)
            (stay _))

    -- The assignment of a value that ends at the byte `c`.
    pub assigns :
        (before : Bytes) (x : ℕ) (xs gap v : Bytes) (c : ℕ) (tail current : Bytes) (cfg : Config)
        (n : ℕ)
        → IsConfig cfg
        → FitsArray current
        → IsName (x ∷ xs)
        → All (λ c. is_not_blank c ≡ false) gap
        → IsValue v
        → ends_line c ≡ true
        → (cfg' : Config) × (n' : ℕ) × (parse_turn malloc (
              parser_at value before
                (gap ++ (v ++ (c ∷ tail)))
                (padded current)
                (padded (x ∷ xs))
                cfg
                n)
            ≡ done (
                some (
                  parser_at ready_for_data
                    (c ∷ past v (past gap before))
                    tail
                    (padded current)
                    (padded (x ∷ xs))
                    cfg'
                    n')))
          × IsAssigned cfg (section_named current) (x ∷ xs) v cfg'
    assigns before x xs gap v c tail current cfg n ok (w, short) (starts, no_key, in_line, fits)
          blanks (v_starts, v_line, v_fits) e =
        let (o, d, loaded, pointed, spelled) = section_pointer malloc memory current w short in
        let (cfg', n', assigned, right) =
          assign_keyval_lem malloc memory n cfg o (section_named current) (padded (x ∷ xs)) (x ∷ xs)
            (padded v) v ok spelled (padded-Spells (x ∷ xs) (in_line-Without (x ∷ xs) in_line) fits)
            tt (padded-Spells v (in_line-Without v v_line) v_fits) in
        (
          cfg',
          n',
          value_turn malloc (padded current) (padded (x ∷ xs)) cfg n before gap v c tail o blanks
              v_starts v_line v_fits e loaded pointed assigned,
          right,
        )

    pair-Reads :
        (before : Bytes) (x : ℕ) (xs gap gap' v tail current key_name : Bytes) (cfg : Config)
        (n : ℕ)
        → IsConfig cfg
        → FitsArray current
        → IsLine (pair (x ∷ xs) gap gap' v)
        → Reads malloc memory before
            (line_text (pair (x ∷ xs) gap gap' v) tail)
            current
            key_name
            cfg
            n
            tail
            current
            (record { section = section_named current; name = x ∷ xs; value = v } ∷ [])
    pair-Reads before x xs gap gap' v tail current key_name cfg n ok fits
          (name, blanks, blanks', is_value) =
        let after = gap' ++ (v ++ (b'\n' ∷ tail)) in
        let passed = b'=' ∷ past gap (past (x ∷ xs) before) in
        let (cfg', n', turned, (ok', found)) =
          assigns passed x xs gap' v b'\n' tail current cfg n ok fits name blanks' is_value refl in
        let (c, at, more) =
          blank-IsOpen gap' (v ++ (b'\n' ∷ tail)) blanks'
            (in_line-IsOpen v (b'\n' ∷ tail) is_value.1 (b'\n', refl, refl)) in
        (
          b'\n' ∷ past v (past gap' passed),
          padded (x ∷ xs),
          cfg',
          n',
          Turns-join malloc (to_value before x xs gap after current key_name cfg n name blanks)
              (turn at more turned (stay _)),
          ok',
          found,
        )

    pub line-Reads :
        (before tail current key_name : Bytes) (line : Line) (cfg : Config) (n : ℕ)
        → IsConfig cfg
        → FitsArray current
        → IsLine line
        → Reads malloc memory before
            (line_text line tail)
            current
            key_name
            cfg
            n
            tail
            (next_section current line)
            (assignments current (line ∷ []))
    unfolding data_state
    line-Reads before tail current key_name blank cfg n ok fits h = (
      b'\n' ∷ before,
      key_name,
      cfg,
      n,
      turn refl refl (ready_turn malloc (padded current) key_name cfg n before b'\n' tail) (stay _),
      ok,
      λ s k. sym (or_else-none (lookup cfg s k)),
    )
    line-Reads before tail current key_name (remark text) cfg n ok fits h =
        remark-Reads malloc memory before text tail current key_name cfg n ok h
    line-Reads before tail current key_name (heading name) cfg n ok fits (none_of, in_line, short) =
        section-Reads malloc memory before name tail current key_name cfg n ok none_of in_line short
    line-Reads before tail current key_name (pair [] gap gap' v) cfg n ok fits h = absurd h.0.0
    line-Reads before tail current key_name (pair (x ∷ xs) gap gap' v) cfg n ok fits h =
        pair-Reads before x xs gap gap' v tail current key_name cfg n ok fits h
