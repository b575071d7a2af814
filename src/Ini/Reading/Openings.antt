-- ===== src/Ini/Reading/Openings.antt =====
-- Blank lines, remarks and sections by the turns that they take (vcmp/lib/ini.c).
use vcmp.Prelude.{
  ℕ, ◌<◌, ◌≡◌, refl, sym, Option, none, some, List, [], ◌∷◌, ◌++◌, Bool, true, false, Bytes, ◌==◌,
  if◌then◌else◌, length, padded, load, done, arith, Without,
}
use vcmp.Ini.{Config}
use vcmp.Ini.Parser.{Parser, ready_for_data, data_state, ends_comment, ends_section, is_not_blank}
use vcmp.Ini.Lookup.{Assignment, first_value, lookup, or_else}
use vcmp.Ini.Lookup.Names.{padded-Spells}
use vcmp.Ini.Lookup.Places.{or_else-none}
use vcmp.Ini.Lookup.Added.{IsConfig}
use vcmp.Ini.Lookup.Added.{SpellsSection}
use vcmp.Ini.Reading.{Line, blank, remark, heading, pair, section_named, IsLine, NoneOf, ends_line}
use vcmp.Ini.Reading.Scans.{past}
use vcmp.Ini.Reading.Steps.{parser_at, Turns, stay, turn, ready_turn, comment_turn, section_turn}

-- A name that an array of 256 bytes holds with its zero.
abbrev pub FitsArray : Bytes → Type 0
FitsArray current = Without 0 current × (length current < 256)

-- A text starts with a byte that is not zero.
abbrev pub IsOpen : Bytes → Type 0
IsOpen text = (x : ℕ) × (load text 0 ≡ done x) × ((x == 0) ≡ false)

append-IsOpen :
    (stop : ℕ → Bool) (xs rest : Bytes)
    → ((x : ℕ) → stop x ≡ false → (x == 0) ≡ false)
    → NoneOf stop xs
    → IsOpen rest
    → IsOpen (xs ++ rest)
append-IsOpen stop [] rest h none_of open_rest = open_rest
append-IsOpen stop (x ∷ xs) rest h none_of open_rest = (x, refl, h x none_of.0)

pub in_line-IsOpen : (xs rest : Bytes) → NoneOf ends_line xs → IsOpen rest → IsOpen (xs ++ rest)
in_line-IsOpen xs rest = append-IsOpen ends_line xs rest (λ x h. ground arith)

pub blank-IsOpen : (gap rest : Bytes) → NoneOf is_not_blank gap → IsOpen rest → IsOpen (gap ++ rest)
blank-IsOpen gap rest = append-IsOpen is_not_blank gap rest (λ x h. ground arith)

pub in_line-Without : (xs : Bytes) → NoneOf ends_line xs → Without 0 xs
in_line-Without [] none_of = tt
in_line-Without (x ∷ xs) (stays, none_of) = (ground arith, in_line-Without xs none_of)

-- The section behind a line.
abbrev pub next_section : Bytes → Line → Bytes
next_section current blank = current
next_section current (remark text) = current
next_section current (heading name) = name
next_section current (pair name gap gap' v) = current

pub next_section-FitsArray :
    (current : Bytes) (line : Line)
    → FitsArray current
    → IsLine line
    → FitsArray (next_section current line)
next_section-FitsArray current blank fits h = fits
next_section-FitsArray current (remark text) fits h = fits
next_section-FitsArray current (heading name) fits (none_of, in_line, short) =
    (in_line-Without name in_line, short)
next_section-FitsArray current (pair name gap gap' v) fits h = fits

module _ (malloc : ℕ → Bool) where
  pub Turns-join :
      {s s' s'' : Parser} → Turns malloc s s' → Turns malloc s' s'' → Turns malloc s s''
  Turns-join (stay s) k = k
  Turns-join (turn at more turned turns) k = turn at more turned (Turns-join turns k)

  module _ (memory : (n : ℕ) → malloc n ≡ true) where
    -- What the turns of some text leave, between two lines.
    abbrev pub Reads :
        Bytes → Bytes → Bytes → Bytes → Config → ℕ → Bytes → Bytes → List Assignment → Type 0
    Reads before text current key_name cfg n tail current' made =
        (before' : Bytes) × (key_name' : Bytes) × (cfg' : Config) × (n' : ℕ) × Turns malloc
          (parser_at ready_for_data before text (padded current) key_name cfg n)
          (parser_at ready_for_data before' tail (padded current') key_name' cfg' n')
        × IsConfig cfg'
        × ((s : Option Bytes) (k : Bytes)
            → lookup cfg' s k ≡ or_else (lookup cfg s k) (first_value made s k))

    pub remark-Reads :
        (before xs tail current key_name : Bytes) (cfg : Config) (n : ℕ)
        → IsConfig cfg
        → NoneOf ends_comment xs
        → Reads before (b'#' ∷ (xs ++ (b'\n' ∷ tail))) current key_name cfg n tail current []
    unfolding data_state
    remark-Reads before xs tail current key_name cfg n ok none_of =
        let (x, at, more) =
          append-IsOpen ends_comment xs (b'\n' ∷ tail) (λ x h. ground arith) none_of
            (b'\n', refl, refl) in
        (
          b'\n' ∷ past xs (b'#' ∷ before),
          key_name,
          cfg,
          n,
          turn refl refl
              (ready_turn malloc (padded current) key_name cfg n before b'#' (xs ++ (b'\n' ∷ tail)))
              (turn at more
                (comment_turn malloc (padded current) key_name cfg n (b'#' ∷ before) xs b'\n' tail
                  none_of refl)
                (stay _)),
          ok,
          λ s k. sym (or_else-none (lookup cfg s k)),
        )

    pub section-Reads :
        (before xs tail current key_name : Bytes) (cfg : Config) (n : ℕ)
        → IsConfig cfg
        → NoneOf ends_section xs
        → NoneOf ends_line xs
        → length xs < 256
        → Reads before (b'[' ∷ (xs ++ (b']' ∷ b'\n' ∷ tail))) current key_name cfg n tail xs []
    unfolding data_state
    section-Reads before xs tail current key_name cfg n ok none_of in_line short =
        let (x, at, more) = in_line-IsOpen xs (b']' ∷ b'\n' ∷ tail) in_line (b']', refl, refl) in
        let after = past xs (b'[' ∷ before) in
        (
          b'\n' ∷ b']' ∷ after,
          key_name,
          cfg,
          n,
          turn refl refl
              (ready_turn malloc (padded current) key_name cfg n before b'['
                (xs ++ (b']' ∷ b'\n' ∷ tail)))
              (turn at more
                (section_turn malloc (padded current) key_name cfg n (b'[' ∷ before) xs
                  (b'\n' ∷ tail) none_of in_line short)
                (turn refl refl
                  (ready_turn malloc (padded xs) key_name cfg n (b']' ∷ after) b'\n' tail)
                  (stay _))),
          ok,
          λ s k. sym (or_else-none (lookup cfg s k)),
        )

    -- What the array of the section is as a pointer.
    pub section_pointer :
        (current : Bytes)
        → Without 0 current
        → length current < 256
        → (o : Option Bytes) × (d : ℕ) × (load (padded current) 0 ≡ done d)
          × ((if d == 0 then none else some (padded current)) ≡ o)
          × SpellsSection o (section_named current)
    section_pointer [] w short = (none, 0, refl, refl, tt)
    section_pointer (x ∷ xs) w short =
        (some (padded (x ∷ xs)), x, refl, rw w.0 refl, (padded-Spells (x ∷ xs) w short, tt))
