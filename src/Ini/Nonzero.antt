-- ===== src/Ini/Nonzero.antt =====
-- The parser stays among bytes that are not zero (vcmp/lib/ini.c).
use vcmp.Prelude.{
  ℕ, ◌≡◌, refl, Option, none, some, [], ◌∷◌, Bool, Bytes, ◌==◌, if◌then◌else◌, load, Without, Holds,
  >>=-Holds, Holds-done,
}
use vcmp.Ini.{Config}
use vcmp.Ini.Store.{assign_keyval}
use vcmp.Ini.Frees.{ini_free}
use vcmp.Ini.Parser.{
  Parser, ParserState, Pointer, ready_for_data, comment, section_name, key, value, advance, retreat,
  advance_in, retreat_in, peek, skip_until, find_equals, copy_name, copy_value, find_value_of,
  with_section, with_key, step_over, parse_state, parse_turn, ends_section, ends_key, ends_comment,
  is_not_blank,
}
use vcmp.Ini.Scanning.{
  PointsIf, CopiedTo, skip_until-Points, find_equals-PointsIf, copy_name-CopiedTo,
  copy_value-Points,
}

-- There is no file, or one without zero bytes.
abbrev pub IsTextFile : Option Bytes → Type 0
IsTextFile none = Unit
IsTextFile (some file) = Without 0 file

abbrev pub Nonzero : Bytes → Bytes → Type 0
Nonzero before rest = Without 0 before × Without 0 rest

Nonzero_passes :
    (before : Bytes) (c : ℕ) (rest : Bytes) → Nonzero before (c ∷ rest) → Nonzero (c ∷ before) rest
Nonzero_passes before c rest (w, (here, further)) = ((here, w), further)

abbrev pub NonzeroAt : Pointer → Type 0
NonzeroAt p = Nonzero p.before p.rest

abbrev pub NonzeroIf : Option Parser → Type 0
NonzeroIf none = Unit
NonzeroIf (some s) = NonzeroAt s.bufp

retreat_in-NonzeroAt :
    (before rest : Bytes) → Nonzero before rest → Holds NonzeroAt (retreat_in before rest)
retreat_in-NonzeroAt [] rest h = tt
retreat_in-NonzeroAt (c ∷ before) rest ((here, w), further) = (w, (here, further))

advance_in-NonzeroAt :
    (before rest : Bytes) → Nonzero before rest → Holds NonzeroAt (advance_in before rest)
advance_in-NonzeroAt before [] h = tt
advance_in-NonzeroAt before (c ∷ rest) h = Nonzero_passes before c rest h

with_section-NonzeroIf :
    (s : Parser) (copied : Option (Bytes × Pointer))
    → CopiedTo Nonzero Nonzero_passes copied
    → NonzeroIf (with_section s copied)
with_section-NonzeroIf s none h = tt
with_section-NonzeroIf s (some (tmp, p)) h = h

with_key-NonzeroIf :
    (s : Parser) (tmp : Bytes) (found : Option Pointer)
    → PointsIf Nonzero Nonzero_passes found
    → NonzeroIf (with_key s tmp found)
with_key-NonzeroIf s tmp none h = tt
with_key-NonzeroIf s tmp (some p) h = h

find_value_of-NonzeroIf :
    (s : Parser) (copied : Option (Bytes × Pointer))
    → CopiedTo Nonzero Nonzero_passes copied
    → Holds NonzeroIf (find_value_of s copied)
unfolding find_value_of
find_value_of-NonzeroIf s none h = tt
find_value_of-NonzeroIf s (some (tmp, p)) h =
    >>=-Holds NonzeroIf (find_equals p.before p.rest) _ λ found e. with_key-NonzeroIf s tmp found (
      Holds-done (PointsIf Nonzero Nonzero_passes) _
        (find_equals-PointsIf Nonzero Nonzero_passes p.before p.rest h) e)

step_over-NonzeroIf : (after : Option Parser) → NonzeroIf after → Holds NonzeroIf (step_over after)
step_over-NonzeroIf none h = tt
step_over-NonzeroIf (some s) h =
    >>=-Holds NonzeroIf (advance s.bufp) _
      λ p e. Holds-done NonzeroAt _ (advance_in-NonzeroAt s.bufp.before s.bufp.rest h) e

pub ini_free-none : (cfg : Option Config) → (ini_free cfg).1 ≡ none
unfolding ini_free
ini_free-none none = refl
ini_free-none (some cfg) = refl

module _ (malloc : ℕ → Bool) where
  parse_state-NonzeroIf :
      (state : ParserState) (s : Parser)
      → NonzeroAt s.bufp
      → Holds NonzeroIf (parse_state malloc state s)
  unfolding parse_state
  parse_state-NonzeroIf ready_for_data s h = >>=-Holds NonzeroIf (peek s.bufp) _ λ c _. h
  parse_state-NonzeroIf comment s h =
      >>=-Holds NonzeroIf (skip_until ends_comment s.bufp.before s.bufp.rest) _ λ p e.
        Holds-done NonzeroAt _
          (skip_until-Points Nonzero Nonzero_passes ends_comment s.bufp.before s.bufp.rest h) e
  parse_state-NonzeroIf section_name s h =
      >>=-Holds NonzeroIf (copy_name ends_section 255 s.tmp 0 s.bufp.before s.bufp.rest) _
        λ copied e. with_section-NonzeroIf s copied (
          Holds-done (CopiedTo Nonzero Nonzero_passes) _
            (copy_name-CopiedTo Nonzero Nonzero_passes ends_section 255 s.tmp 0 s.bufp.before
              s.bufp.rest h)
            e)
  parse_state-NonzeroIf key s h = >>=-Holds NonzeroIf (retreat s.bufp) _ λ start e.
      >>=-Holds NonzeroIf (copy_name ends_key 256 s.tmp 0 start.before start.rest) _ λ copied e'.
        find_value_of-NonzeroIf s copied (
          Holds-done (CopiedTo Nonzero Nonzero_passes) _
            (copy_name-CopiedTo Nonzero Nonzero_passes ends_key 256 s.tmp 0 start.before start.rest
              (Holds-done NonzeroAt _ (retreat_in-NonzeroAt s.bufp.before s.bufp.rest h) e))
            e')
  parse_state-NonzeroIf value s h =
      >>=-Holds NonzeroIf (skip_until is_not_blank s.bufp.before s.bufp.rest) _ λ start e.
        let begun =
          Holds-done NonzeroAt _
            (skip_until-Points Nonzero Nonzero_passes is_not_blank s.bufp.before s.bufp.rest h) e in
        >>=-Holds NonzeroIf (copy_value s.tmp 0 start.before start.rest) _ λ copied e'.
          let ended =
            Holds-done (λ c. NonzeroAt c.1) _
              (copy_value-Points Nonzero Nonzero_passes s.tmp 0 start.before start.rest begun) e' in
          >>=-Holds NonzeroIf (load s.current_section 0) _ λ c _.
            >>=-Holds NonzeroIf
              (assign_keyval malloc s.calls s.cfg (if c == 0 then none else some s.current_section)
                (some s.current_key) copied.0)
              _ λ assigned _. ended

  pub parse_turn-NonzeroIf : (s : Parser) → NonzeroAt s.bufp → Holds NonzeroIf (parse_turn malloc s)
  unfolding parse_turn
  parse_turn-NonzeroIf s h = >>=-Holds NonzeroIf (parse_state malloc s.state s) _ λ after e.
      step_over-NonzeroIf after (Holds-done NonzeroIf _ (parse_state-NonzeroIf s.state s h) e)
