-- ===== src/Ini/Measure.antt =====
-- Each turn of the parser's loop leaves less to do (vcmp/lib/ini.c).
use vcmp.Prelude.{
  ℕ, ◌+◌, ◌*◌, ◌≤◌, ◌<◌, Option, none, some, [], ◌∷◌, Bool, Bytes, ◌==◌, if◌then◌else◌, load,
  length, Holds, >>=-Holds, Holds-done, arith,
}
use mathlib.Core.Path.{subst}
use vcmp.Ini.Store.{assign_keyval}
use vcmp.Ini.Parser.{
  Parser, ParserState, Pointer, ready_for_data, comment, section_name, key, value, advance, retreat,
  peek, skip_until, find_equals, copy_name, copy_value, data_state, at_ready, at_comment,
  at_section_name, find_value_of, with_section, with_key, step_over, at_key, at_value, parse_state,
  parse_turn, advance_in, retreat_in, ends_section, ends_key, ends_comment, is_not_blank,
}
use vcmp.Ini.Scanning.{
  PointsIf, CopiedTo, skip_until-Points, find_equals-PointsIf, copy_name-CopiedTo,
  copy_value-Points,
}

abbrev weight : ParserState → ℕ
weight key = 1
weight _ = 0

-- The state of a key takes the pointer back by one.
abbrev pub measure : Parser → ℕ
measure s = 2 * length s.bufp.rest + weight s.state

abbrev MeasureUpTo : ℕ → Option Parser → Type 0
MeasureUpTo n none = Unit
MeasureUpTo n (some s) = measure s ≤ n

-- The pointer has at most `n` bytes before the end of the buffer.
abbrev EndsBy : ℕ → Bytes → Bytes → Type 0
EndsBy n before rest = length rest ≤ n

EndsBy_passes :
    (n : ℕ) (before : Bytes) (c : ℕ) (rest : Bytes)
    → EndsBy n before (c ∷ rest)
    → EndsBy n (c ∷ before) rest
EndsBy_passes n before c rest h = omega (arith, h)

weight_bound : (state : ParserState) → weight state ≤ 1
weight_bound ready_for_data = omega arith
weight_bound comment = omega arith
weight_bound section_name = omega arith
weight_bound key = omega arith
weight_bound value = omega arith

at_ready-measure : (s : Parser) → Holds (MeasureUpTo (2 * length s.bufp.rest + 1)) (at_ready s)
unfolding at_ready
at_ready-measure s =
    >>=-Holds (MeasureUpTo (2 * length s.bufp.rest + 1)) (peek s.bufp) _
      λ c _. omega (arith, weight_bound (data_state c))

at_comment-measure : (s : Parser) → Holds (MeasureUpTo (2 * length s.bufp.rest + 1)) (at_comment s)
unfolding at_comment
at_comment-measure s =
    >>=-Holds (MeasureUpTo (2 * length s.bufp.rest + 1))
      (skip_until ends_comment s.bufp.before s.bufp.rest) _
      λ p e.
        let short =
          Holds-done (λ p. length p.rest ≤ length s.bufp.rest) _
            (skip_until-Points (EndsBy (length s.bufp.rest)) (EndsBy_passes (length s.bufp.rest))
              ends_comment s.bufp.before s.bufp.rest (omega arith))
            e in
        omega (arith, short)

with_section-measure :
    (s : Parser) (copied : Option (Bytes × Pointer))
    → CopiedTo (EndsBy (length s.bufp.rest)) (EndsBy_passes (length s.bufp.rest)) copied
    → MeasureUpTo (2 * length s.bufp.rest + 1) (with_section s copied)
with_section-measure s none h = tt
with_section-measure s (some (tmp, p)) h = omega (arith, h)

at_section_name-measure :
    (s : Parser) → Holds (MeasureUpTo (2 * length s.bufp.rest + 1)) (at_section_name s)
unfolding at_section_name
at_section_name-measure s =
    >>=-Holds (MeasureUpTo (2 * length s.bufp.rest + 1))
      (copy_name ends_section 255 s.tmp 0 s.bufp.before s.bufp.rest) _
      λ copied e. with_section-measure s copied (
        Holds-done (CopiedTo (EndsBy (length s.bufp.rest)) (EndsBy_passes (length s.bufp.rest))) _
          (copy_name-CopiedTo (EndsBy (length s.bufp.rest)) (EndsBy_passes (length s.bufp.rest))
            ends_section 255 s.tmp 0 s.bufp.before s.bufp.rest (omega arith))
          e)

with_key-measure :
    (s : Parser) (tmp : Bytes) (n : ℕ) (found : Option Pointer)
    → PointsIf (EndsBy n) (EndsBy_passes n) found
    → MeasureUpTo (2 * n) (with_key s tmp found)
with_key-measure s tmp n none h = tt
with_key-measure s tmp n (some p) h = omega (arith, h)

find_value_of-measure :
    (s : Parser) (n : ℕ) (copied : Option (Bytes × Pointer))
    → CopiedTo (EndsBy n) (EndsBy_passes n) copied
    → Holds (MeasureUpTo (2 * n)) (find_value_of s copied)
unfolding find_value_of
find_value_of-measure s n none h = tt
find_value_of-measure s n (some (tmp, p)) h =
    >>=-Holds (MeasureUpTo (2 * n)) (find_equals p.before p.rest) _ λ found e.
      with_key-measure s tmp n found (
        Holds-done (PointsIf (EndsBy n) (EndsBy_passes n)) _
          (find_equals-PointsIf (EndsBy n) (EndsBy_passes n) p.before p.rest h) e)

-- The step back gives one byte more.
retreat_in-length :
    (before rest : Bytes) → Holds (λ q. length q.rest ≤ length rest + 1) (retreat_in before rest)
retreat_in-length [] rest = tt
retreat_in-length (c ∷ before) rest = omega arith

at_key-measure : (s : Parser) → Holds (MeasureUpTo (2 * (length s.bufp.rest + 1))) (at_key s)
unfolding at_key
at_key-measure s =
    >>=-Holds (MeasureUpTo (2 * (length s.bufp.rest + 1))) (retreat s.bufp) _ λ start e.
      >>=-Holds (MeasureUpTo (2 * (length s.bufp.rest + 1)))
        (copy_name ends_key 256 s.tmp 0 start.before start.rest) _
        λ copied e'. find_value_of-measure s (length s.bufp.rest + 1) copied (
          Holds-done
            (CopiedTo (EndsBy (length s.bufp.rest + 1)) (EndsBy_passes (length s.bufp.rest + 1))) _
            (copy_name-CopiedTo (EndsBy (length s.bufp.rest + 1))
              (EndsBy_passes (length s.bufp.rest + 1)) ends_key 256 s.tmp 0 start.before start.rest
              (Holds-done (λ q. length q.rest ≤ length s.bufp.rest + 1) _
                (retreat_in-length s.bufp.before s.bufp.rest) e))
            e')

abbrev pub MeasureBelow : ℕ → Option Parser → Type 0
MeasureBelow n none = Unit
MeasureBelow n (some s) = measure s < n

-- `bufp++` takes one byte off the rest.
advance_in-length :
    (before rest : Bytes) → Holds (λ q. length q.rest + 1 ≤ length rest) (advance_in before rest)
advance_in-length before [] = tt
advance_in-length before (c ∷ rest) = omega arith

step_over-MeasureBelow :
    (n : ℕ) (after : Option Parser)
    → MeasureUpTo (n + 1) after
    → Holds (MeasureBelow n) (step_over after)
step_over-MeasureBelow n none h = tt
step_over-MeasureBelow n (some s) h = >>=-Holds (MeasureBelow n) (advance s.bufp) _ λ p e.
    let short =
      Holds-done (λ q. length q.rest + 1 ≤ length s.bufp.rest) _
        (advance_in-length s.bufp.before s.bufp.rest) e in
    omega (arith, short, h)

module _ (malloc : ℕ → Bool) where
  at_value-measure :
      (s : Parser) → Holds (MeasureUpTo (2 * length s.bufp.rest + 1)) (at_value malloc s)
  unfolding at_value
  at_value-measure s =
      >>=-Holds (MeasureUpTo (2 * length s.bufp.rest + 1))
        (skip_until is_not_blank s.bufp.before s.bufp.rest) _
        λ start e.
          >>=-Holds (MeasureUpTo (2 * length s.bufp.rest + 1))
            (copy_value s.tmp 0 start.before start.rest) _
            λ copied e'.
              let short =
                Holds-done (λ p. length p.rest ≤ length s.bufp.rest) _
                  (skip_until-Points (EndsBy (length s.bufp.rest))
                    (EndsBy_passes (length s.bufp.rest)) is_not_blank s.bufp.before s.bufp.rest
                    (omega arith))
                  e in
              let shorter =
                Holds-done (λ c. length c.1.rest ≤ length s.bufp.rest) _
                  (copy_value-Points (EndsBy (length s.bufp.rest))
                    (EndsBy_passes (length s.bufp.rest)) s.tmp 0 start.before start.rest short)
                  e' in
              >>=-Holds (MeasureUpTo (2 * length s.bufp.rest + 1)) (load s.current_section 0) _
                λ c _.
                  >>=-Holds (MeasureUpTo (2 * length s.bufp.rest + 1))
                    (assign_keyval malloc s.calls s.cfg
                      (if c == 0 then none else some s.current_section) (some s.current_key)
                      copied.0)
                    _ λ assigned _. omega (arith, shorter)

  parse_state-measure :
      (state : ParserState) (s : Parser)
      → Holds (MeasureUpTo (2 * length s.bufp.rest + weight state + 1)) (parse_state malloc state s)
  unfolding parse_state
  parse_state-measure ready_for_data s =
      subst (λ n. Holds (MeasureUpTo n) (at_ready s)) (omega arith) (at_ready-measure s)
  parse_state-measure comment s =
      subst (λ n. Holds (MeasureUpTo n) (at_comment s)) (omega arith) (at_comment-measure s)
  parse_state-measure section_name s =
      subst (λ n. Holds (MeasureUpTo n) (at_section_name s)) (omega arith)
        (at_section_name-measure s)
  parse_state-measure key s =
      subst (λ n. Holds (MeasureUpTo n) (at_key s)) (omega arith) (at_key-measure s)
  parse_state-measure value s =
      subst (λ n. Holds (MeasureUpTo n) (at_value malloc s)) (omega arith) (at_value-measure s)

  -- A turn that goes on leaves a smaller measure.
  pub parse_turn-MeasureBelow :
      (s : Parser) → Holds (MeasureBelow (measure s)) (parse_turn malloc s)
  unfolding parse_turn
  parse_turn-MeasureBelow s =
      >>=-Holds (MeasureBelow (measure s)) (parse_state malloc s.state s) _ λ after e.
        step_over-MeasureBelow (measure s) after
          (Holds-done (MeasureUpTo (measure s + 1)) _ (parse_state-measure s.state s) e)
