-- ===== src/Ini/Freeing/Turned.antt =====
-- The blocks that one turn of the parser is given are in the configuration (vcmp/lib/ini.c).
use vcmp.Prelude.{
  ℕ, refl, Option, none, some, Bool, Bytes, ◌==◌, if◌then◌else◌, load, Holds, >>=-Holds, Holds-done,
}
use vcmp.Ini.Store.{assign_keyval}
use vcmp.Ini.Parser.{
  Parser, ParserState, Pointer, ready_for_data, comment, section_name, key, value, advance, retreat,
  peek, skip_until, find_equals, copy_name, copy_value, at_ready, at_comment, at_section_name,
  find_value_of, with_section, with_key, step_over, at_key, at_value, parse_state, parse_turn,
  ends_section, ends_key, ends_comment, is_not_blank,
}
use vcmp.Ini.Freeing.Assigned.{ConfigGiven, assign_keyval-ConfigGiven}

module _ (malloc : ℕ → Bool) where
  -- From the parser `s` to the parser after it, if there is one.
  abbrev pub ParserGiven : Parser → Option Parser → Type 0
  ParserGiven s none = Unit
  ParserGiven s (some s') = ConfigGiven malloc s.calls s.cfg (s'.cfg, s'.calls)

  at_ready-ParserGiven : (s : Parser) → Holds (ParserGiven s) (at_ready s)
  unfolding at_ready
  at_ready-ParserGiven s = >>=-Holds (ParserGiven s) (peek s.bufp) _ λ c _ x. refl

  at_comment-ParserGiven : (s : Parser) → Holds (ParserGiven s) (at_comment s)
  unfolding at_comment
  at_comment-ParserGiven s =
      >>=-Holds (ParserGiven s) (skip_until ends_comment s.bufp.before s.bufp.rest) _ λ p _ x. refl

  with_section-ParserGiven :
      (s : Parser) (copied : Option (Bytes × Pointer)) → ParserGiven s (with_section s copied)
  with_section-ParserGiven s none = tt
  with_section-ParserGiven s (some (tmp, p)) = λ x. refl

  at_section_name-ParserGiven : (s : Parser) → Holds (ParserGiven s) (at_section_name s)
  unfolding at_section_name
  at_section_name-ParserGiven s =
      >>=-Holds (ParserGiven s) (copy_name ends_section 255 s.tmp 0 s.bufp.before s.bufp.rest) _
        λ copied _. with_section-ParserGiven s copied

  with_key-ParserGiven :
      (s : Parser) (tmp : Bytes) (found : Option Pointer) → ParserGiven s (with_key s tmp found)
  with_key-ParserGiven s tmp none = tt
  with_key-ParserGiven s tmp (some p) = λ x. refl

  find_value_of-ParserGiven :
      (s : Parser) (copied : Option (Bytes × Pointer))
      → Holds (ParserGiven s) (find_value_of s copied)
  unfolding find_value_of
  find_value_of-ParserGiven s none = tt
  find_value_of-ParserGiven s (some (tmp, p)) =
      >>=-Holds (ParserGiven s) (find_equals p.before p.rest) _
        λ found _. with_key-ParserGiven s tmp found

  at_key-ParserGiven : (s : Parser) → Holds (ParserGiven s) (at_key s)
  unfolding at_key
  at_key-ParserGiven s = >>=-Holds (ParserGiven s) (retreat s.bufp) _ λ start _.
      >>=-Holds (ParserGiven s) (copy_name ends_key 256 s.tmp 0 start.before start.rest) _
        λ copied _. find_value_of-ParserGiven s copied

  at_value-ParserGiven : (s : Parser) → Holds (ParserGiven s) (at_value malloc s)
  unfolding at_value
  at_value-ParserGiven s =
      >>=-Holds (ParserGiven s) (skip_until is_not_blank s.bufp.before s.bufp.rest) _ λ start _.
        >>=-Holds (ParserGiven s) (copy_value s.tmp 0 start.before start.rest) _ λ copied _.
          >>=-Holds (ParserGiven s) (load s.current_section 0) _ λ c _.
            let section : Option Bytes = if c == 0 then none else some s.current_section in
            >>=-Holds (ParserGiven s)
              (assign_keyval malloc s.calls s.cfg section (some s.current_key) copied.0) _
              λ assigned e.
                Holds-done (ConfigGiven malloc s.calls s.cfg) _
                  (assign_keyval-ConfigGiven malloc s.calls s.cfg section s.current_key copied.0) e

  parse_state-ParserGiven :
      (state : ParserState) (s : Parser) → Holds (ParserGiven s) (parse_state malloc state s)
  unfolding parse_state
  parse_state-ParserGiven ready_for_data s = at_ready-ParserGiven s
  parse_state-ParserGiven comment s = at_comment-ParserGiven s
  parse_state-ParserGiven section_name s = at_section_name-ParserGiven s
  parse_state-ParserGiven key s = at_key-ParserGiven s
  parse_state-ParserGiven value s = at_value-ParserGiven s

  step_over-ParserGiven :
      (s : Parser) (after : Option Parser)
      → ParserGiven s after
      → Holds (ParserGiven s) (step_over after)
  step_over-ParserGiven s none h = tt
  step_over-ParserGiven s (some s') h = >>=-Holds (ParserGiven s) (advance s'.bufp) _ λ p _. h

  pub parse_turn-ParserGiven : (s : Parser) → Holds (ParserGiven s) (parse_turn malloc s)
  unfolding parse_turn
  parse_turn-ParserGiven s = >>=-Holds (ParserGiven s) (parse_state malloc s.state s) _ λ after e.
      step_over-ParserGiven s after
        (Holds-done (ParserGiven s) _ (parse_state-ParserGiven s.state s) e)
