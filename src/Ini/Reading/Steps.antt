-- ===== src/Ini/Reading/Steps.antt =====
-- Each line by the turns of the loop that it takes (vcmp/lib/ini.c).
use vcmp.Prelude.{
  ℕ, ◌<◌, ◌≡◌, refl, Option, none, some, [], ◌∷◌, ◌++◌, Bool, true, false, Bytes, All, ◌==◌,
  if◌then◌else◌, length, zeros, padded, load, done, arith,
}
use vcmp.Ini.{Config}
use vcmp.Ini.Store.{assign_keyval}
use vcmp.Ini.Parser.{
  Parser, ParserState, ready_for_data, comment, section_name, key, value, peek, data_state,
  at_comment, at_section_name, at_key, at_value, find_value_of, parse_turn, ends_comment,
  ends_section, ends_key, is_not_blank,
}
use vcmp.Ini.Reading.{NoneOf, ends_line, StartsValue}
use vcmp.Ini.Reading.Scans.{
  past, pointer, skip_until_stops, find_equals_stops, copy_name_stops, copy_value_stops,
}

-- A parser between two turns.
abbrev pub parser_at : ParserState → Bytes → Bytes → Bytes → Bytes → Config → ℕ → Parser
parser_at state before rest current_section current_key cfg n = record {
  state = state;
  bufp = pointer before rest;
  tmp = zeros 256;
  current_section = current_section;
  current_key = current_key;
  cfg = some cfg;
  calls = n;
}

module _ (malloc : ℕ → Bool) where
  -- Any number of turns of the loop.
  pub data Turns : Parser → Parser → Type 0 where
    stay : (s : Parser) → Turns s s
    turn :
        {s s' s'' : Parser} {c : ℕ}
        → peek s.bufp ≡ done c
        → (c == 0) ≡ false
        → parse_turn malloc s ≡ done (some s')
        → Turns s' s''
        → Turns s s''

  module _ (section key_name : Bytes) (cfg : Config) (n : ℕ) where
    abbrev here : ParserState → Bytes → Bytes → Parser
    here state before rest = parser_at state before rest section key_name cfg n

    pub ready_turn :
        (before : Bytes) (c : ℕ) (rest : Bytes)
        → parse_turn malloc (here ready_for_data before (c ∷ rest))
          ≡ done (some (here (data_state c) (c ∷ before) rest))
    unfolding parse_turn
    ready_turn before c rest = refl

    pub comment_turn :
        (before xs : Bytes) (c : ℕ) (rest : Bytes)
        → NoneOf ends_comment xs
        → ends_comment c ≡ true
        → parse_turn malloc (here comment before (xs ++ (c ∷ rest)))
          ≡ done (some (here ready_for_data (c ∷ past xs before) rest))
    unfolding parse_turn at_comment
    comment_turn before xs c rest none_of e =
        rw (skip_until_stops ends_comment before xs c rest none_of e) refl

    pub section_turn :
        (before xs rest : Bytes)
        → NoneOf ends_section xs
        → NoneOf ends_line xs
        → length xs < 256
        → parse_turn malloc (here section_name before (xs ++ (b']' ∷ rest)))
          ≡ done (
              some
                (parser_at ready_for_data (b']' ∷ past xs before) rest (padded xs) key_name cfg n))
    unfolding parse_turn at_section_name
    section_turn before xs rest none_of in_line short =
        rw
          (copy_name_stops ends_section 255 [] 256 before xs b']' rest (omega arith) (omega arith)
            none_of in_line refl)
          refl

    pub key_turn :
        (before : Bytes) (x : ℕ) (xs gap rest : Bytes)
        → NoneOf ends_key (x ∷ xs)
        → NoneOf ends_line (x ∷ xs)
        → length (x ∷ xs) < 256
        → All (λ c. is_not_blank c ≡ false) gap
        → parse_turn malloc (here key (x ∷ before) (xs ++ (gap ++ (b'=' ∷ rest))))
          ≡ done (
              some (
                parser_at value
                  (b'=' ∷ past gap (past (x ∷ xs) before))
                  rest
                  section
                  (padded (x ∷ xs))
                  cfg
                  n))
    unfolding parse_turn at_key find_value_of
    key_turn before x xs [] rest none_of in_line short blanks =
        rw
          (copy_name_stops ends_key 256 [] 256 before (x ∷ xs) b'=' rest (omega arith) (omega arith)
            none_of in_line refl)
          refl
    key_turn before x xs (g ∷ gap) rest none_of in_line short (blank, blanks) =
        let stops : ends_key g ≡ true = ground arith in
        rw
          (
            copy_name_stops ends_key 256 [] 256 before (x ∷ xs) g (gap ++ (b'=' ∷ rest))
                (omega arith) (omega arith) none_of in_line stops,
            find_equals_stops (past (x ∷ xs) before) (g ∷ gap) rest (blank, blanks),
          )
          refl

    -- The value, in the section that its array names, with the assignment that it makes.
    pub value_turn :
        (before gap xs : Bytes) (c : ℕ) (rest : Bytes) (pointer_to : Option Bytes) {d : ℕ}
        {cfg' : Config} {n' : ℕ}
        → All (λ c. is_not_blank c ≡ false) gap
        → StartsValue xs
        → NoneOf ends_line xs
        → length xs < 256
        → ends_line c ≡ true
        → load section 0 ≡ done d
        → (if d == 0 then none else some section) ≡ pointer_to
        → assign_keyval malloc n (some cfg) pointer_to (some key_name) (padded xs)
          ≡ done (some cfg', n')
        → parse_turn malloc (here value before (gap ++ (xs ++ (c ∷ rest))))
          ≡ done (
              some (
                parser_at ready_for_data
                  (c ∷ past xs (past gap before))
                  rest
                  section
                  key_name
                  cfg'
                  n'))
    unfolding parse_turn at_value
    value_turn before gap [] c rest pointer_to blanks starts in_line short e loaded pointed
          assigned =
        let stops : is_not_blank c ≡ true = ground arith in
        rw
          (
            skip_until_stops is_not_blank before gap c rest blanks stops,
            copy_value_stops [] 256 (past gap before) [] c rest (omega arith) tt e,
            loaded,
            pointed,
            assigned,
          )
          refl
    value_turn before gap (x ∷ xs) c rest pointer_to blanks starts in_line short e loaded pointed
          assigned =
        rw
          (
            skip_until_stops is_not_blank before gap x (xs ++ (c ∷ rest)) blanks starts,
            copy_value_stops [] 256 (past gap before) (x ∷ xs) c rest (omega arith) in_line e,
            loaded,
            pointed,
            assigned,
          )
          refl
