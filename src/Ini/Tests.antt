-- ===== src/Ini/Tests.antt =====
-- Short files.
use vcmp.Prelude.{
  ℕ, zero, suc, ◌+◌, ◌≤◌, ◌<◌, ◌≡◌, refl, Option, none, some, List, [], ◌∷◌, ◌++◌, Bool, true,
  false, not, ◌&&◌, Bytes, Outcome, done, fault, arith, length, All, Without, ◌==◌, if◌then◌else◌,
  lacks-Without,
}
use vcmp.Randdata.{codes}
use vcmp.Ini.{Text, Keyval, Section, Config}
use vcmp.Ini.Store.{ini_create, ini_get_value}
use vcmp.Ini.Parser.{data_state}
use vcmp.Ini.Frees.{ini_free}
use vcmp.Ini.File.{ini_parsebuf, ini_parse, Parsed}
use vcmp.Ini.Termination.{ini_parse-ends}
use vcmp.Ini.Freeing.Counts.{count, handed}
use vcmp.Ini.Freeing.Parsed.{ini_parse_frees}
use vcmp.Ini.Unterminated.{ini_parse_unterminated}
use vcmp.Ini.Lookup.{Assignment}
use vcmp.Ini.Lookup.Runs.{assign_all, copied, object_of, IsAssignment, ini_get_value-assign_all}
use vcmp.Ini.Reading.{
  Line, remark, heading, pair, blank, IsLine, NoneOf, ends_line, IsName, IsValue,
}
use vcmp.Ini.Reading.Files.{ini_parsebuf-file_text}
use vcmp.Ini.Overrun.{ini_parsebuf_long_value, ini_parsebuf_last_value}

abbrev path : Bytes
path = codes "c" ++ (0 ∷ [])

abbrev all_given : ℕ → Bool
all_given n = true

abbrev sample : Bytes
sample = codes "a=1\n" ++ (0 ∷ [])

-- The second line of this file is no line.
abbrev broken : Bytes
broken = codes "a=1\nb\n" ++ (0 ∷ [])

abbrev broken_text : Bytes
broken_text = codes "a=1\nb\n"

ini_parse-ends_example :
    (run : Outcome Parsed) × (ini_parse all_given (λ p. some sample) (λ f. true) 0 (some path)
      ≡ some run)
ini_parse-ends_example = ini_parse-ends all_given (λ p. some sample) (λ f. true) 0 (some path)

-- The buffer is block 0, the configuration block 1, and the pair blocks 2 to 4.
abbrev broken_parsed : Parsed
broken_parsed = record { result = none; freed = 3 ∷ 4 ∷ 2 ∷ 1 ∷ 0 ∷ []; allocations = 5 }

broken_run :
    ini_parse all_given (λ p. some broken) (λ f. true) 0 (some path) ≡ some (done broken_parsed)
unfolding ini_parse ini_create vcmp.Ini.Store.assign_keyval vcmp.Prelude.string_of ini_free
broken_run = refl

ini_parse_frees_example :
    count 3 (broken_parsed.freed ++ (ini_free broken_parsed.result).0) ≡ handed all_given 5 3
ini_parse_frees_example =
    ini_parse_frees all_given (λ p. some broken) (λ f. true) (some path) broken_run 3

broken_text_run :
    ini_parse all_given (λ p. some broken_text) (λ f. true) 0 (some path)
    ≡ some (done broken_parsed)
unfolding ini_parse ini_create vcmp.Ini.Store.assign_keyval vcmp.Prelude.string_of ini_free
broken_text_run = refl

ini_parse_unterminated_example : broken_parsed.result ≡ none
ini_parse_unterminated_example =
    ini_parse_unterminated all_given (λ p. some broken_text) (λ f. true) 0 path
      (lacks-Without 0 broken_text refl) broken_text_run

abbrev two_assignments : List Assignment
two_assignments =
    record { section = some (codes "s"); name = codes "k"; value = codes "1" }
    ∷ record { section = some (codes "s"); name = codes "k"; value = codes "2" }
    ∷ []

two_IsAssignment : All IsAssignment two_assignments
two_IsAssignment = (
  record { section = ((refl, tt), tt); name = (refl, tt); starts = tt; value = (refl, tt) },
  (record { section = ((refl, tt), tt); name = (refl, tt); starts = tt; value = (refl, tt) }, tt),
)

ini_get_value-assign_all_example :
    (cfg : Config) × (n : ℕ) × (assign_all all_given
        (ini_create all_given 0).1
        (ini_create all_given 0).0
        two_assignments
      ≡ done (some cfg, n))
    × (ini_get_value all_given n
          (some cfg)
          (some (object_of (codes "s")))
          (some (object_of (codes "k")))
        ≡ done (copied all_given n (some (codes "1"))))
ini_get_value-assign_all_example =
    ini_get_value-assign_all all_given (λ n. refl) two_assignments (some (codes "s")) (codes "k")
      two_IsAssignment ((refl, tt), tt) (refl, tt) tt

abbrev first_line : Line
first_line = heading (codes "s")

abbrev other_lines : List Line
other_lines = remark (codes "c") ∷ blank ∷ pair (codes "k") (b' ' ∷ []) (b' ' ∷ []) (codes "v") ∷ []

key_IsName : IsName (codes "k")
unfolding data_state
key_IsName = (refl, (refl, tt), (refl, tt), omega arith)

v_IsValue : IsValue (codes "v")
v_IsValue = (refl, (refl, tt), omega arith)

sample_IsLine : All IsLine (first_line ∷ other_lines)
sample_IsLine = (
  ((refl, tt), (refl, tt), omega arith),
  ((refl, tt), (tt, ((key_IsName, (refl, tt), (refl, tt), v_IsValue), tt))),
)

ini_parsebuf-file_text_example :
    (cfg : Config) × (n' : ℕ) × (ini_parsebuf all_given 0
        (some (codes "[s]\n#c\n\nk = v\n" ++ (0 ∷ [])))
      ≡ some (done (record { result = some cfg; freed = []; allocations = n' })))
    × (ini_get_value all_given n'
          (some cfg)
          (some (object_of (codes "s")))
          (some (object_of (codes "k")))
        ≡ done (copied all_given n' (some (codes "v"))))
ini_parsebuf-file_text_example =
    ini_parsebuf-file_text all_given (λ n. refl) 0 first_line other_lines [] (some (codes "s"))
      (codes "k") sample_IsLine ((refl, tt), tt) (refl, tt) tt

abbrev letters : ℕ → Bytes
letters zero = []
letters (suc n) = b'a' ∷ letters n

letters_in_line : (n : ℕ) → NoneOf ends_line (letters n)
letters_in_line zero = tt
letters_in_line (suc n) = (refl, letters_in_line n)

ini_parsebuf_long_value_example :
    ini_parsebuf all_given 0 (some (codes "k=" ++ (letters 257 ++ (10 ∷ 0 ∷ [])))) ≡ some fault
ini_parsebuf_long_value_example =
    ini_parsebuf_long_value all_given (λ n. refl) [] b'k' [] [] [] (letters 257) (10 ∷ 0 ∷ []) tt
      key_IsName tt tt refl (letters_in_line 257) (omega arith)

ini_parsebuf_last_value_example :
    ini_parsebuf all_given 0 (some (codes "[s]\n#c\n\nk = v\nk=v" ++ (0 ∷ []))) ≡ some fault
ini_parsebuf_last_value_example =
    ini_parsebuf_last_value all_given (λ n. refl) (first_line ∷ other_lines) b'k' [] [] []
      (codes "v") sample_IsLine key_IsName tt tt tt v_IsValue
