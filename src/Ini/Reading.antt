-- ===== src/Ini/Reading.antt =====
-- Configuration files as lines, and the assignments that they stand for.
pub mod Scans
pub mod Steps
pub mod Openings
pub mod Lines
pub mod Files
use vcmp.Prelude.{
  ℕ, ◌+◌, ◌≤◌, ◌<◌, ◌≡◌, Option, none, some, List, [], ◌∷◌, ◌++◌, Bool, true, false, ◌||◌, Bytes,
  All, ◌==◌, length, Without, if◌then◌else◌, arith,
}
use vcmp.Ini.Lookup.{Assignment}
use vcmp.Ini.Parser.{
  ends_comment, ends_section, ends_key, is_not_blank, data_state, ParserState, key,
}

pub data Line : Type 0 where
  blank : Line
  remark : Bytes → Line
  heading : Bytes → Line
  -- The name, what stands between it and `=`, what stands between that and the value, and the value.
  pair : Bytes → Bytes → Bytes → Bytes → Line

-- A line in front of some text, and lines in front of some.
abbrev pub line_text : Line → Bytes → Bytes
line_text blank tail = b'\n' ∷ tail
line_text (remark text) tail = b'#' ∷ (text ++ (b'\n' ∷ tail))
line_text (heading name) tail = b'[' ∷ (name ++ (b']' ∷ b'\n' ∷ tail))
line_text (pair name gap gap' value) tail =
    name ++ (gap ++ (b'=' ∷ (gap' ++ (value ++ (b'\n' ∷ tail)))))

abbrev pub file_text : List Line → Bytes → Bytes
file_text [] tail = tail
file_text (line ∷ lines) tail = line_text line (file_text lines tail)

-- The section that a name opens: the empty one is the global one.
abbrev pub section_named : Bytes → Option Bytes
section_named [] = none
section_named (x ∷ xs) = some (x ∷ xs)

-- The assignments of the lines, from the section of that name on.
abbrev pub assignments : Bytes → List Line → List Assignment
assignments current [] = []
assignments current (blank ∷ lines) = assignments current lines
assignments current (remark text ∷ lines) = assignments current lines
assignments current (heading name ∷ lines) = assignments name lines
assignments current (pair name gap gap' value ∷ lines) =
    record { section = section_named current; name = name; value = value }
    ∷ assignments current lines

abbrev pub NoneOf : (ℕ → Bool) → Bytes → Type 0
NoneOf stop xs = All (λ x. stop x ≡ false) xs

-- The same as a test.
abbrev pub clear : (ℕ → Bool) → Bytes → Bool
clear stop [] = true
clear stop (x ∷ xs) = if stop x then false else clear stop xs

pub clear-NoneOf : (stop : ℕ → Bool) (xs : Bytes) → clear stop xs ≡ true → NoneOf stop xs
clear-NoneOf stop [] h = tt
clear-NoneOf stop (x ∷ xs) h =
    let first : stop x ≡ false = ground arith in
    let further : clear stop xs ≡ true = ground arith in (first, clear-NoneOf stop xs further)

-- A byte that ends a line, or the buffer.
abbrev pub ends_line : ℕ → Bool
ends_line c = c == 0 || c == b'\n'

-- A key: its first byte starts neither a comment nor a section and is no blank.
abbrev StartsKey : Bytes → Type 0
StartsKey [] = ⊥
StartsKey (x ∷ xs) = data_state x ≡ key

-- A value does not begin with a blank.
abbrev pub StartsValue : Bytes → Type 0
StartsValue [] = Unit
StartsValue (x ∷ xs) = is_not_blank x ≡ true

abbrev pub IsName : Bytes → Type 0
IsName name = StartsKey name × NoneOf ends_key name × NoneOf ends_line name × (length name < 256)

abbrev pub IsValue : Bytes → Type 0
IsValue value = StartsValue value × NoneOf ends_line value × (length value < 256)

abbrev pub IsLine : Line → Type 0
IsLine blank = Unit
IsLine (remark text) = NoneOf ends_comment text
IsLine (heading name) = NoneOf ends_section name × NoneOf ends_line name × (length name < 256)
IsLine (pair name gap gap' value) =
    IsName name
    × All (λ c. is_not_blank c ≡ false) gap
    × All (λ c. is_not_blank c ≡ false) gap'
    × IsValue value
