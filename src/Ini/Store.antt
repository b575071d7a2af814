-- ===== src/Ini/Store.antt =====
-- Sections and their key-value pairs (the first part of vcmp/lib/ini.c). `malloc n` tells whether the
-- allocation of number n succeeds; it gives the block of that number. Each function is given the
-- number of allocations made before it, and gives it back as it leaves it.
use vcmp.Prelude.{
  ℕ, suc, Option, none, some, List, [], ◌∷◌, Bool, false, Outcome, done, fault, ◌>>=◌, Bytes, ◌==◌,
  if◌then◌else◌, load, from_option, get_elem?, set, length, string_of,
}
use vcmp.Ini.{Text, Keyval, Section, Config}

-- `strcmp(s, p) == 0` for a string s and an object p: it stops at the first byte that differs.
unfoldable pub strcmp_equal : Bytes → Bytes → Outcome Bool
strcmp_equal [] [] = fault
strcmp_equal [] (c ∷ cs) = done (c == 0)
strcmp_equal (x ∷ xs) [] = fault
strcmp_equal (x ∷ xs) (c ∷ cs) =
    let further = strcmp_equal xs cs in if x == c then further else done false

-- `strcmp(name, p) == 0`
abbrev pub is_named : Option Text → Bytes → Outcome Bool
is_named none object = fault
is_named (some name) object = strcmp_equal name.bytes object

-- `*cur = new` at the end of a linked list.
abbrev pub set_end {ℓ} : {A : Type ℓ} → List A → Option A → List A
set_end [] none = []
set_end [] (some new) = new ∷ []
set_end (x ∷ xs) new = x ∷ set_end xs new

-- The place of the first section with that name.
unfoldable pub find_place : List Section → Bytes → ℕ → Outcome (Option ℕ)
find_place [] name i = done none
find_place (section ∷ sections) name i = do
  let further = find_place sections name (suc i)
  same ← is_named section.name name
  if same then done (some i) else further

-- A pointer to a section is its place in the list.
unfoldable pub find_section : Option Config → Option Bytes → Outcome (Option ℕ)
unfolding find_place
find_section none name = done none
find_section (some cfg) none = done none
find_section (some cfg) (some name) = do
  c ← load name 0
  if c == 0 then done none else find_place cfg.sections name 0

-- The string in the value of the first pair with that key.
unfoldable pub find_value : List Keyval → Bytes → Outcome (Option Bytes)
find_value [] key = done none
find_value (pair ∷ pairs) key = do
  let further = find_value pairs key
  same ← is_named pair.name key
  if same then (do value ← from_option pair.value; done (some value.bytes)) else further

-- The pairs of the section, or the global ones.
unfoldable pub pairs_of : Config → Option Bytes → Outcome (Option (List Keyval))
unfolding find_section
pairs_of cfg none = done (some cfg.global_keyvals)
pairs_of cfg (some section) = do
  place ← find_section (some cfg) (some section)
  elim place [
    | none ↦ done none
    | some at ↦ do found ← from_option (get_elem? cfg.sections at); done (some found.keyvals)
  ]

module _ (malloc : ℕ → Bool) where
  abbrev pub copy_text : ℕ → Bytes → Option Text × ℕ
  copy_text n bytes = (if malloc n then some (record { block = n; bytes = bytes }) else none, suc n)

  unfoldable pub strdup : ℕ → Bytes → Outcome (Option Text × ℕ)
  strdup n object = do bytes ← string_of object; done (copy_text n bytes)

  unfoldable pub new_section : ℕ → Bytes → Outcome (Option Section × ℕ)
  unfolding strdup
  new_section n name =
      if malloc n
      then (do
        (name', n') ← strdup (suc n) name
        done (some (record { block = n; name = name'; keyvals = [] }), n'))
      else done (none, suc n)

  unfoldable pub new_keyval : ℕ → Bytes → Bytes → Outcome (Option Keyval × ℕ)
  unfolding strdup
  new_keyval n name value =
      if malloc n
      then (do
        (name', n') ← strdup (suc n) name
        (value', n'') ← strdup n' value
        done (some (record { block = n; name = name'; value = value' }), n''))
      else done (none, suc n)

  -- The list with the new section, and the pointer to it.
  unfoldable pub add_section : ℕ → List Section → Bytes → Outcome (List Section × Option ℕ × ℕ)
  unfolding new_section
  add_section n root name = do
    (new, n') ← new_section n name
    done (set_end root new, elim new [ none ↦ none | some _ ↦ some (length root) ], n')

  unfoldable pub add_keyval : ℕ → List Keyval → Bytes → Bytes → Outcome (List Keyval × ℕ)
  unfolding new_keyval
  add_keyval n root name value = do (new, n') ← new_keyval n name value; done (set_end root new, n')

  -- Behind the loop that looks for the section.
  unfoldable pub found_or_added :
      ℕ → Config → Bytes → Option ℕ → Outcome (Option Config × Option ℕ × ℕ)
  unfolding add_section
  found_or_added n cfg name (some place) = done (some cfg, some place, n)
  found_or_added n cfg name none = do
    (sections, new, n') ← add_section n cfg.sections name
    done (some (record cfg { sections = sections }), new, n')

  unfoldable pub find_or_create_section :
      ℕ → Option Config → Option Bytes → Outcome (Option Config × Option ℕ × ℕ)
  unfolding found_or_added find_place
  find_or_create_section n none name = done (none, none, n)
  find_or_create_section n (some cfg) none = done (some cfg, none, n)
  find_or_create_section n (some cfg) (some name) = do
    c ← load name 0
    if c == 0
        then done (some cfg, none, n)
        else (do found ← find_place cfg.sections name 0; found_or_added n cfg name found)

  -- With the list of the sections that the pointer points into.
  unfoldable pub assign_keyval_to_section :
      ℕ → List Section → Option ℕ → Option Bytes → Bytes → Outcome (List Section × ℕ)
  unfolding add_keyval
  assign_keyval_to_section n sections none name value = done (sections, n)
  assign_keyval_to_section n sections (some place) none value = done (sections, n)
  assign_keyval_to_section n sections (some place) (some name) value = do
    c ← load name 0
    if c == 0 then done (sections, n) else (do
      section ← from_option (get_elem? sections place)
      (pairs, n') ← add_keyval n section.keyvals name value
      done (set sections place (record section { keyvals = pairs }), n'))

  unfoldable pub assign_keyval_to_root :
      ℕ → Option Config → Option Bytes → Bytes → Outcome (Option Config × ℕ)
  unfolding add_keyval
  assign_keyval_to_root n none name value = done (none, n)
  assign_keyval_to_root n (some cfg) none value = done (some cfg, n)
  assign_keyval_to_root n (some cfg) (some name) value = do
    c ← load name 0
    if c == 0 then done (some cfg, n) else (do
      (pairs, n') ← add_keyval n cfg.global_keyvals name value
      done (some (record cfg { global_keyvals = pairs }), n'))

  -- The assignment to the section that was found or created.
  unfoldable pub assign_at :
      ℕ → Option Config → Option ℕ → Option Bytes → Bytes → Outcome (Option Config × ℕ)
  unfolding assign_keyval_to_section
  assign_at n none place name value = done (none, n)
  assign_at n (some cfg) none name value = done (some cfg, n)
  assign_at n (some cfg) (some place) name value = do
    (sections, n') ← assign_keyval_to_section n cfg.sections (some place) name value
    done (some (record cfg { sections = sections }), n')

  -- The assignment behind the checks of the configuration and the name.
  unfoldable pub assign_in :
      ℕ → Option Config → Option Bytes → Option Bytes → Bytes → Outcome (Option Config × ℕ)
  unfolding assign_keyval_to_root assign_at find_or_create_section
  assign_in n cfg none name value = assign_keyval_to_root n cfg name value
  assign_in n cfg (some section) name value = do
    (cfg', place, n') ← find_or_create_section n cfg (some section)
    assign_at n' cfg' place name value

  unfoldable pub assign_keyval :
      ℕ → Option Config → Option Bytes → Option Bytes → Bytes → Outcome (Option Config × ℕ)
  unfolding assign_in
  assign_keyval n none section name value = done (none, n)
  assign_keyval n (some cfg) section none value = done (some cfg, n)
  assign_keyval n (some cfg) section (some name) value = do
    c ← load name 0
    if c == 0 then done (some cfg, n) else assign_in n (some cfg) section (some name) value

  unfoldable pub ini_create : ℕ → Option Config × ℕ
  ini_create n = (
    if malloc n then some (record { block = n; sections = []; global_keyvals = [] }) else none,
    suc n,
  )

  -- Behind the look-up of the section.
  unfoldable pub value_in : ℕ → Option (List Keyval) → Bytes → Outcome (Option Text × ℕ)
  unfolding find_value
  value_in n none key = done (none, n)
  value_in n (some pairs) key = do
    found ← find_value pairs key
    done (elim found [ none ↦ (none, n) | some value ↦ copy_text n value ])

  -- A copy of the value, which the caller frees.
  unfoldable pub ini_get_value :
      ℕ → Option Config → Option Bytes → Option Bytes → Outcome (Option Text × ℕ)
  unfolding pairs_of value_in
  ini_get_value n none section key = done (none, n)
  ini_get_value n (some cfg) section none = done (none, n)
  ini_get_value n (some cfg) section (some key) = do
    c ← load key 0
    if c == 0 then done (none, n) else (do pairs ← pairs_of cfg section; value_in n pairs key)
