-- ===== src/Ini/Frees.antt =====
-- What `ini_free` frees, in order (vcmp/lib/ini.c).
use vcmp.Prelude.{ℕ, Option, none, some, List, [], ◌∷◌, ◌++◌}
use vcmp.Ini.{Text, Keyval, Section, Config}

-- `free(p)`, which does nothing for the null pointer.
unfoldable pub free_text : Option Text → List ℕ
free_text none = []
free_text (some text) = text.block ∷ []

unfoldable pub free_keyvals : List Keyval → List ℕ
unfolding free_text
free_keyvals [] = []
free_keyvals (pair ∷ pairs) =
    free_text pair.name ++ (free_text pair.value ++ (pair.block ∷ free_keyvals pairs))

unfoldable pub free_sections : List Section → List ℕ
unfolding free_keyvals
free_sections [] = []
free_sections (section ∷ sections) =
    free_keyvals section.keyvals
    ++ (free_text section.name ++ (section.block ∷ free_sections sections))

-- The blocks, and what `*cfg` is left as.
unfoldable pub ini_free : Option Config → List ℕ × Option Config
unfolding free_sections
ini_free none = ([], none)
ini_free (some cfg) =
    (free_keyvals cfg.global_keyvals ++ (free_sections cfg.sections ++ (cfg.block ∷ [])), none)
