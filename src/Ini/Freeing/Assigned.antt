-- ===== src/Ini/Freeing/Assigned.antt =====
-- The blocks of an assignment are in the configuration that it leaves (vcmp/lib/ini.c).
use vcmp.Prelude.{
  ℕ, refl, Option, none, some, List, [], ◌∷◌, ◌++◌, Bool, Bytes, ◌==◌, get_elem?, load, from_option,
  Holds, >>=-Holds, if-Holds, Holds-done, Holds-map, from_option-done, arith,
}
use vcmp.Ini.{Keyval, Section, Config}
use vcmp.Ini.Store.{
  add_section, add_keyval, find_place, found_or_added, assign_at, find_or_create_section,
  assign_keyval_to_section, assign_keyval_to_root, assign_in, assign_keyval,
}
use vcmp.Ini.Frees.{free_keyvals, free_sections, ini_free}
use vcmp.Ini.Freeing.Counts.{count-append, Balance, count-set}
use vcmp.Ini.Freeing.Given.{config_blocks, add_keyval-Balance, add_section-Balance}

module _ (malloc : ℕ → Bool) where
  -- A configuration, as it is left, with the number of allocations.
  abbrev pub ConfigGiven : ℕ → Option Config → Option Config × ℕ → Type 0
  ConfigGiven n cfg given = Balance malloc (config_blocks cfg) n (config_blocks given.0) given.1

  with_globals-ConfigGiven :
      (n : ℕ) (cfg : Config) (given : List Keyval × ℕ)
      → Balance malloc (free_keyvals cfg.global_keyvals) n (free_keyvals given.0) given.1
      → ConfigGiven n (some cfg) (some (record cfg { global_keyvals = given.0 }), given.1)
  unfolding ini_free
  with_globals-ConfigGiven n cfg given h x =
      let rest = free_sections cfg.sections ++ (cfg.block ∷ []) in
      omega (
        arith,
        h x,
        count-append x (free_keyvals cfg.global_keyvals) rest,
        count-append x (free_keyvals given.0) rest,
      )

  with_sections-ConfigGiven :
      (n : ℕ) (cfg : Config) (sections : List Section) (n' : ℕ)
      → Balance malloc (free_sections cfg.sections) n (free_sections sections) n'
      → ConfigGiven n (some cfg) (some (record cfg { sections = sections }), n')
  unfolding ini_free
  with_sections-ConfigGiven n cfg sections n' h x = omega (
    arith,
    h x,
    count-append x (free_keyvals cfg.global_keyvals)
        (free_sections cfg.sections ++ (cfg.block ∷ [])),
    count-append x (free_keyvals cfg.global_keyvals) (free_sections sections ++ (cfg.block ∷ [])),
    count-append x (free_sections cfg.sections) (cfg.block ∷ []),
    count-append x (free_sections sections) (cfg.block ∷ []),
  )

  abbrev PlaceGiven : ℕ → Option Config → Option Config × Option ℕ × ℕ → Type 0
  PlaceGiven n cfg given = ConfigGiven n cfg (given.0, given.2)

  found_or_added-PlaceGiven :
      (n : ℕ) (cfg : Config) (name : Bytes) (found : Option ℕ)
      → Holds (PlaceGiven n (some cfg)) (found_or_added malloc n cfg name found)
  unfolding found_or_added
  found_or_added-PlaceGiven n cfg name (some place) = λ x. refl
  found_or_added-PlaceGiven n cfg name none =
      >>=-Holds (PlaceGiven n (some cfg)) (add_section malloc n cfg.sections name) _ λ added e.
        with_sections-ConfigGiven n cfg added.0 added.2 (
          Holds-done (λ r. Balance malloc (free_sections cfg.sections) n (free_sections r.0) r.2) _
            (add_section-Balance malloc n cfg.sections name) e)

  find_or_create_section-PlaceGiven :
      (n : ℕ) (cfg : Option Config) (name : Bytes)
      → Holds (PlaceGiven n cfg) (find_or_create_section malloc n cfg (some name))
  unfolding find_or_create_section
  find_or_create_section-PlaceGiven n none name = λ x. refl
  find_or_create_section-PlaceGiven n (some cfg) name =
      >>=-Holds (PlaceGiven n (some cfg)) (load name 0) _ λ c _.
        if-Holds (PlaceGiven n (some cfg)) (c == 0) _ _ (λ _ x. refl)
          (λ _.
            >>=-Holds (PlaceGiven n (some cfg)) (find_place cfg.sections name 0) _
              λ found _. found_or_added-PlaceGiven n cfg name found)

  assign_keyval_to_root-ConfigGiven :
      (n : ℕ) (cfg : Option Config) (name value : Bytes)
      → Holds (ConfigGiven n cfg) (assign_keyval_to_root malloc n cfg (some name) value)
  unfolding assign_keyval_to_root
  assign_keyval_to_root-ConfigGiven n none name value = λ x. refl
  assign_keyval_to_root-ConfigGiven n (some cfg) name value =
      >>=-Holds (ConfigGiven n (some cfg)) (load name 0) _ λ c _.
        if-Holds (ConfigGiven n (some cfg)) (c == 0) _ _ (λ _ x. refl)
          (λ _.
            >>=-Holds (ConfigGiven n (some cfg)) (add_keyval malloc n cfg.global_keyvals name value)
              _
              λ added e. with_globals-ConfigGiven n cfg added (
                Holds-done
                  (λ r. Balance malloc (free_keyvals cfg.global_keyvals) n (free_keyvals r.0) r.1) _
                  (add_keyval-Balance malloc n cfg.global_keyvals name value) e))

  abbrev SectionsGiven : ℕ → List Section → List Section × ℕ → Type 0
  SectionsGiven n sections given =
      Balance malloc (free_sections sections) n (free_sections given.0) given.1

  assign_keyval_to_section-SectionsGiven :
      (n : ℕ) (sections : List Section) (place : ℕ) (name value : Bytes)
      → Holds
          (SectionsGiven n sections)
          (assign_keyval_to_section malloc n sections (some place) (some name) value)
  unfolding assign_keyval_to_section
  assign_keyval_to_section-SectionsGiven n sections place name value =
      >>=-Holds (SectionsGiven n sections) (load name 0) _ λ c _.
        if-Holds (SectionsGiven n sections) (c == 0) _ _ (λ _ x. refl)
          (λ _.
            >>=-Holds (SectionsGiven n sections) (from_option (get_elem? sections place)) _
              λ section found.
                >>=-Holds (SectionsGiven n sections)
                  (add_keyval malloc n section.keyvals name value) _
                  λ added e x. omega (
                    arith,
                    count-set x sections place added.0 (from_option-done _ found),
                    Holds-done
                        (λ r.
                          Balance malloc (free_keyvals section.keyvals) n (free_keyvals r.0) r.1)
                        _ (add_keyval-Balance malloc n section.keyvals name value) e x,
                  ))

  assign_at-ConfigGiven :
      (n : ℕ) (cfg : Option Config) (place : Option ℕ) (name value : Bytes)
      → Holds (ConfigGiven n cfg) (assign_at malloc n cfg place (some name) value)
  unfolding assign_at
  assign_at-ConfigGiven n none place name value = λ x. refl
  assign_at-ConfigGiven n (some cfg) none name value = λ x. refl
  assign_at-ConfigGiven n (some cfg) (some place) name value =
      >>=-Holds (ConfigGiven n (some cfg))
        (assign_keyval_to_section malloc n cfg.sections (some place) (some name) value) _
        λ added e. with_sections-ConfigGiven n cfg added.0 added.1 (
          Holds-done (SectionsGiven n cfg.sections) _
            (assign_keyval_to_section-SectionsGiven n cfg.sections place name value) e)

  assign_in-ConfigGiven :
      (n : ℕ) (cfg : Option Config) (section : Option Bytes) (name value : Bytes)
      → Holds (ConfigGiven n cfg) (assign_in malloc n cfg section (some name) value)
  unfolding assign_in
  assign_in-ConfigGiven n cfg none name value = assign_keyval_to_root-ConfigGiven n cfg name value
  assign_in-ConfigGiven n cfg (some section) name value =
      >>=-Holds (ConfigGiven n cfg) (find_or_create_section malloc n cfg (some section)) _
        λ found e.
          Holds-map
            (λ given left x. omega (
              arith,
              left x,
              Holds-done (PlaceGiven n cfg) _ (find_or_create_section-PlaceGiven n cfg section) e x,
            ))
            (assign_at malloc found.2 found.0 found.1 (some name) value)
            (assign_at-ConfigGiven found.2 found.0 found.1 name value)

  -- The blocks that an assignment is given stand in the configuration, and no others are added.
  pub assign_keyval-ConfigGiven :
      (n : ℕ) (cfg : Option Config) (section : Option Bytes) (name value : Bytes)
      → Holds (ConfigGiven n cfg) (assign_keyval malloc n cfg section (some name) value)
  unfolding assign_keyval
  assign_keyval-ConfigGiven n none section name value = λ x. refl
  assign_keyval-ConfigGiven n (some cfg) section name value =
      >>=-Holds (ConfigGiven n (some cfg)) (load name 0) _ λ c _.
        if-Holds (ConfigGiven n (some cfg)) (c == 0) _ _ (λ _ x. refl)
          (λ _. assign_in-ConfigGiven n (some cfg) section name value)
