-- ===== src/Ini/Lookup/Assign.antt =====
-- `assign_keyval` by what is found in the configuration afterwards (vcmp/lib/ini.c).
use vcmp.Prelude.{
  ℕ, suc, ◌≡◌, refl, sym, ap, ◌∙◌, List, Bool, true, ◌&&◌, Bytes, Option, none, some, done,
  if◌then◌else◌, set,
}
use vcmp.Ini.{Section, Config}
use vcmp.Ini.Store.{
  set_end, assign_keyval_to_section, assign_keyval_to_root, assign_at, assign_in, assign_keyval,
}
use vcmp.Ini.Lookup.{same, same_section, or_else, value_of, section_value, lookup}
use vcmp.Ini.Lookup.Names.{Spells, Starts, load-Spells}
use vcmp.Ini.Lookup.Pairs.{set_end-IsPair, value_of-set_end}
use vcmp.Ini.Lookup.Places.{
  IsSection, Found, get_elem?-Found, or_else-none, section_value-set, set-IsSection,
}
use vcmp.Ini.Lookup.Added.{
  IsConfig, found_after, IsAssigned, SpellsSection, pair_at, add_keyval_lem, pair_at-IsPair,
  find_or_create_section_lem,
}

module _ (malloc : ℕ → Bool) (memory : (n : ℕ) → malloc n ≡ true) where
  lookup_with_sections :
      (cfg : Config) (sections : List Section) (section name value : Bytes)
      → ((s k : Bytes)
          → section_value sections s k
            ≡ or_else
                (section_value cfg.sections s k)
                (if same section s && same name k then some value else none))
      → (s : Option Bytes) (k : Bytes)
      → lookup (record cfg { sections = sections }) s k
        ≡ found_after cfg (some section) name value s k
  lookup_with_sections cfg sections section name value h none k =
      sym (or_else-none (value_of cfg.global_keyvals k))
  lookup_with_sections cfg sections section name value h (some s) k = h s k

  lookup_with_globals :
      (n : ℕ) (cfg : Config) (name value : Bytes) (s : Option Bytes) (k : Bytes)
      → lookup
          (record cfg {
            global_keyvals = set_end cfg.global_keyvals (some (pair_at malloc memory n name value));
          })
          s
          k
        ≡ found_after cfg none name value s k
  lookup_with_globals n cfg name value none k =
      value_of-set_end cfg.global_keyvals (pair_at malloc memory n name value) k
  lookup_with_globals n cfg name value (some s) k =
      sym (or_else-none (section_value cfg.sections s k))

  -- An assignment to the section that was found or created.
  assign_at_lem :
      (n : ℕ) (cfg : Config) (p : ℕ) (section name_object name value_object value : Bytes)
      → IsConfig cfg
      → Found cfg.sections section p
      → Spells name_object name
      → Starts name
      → Spells value_object value
      → (cfg' : Config) × (n' : ℕ) × (assign_at malloc n
            (some cfg)
            (some p)
            (some name_object)
            value_object
          ≡ done (some cfg', n'))
        × IsAssigned cfg (some section) name value cfg'
  unfolding assign_at assign_keyval_to_section
  assign_at_lem n cfg p section name_object name value_object value ok found is_name start
        is_value =
      let (sec, at, named, values, is_section) = get_elem?-Found cfg.sections section p found in
      let (c, here, more) = load-Spells name_object name is_name start in
      let new = pair_at malloc memory n name value in
      let sec_ok = is_section ok.sections in
      let grown : Section = record sec { keyvals = set_end sec.keyvals (some new) } in
      let grown_ok : IsSection grown = record {
        name = sec_ok.name;
        has_name = sec_ok.has_name;
        ends = sec_ok.ends;
        pairs =
            set_end-IsPair sec.keyvals new sec_ok.pairs
              (pair_at-IsPair malloc memory n name value is_name.0);
      } in
      (
        record cfg { sections = set cfg.sections p grown },
        suc (suc (suc n)),
        rw
            (
              here,
              more,
              at,
              add_keyval_lem malloc memory n sec.keyvals name_object name value_object value is_name
                  is_value,
            )
            refl,
        (
          record {
            globals = ok.globals;
            sections = set-IsSection cfg.sections p grown ok.sections grown_ok;
          },
          lookup_with_sections cfg (set cfg.sections p grown) section name value
              (section_value-set cfg.sections section p new found at),
        ),
      )

  assign_keyval_to_root_lem :
      (n : ℕ) (cfg : Config) (name_object name value_object value : Bytes)
      → IsConfig cfg
      → Spells name_object name
      → Starts name
      → Spells value_object value
      → (cfg' : Config) × (n' : ℕ) × (assign_keyval_to_root malloc n
            (some cfg)
            (some name_object)
            value_object
          ≡ done (some cfg', n'))
        × IsAssigned cfg none name value cfg'
  unfolding assign_keyval_to_root
  assign_keyval_to_root_lem n cfg name_object name value_object value ok is_name start is_value =
      let (c, here, more) = load-Spells name_object name is_name start in
      let new = pair_at malloc memory n name value in
      (
        record cfg { global_keyvals = set_end cfg.global_keyvals (some new) },
        suc (suc (suc n)),
        rw
            (
              here,
              more,
              add_keyval_lem malloc memory n cfg.global_keyvals name_object name value_object value
                  is_name is_value,
            )
            refl,
        (
          record {
            globals =
                set_end-IsPair cfg.global_keyvals new ok.globals
                  (pair_at-IsPair malloc memory n name value is_name.0);
            sections = ok.sections;
          },
          lookup_with_globals n cfg name value,
        ),
      )

  lookup_kept :
      (cfg : Config) (sections : List Section)
      → ((s k : Bytes) → section_value sections s k ≡ section_value cfg.sections s k)
      → (s : Option Bytes) (k : Bytes)
      → lookup (record cfg { sections = sections }) s k ≡ lookup cfg s k
  lookup_kept cfg sections kept none k = refl
  lookup_kept cfg sections kept (some s) k = kept s k

  assign_in_lem :
      (n : ℕ) (cfg : Config) (object section : Option Bytes)
      (name_object name value_object value : Bytes)
      → IsConfig cfg
      → SpellsSection object section
      → Spells name_object name
      → Starts name
      → Spells value_object value
      → (cfg' : Config) × (n' : ℕ) × (assign_in malloc n
            (some cfg)
            object
            (some name_object)
            value_object
          ≡ done (some cfg', n'))
        × IsAssigned cfg section name value cfg'
  unfolding assign_in
  assign_in_lem n cfg none none name_object name value_object value ok is_section is_name start
        is_value =
      assign_keyval_to_root_lem n cfg name_object name value_object value ok is_name start is_value
  assign_in_lem n cfg none (some section) name_object name value_object value ok is_section is_name
        start is_value =
      absurd is_section
  assign_in_lem n cfg (some object) none name_object name value_object value ok is_section is_name
        start is_value =
      absurd is_section
  assign_in_lem n cfg (some object) (some section) name_object name value_object value ok
        (is_section, starts) is_name start is_value =
      let (sections, p, n', made, found, all_ok, kept) =
        find_or_create_section_lem malloc memory n cfg object section ok is_section starts in
      let between : Config = record cfg { sections = sections } in
      let (cfg', n'', assigned, (ok', found_in)) =
        assign_at_lem n' between p section name_object name value_object value
          (record { globals = ok.globals; sections = all_ok }) found is_name start is_value in
      (
        cfg',
        n'',
        rw made assigned,
        (
          ok',
          λ s k.
              found_in s k
              ∙ ap
                  (λ o.
                    or_else o
                      (if same_section (some section) s && same name k then some value else none))
                  (lookup_kept cfg sections kept s k),
        ),
      )

  -- With memory for all, an assignment of a key that is not empty succeeds, and afterwards its value is
  -- found where nothing was found before.
  pub assign_keyval_lem :
      (n : ℕ) (cfg : Config) (object section : Option Bytes)
      (name_object name value_object value : Bytes)
      → IsConfig cfg
      → SpellsSection object section
      → Spells name_object name
      → Starts name
      → Spells value_object value
      → (cfg' : Config) × (n' : ℕ) × (assign_keyval malloc n
            (some cfg)
            object
            (some name_object)
            value_object
          ≡ done (some cfg', n'))
        × IsAssigned cfg section name value cfg'
  unfolding assign_keyval
  assign_keyval_lem n cfg object section name_object name value_object value ok is_section is_name
        start is_value =
      let (c, here, more) = load-Spells name_object name is_name start in
      let (cfg', n', assigned, right) =
        assign_in_lem n cfg object section name_object name value_object value ok is_section is_name
          start is_value in
      (cfg', n', rw (here, more) assigned, right)
