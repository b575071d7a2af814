-- ===== src/Main/TextFile.antt =====
-- The program with a configuration file that is missing or a text file (vcmp/main.c).
use vcmp.Prelude.{
  ◌≡◌, refl, ap, ◌∙◌, none, some, Outcome, done, fault, ◌>>=◌, Outcome-cases, inl, inr,
}
use vcmp.Ini.File.{Parsed, ini_parse}
use vcmp.Ini.Termination.{ini_parse-ends}
use vcmp.Ini.Unterminated.{ini_parse_unterminated}
use vcmp.Ini.Nonzero.{IsTextFile}
use vcmp.Main.{Env, main, with_config, at_error, config_path}

module _ {K C : Type 0} (env : Env K C) where
  -- Where there is no configuration, `goto error` reads `base`, which was never written.
  with_config-none : (parsed : Parsed) → parsed.result ≡ none → with_config env parsed ≡ fault
  unfolding with_config at_error
  with_config-none parsed e = rw e refl

  pub main_parsed :
      {run : Outcome Parsed}
      → ini_parse env.malloc env.fopen env.fread 0 (some config_path) ≡ some run
      → main env ≡ some (run >>= with_config env)
  unfolding main
  main_parsed runs = rw (main, runs) refl

  -- If the configuration file does not exist, or holds no zero byte, as text files do, the program runs
  -- into undefined behaviour: the parser reads past its buffer, or gives the null pointer, upon which
  -- `main` jumps to `error` and reads variables that it has not written.
  pub main_text_file : IsTextFile (env.fopen config_path) → main env ≡ some fault
  main_text_file h =
      let (run, runs) = ini_parse-ends env.malloc env.fopen env.fread 0 (some config_path) in
      elim (Outcome-cases run) [
        | inr bad ↦ main_parsed (rw bad at runs)
        | inl (parsed, good) ↦
            let runs' : ini_parse env.malloc env.fopen env.fread 0 (some config_path)
                ≡ some (done parsed) =
              rw good at runs in
            main_parsed runs'
            ∙ ap some (
                with_config-none parsed
                  (ini_parse_unterminated env.malloc env.fopen env.fread 0 config_path h runs'))
      ]
