-- ===== src/Ini/Unterminated.antt =====
-- The buffer of `ini_parse` has no zero behind the bytes of the file (vcmp/lib/ini.c).
use vcmp.Prelude.{
  ℕ, zero, suc, ◌+◌, ◌*◌, ◌≡◌, refl, not, ◌||◌, Option, none, some, [], ◌∷◌, Bool, false, Bytes,
  Outcome, done, fault, ◌==◌, length, load, Without, Holds, Holds-done, Bool-cases, Option-cases,
  Outcome-cases, inl, inr,
}
use mathlib.Core.Path.{subst}
use vcmp.Ini.Store.{ini_create}
use vcmp.Ini.Parser.{Parser, peek, parse_turn}
use vcmp.Ini.File.{
  Parsed, parse_loop, ini_parsebuf, read_file, ini_parse, first_parser, fail_with, free_buffer,
}
use vcmp.Ini.Turns.{
  parse_loop_unread, parse_loop_faulted, parse_loop_failed, parse_loop_turned, ini_parsebuf_started,
  read_file_parsed, ini_parse_opened,
}
use vcmp.Ini.Nonzero.{IsTextFile, NonzeroAt, NonzeroIf, ini_free-none, parse_turn-NonzeroIf}

module _ (malloc : ℕ → Bool) where
  -- The run, where it ends without a fault, gives no configuration.
  abbrev GivesNone : Option (Outcome Parsed) → Type 0
  GivesNone none = Unit
  GivesNone (some run) = Holds (λ parsed. parsed.result ≡ none) run

  peek-Nonzero :
      (before rest : Bytes) {c : ℕ} → Without 0 rest → load rest 0 ≡ done c → (c == 0) ≡ false
  peek-Nonzero before [] w e = absurd cc
  peek-Nonzero before (x ∷ rest) {c} w e = let same : x ≡ c = cc in rw (← same) w.0

  fail_with-none : (s : Parser) → (fail_with s).result ≡ none
  fail_with-none s = ini_free-none s.cfg

  parse_loop-GivesNone :
      (fuel : ℕ) (s : Parser) → NonzeroAt s.bufp → GivesNone (parse_loop malloc fuel s)
  unfolding parse_loop
  parse_loop-GivesNone zero s h = tt
  parse_loop-GivesNone (suc fuel) s h = elim (Outcome-cases (peek s.bufp)) [
    | inr bad ↦ rw (parse_loop_unread malloc fuel s bad) tt
    | inl (c, e) ↦
        let more = peek-Nonzero s.bufp.before s.bufp.rest h.1 e in
        elim (Outcome-cases (parse_turn malloc s)) [
          | inr bad ↦ rw (parse_loop_faulted malloc fuel s e more bad) tt
          | inl (none, turned) ↦
              rw (parse_loop_failed malloc fuel s e more turned) (fail_with-none s)
          | inl (some s', turned) ↦ rw (parse_loop_turned malloc fuel s e more turned) (
              parse_loop-GivesNone fuel s'
                (Holds-done NonzeroIf _ (parse_turn-NonzeroIf malloc s h) turned))
        ]
  ]

  ini_parsebuf-GivesNone :
      (n : ℕ) (buf : Bytes) → Without 0 buf → GivesNone (ini_parsebuf malloc n (some buf))
  unfolding ini_parsebuf
  ini_parsebuf-GivesNone n buf w = elim (Outcome-cases (load buf 0)) [
    | inr bad ↦ rw (ini_parsebuf, bad) tt
    | inl (c, e) ↦
        let more = peek-Nonzero [] buf w e in
        elim (Option-cases (ini_create malloc n).0) [
          | inl refused ↦ rw (ini_parsebuf, e, more, refused) refl
          | inr (cfg, made) ↦ rw (ini_parsebuf_started malloc n buf e more made) (
              parse_loop-GivesNone (2 * length buf + 1)
                (first_parser buf (some cfg) (ini_create malloc n).1) (tt, w))
        ]
  ]

  free_buffer-GivesNone :
      (n : ℕ) (run : Option (Outcome Parsed)) → GivesNone run → GivesNone (free_buffer n run)
  free_buffer-GivesNone n none h = tt
  free_buffer-GivesNone n (some fault) h = tt
  free_buffer-GivesNone n (some (done parsed)) h = h

  read_file-GivesNone :
      (fread : Bytes → Bool) (n : ℕ) (file : Bytes)
      → Without 0 file
      → GivesNone (read_file malloc fread n file)
  unfolding read_file
  read_file-GivesNone fread n file w = elim (Bool-cases (malloc n)) [
    | inr refused ↦ rw (read_file, refused) refl
    | inl given ↦ elim (Bool-cases (length file == 0 || not (fread file))) [
      | inl unread ↦ rw (read_file, given, unread) refl
      | inr read ↦ rw (read_file_parsed malloc fread n file given read) (
          free_buffer-GivesNone n (ini_parsebuf malloc (suc n) (some file))
            (ini_parsebuf-GivesNone (suc n) file w))
    ]
  ]

  -- Where there is no such file, or it holds no zero byte, as text files do, `ini_parse` gives no
  -- configuration: it gives the null pointer, if it does not run into undefined behaviour.
  pub ini_parse_unterminated :
      (fopen : Bytes → Option Bytes) (fread : Bytes → Bool) (n : ℕ) (path : Bytes) {parsed : Parsed}
      → IsTextFile (fopen path)
      → ini_parse malloc fopen fread n (some path) ≡ some (done parsed)
      → parsed.result ≡ none
  unfolding ini_parse
  ini_parse_unterminated fopen fread n path {parsed} text runs = subst GivesNone runs gives
    where
      gives : GivesNone (ini_parse malloc fopen fread n (some path))
      gives = elim (Outcome-cases (load path 0)) [
        | inr bad ↦ rw (ini_parse, bad) tt
        | inl (c, e) ↦ elim (Bool-cases (c == 0)) [
          | inl end ↦ rw (ini_parse, e, end) refl
          | inr more ↦ elim (Option-cases (fopen path)) [
            | inl missing ↦ rw (ini_parse, e, more, missing) refl
            | inr (file, opened) ↦
                rw (ini_parse_opened malloc fopen fread n path e more opened)
                  (read_file-GivesNone fread n file (rw opened at text))
          ]
        ]
      ]
