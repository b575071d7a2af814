-- ===== src/Ini/Freeing/Parsed.antt =====
-- The blocks that the parser is given are freed once, or stand in the configuration that it gives once
-- (vcmp/lib/ini.c).
use vcmp.Prelude.{
  ℕ, zero, suc, ◌+◌, ◌*◌, ◌≡◌, refl, not, ◌||◌, Option, none, some, List, [], ◌∷◌, ◌++◌, Bool, true,
  Bytes, Outcome, done, fault, ◌==◌, length, load, Holds, Holds-done, Holds-map, arith, Bool-cases,
  Option-cases, Outcome-cases, inl, inr,
}
use mathlib.Core.Path.{subst}
use vcmp.Ini.{Config}
use vcmp.Ini.Store.{ini_create}
use vcmp.Ini.Frees.{ini_free, free_sections, free_keyvals}
use vcmp.Ini.Parser.{Parser, peek, parse_turn}
use vcmp.Ini.File.{
  Parsed, parse_loop, ini_parsebuf, read_file, ini_parse, first_parser, end_with, fail_with,
  no_config, free_buffer,
}
use vcmp.Ini.Turns.{
  parse_loop_ended, parse_loop_unread, parse_loop_faulted, parse_loop_failed, parse_loop_turned,
  ini_parsebuf_started, read_file_parsed, ini_parse_opened,
}
use vcmp.Ini.Freeing.Counts.{
  count, count-append, handed, handed_given, handed_refused, handed_none, Balance,
}
use vcmp.Ini.Freeing.Given.{config_blocks}
use vcmp.Ini.Freeing.Turned.{ParserGiven, parse_turn-ParserGiven}

module _ (malloc : ℕ → Bool) where
  -- The blocks that were freed, and those of the result.
  abbrev parsed_blocks : Parsed → List ℕ
  parsed_blocks parsed = parsed.freed ++ config_blocks parsed.result

  -- From `blocks` and `n` allocations to the end, if it is reached without a fault.
  abbrev RunGiven : List ℕ → ℕ → Option (Outcome Parsed) → Type 0
  RunGiven blocks n none = Unit
  RunGiven blocks n (some run) =
      Holds (λ parsed. Balance malloc blocks n (parsed_blocks parsed) parsed.allocations) run

  RunGiven-after :
      (xs : List ℕ) (n : ℕ) (ys : List ℕ) (n' : ℕ) (run : Option (Outcome Parsed))
      → Balance malloc xs n ys n'
      → RunGiven ys n' run
      → RunGiven xs n run
  RunGiven-after xs n ys n' none h k = tt
  RunGiven-after xs n ys n' (some run) h k =
      Holds-map (λ parsed given x. omega (arith, h x, given x)) run k

  count-ini_free : (x : ℕ) (cfg : Option Config) → count x (config_blocks (ini_free cfg).1) ≡ 0
  unfolding ini_free
  count-ini_free x none = refl
  count-ini_free x (some cfg) = refl

  end_with-Given :
      (s : Parser)
      → Balance malloc (config_blocks s.cfg) s.calls (parsed_blocks (end_with s)) s.calls
  end_with-Given s x = refl

  -- `ini_free` leaves the null pointer, which has no blocks.
  fail_with-Given :
      (s : Parser)
      → Balance malloc (config_blocks s.cfg) s.calls (parsed_blocks (fail_with s)) s.calls
  fail_with-Given s x = omega (
    arith,
    count-append x (ini_free s.cfg).0 (config_blocks (ini_free s.cfg).1),
    count-ini_free x s.cfg,
  )

  parse_loop-RunGiven :
      (fuel : ℕ) (s : Parser) → RunGiven (config_blocks s.cfg) s.calls (parse_loop malloc fuel s)
  unfolding parse_loop
  parse_loop-RunGiven zero s = tt
  parse_loop-RunGiven (suc fuel) s = elim (Outcome-cases (peek s.bufp)) [
    | inr bad ↦ rw (parse_loop_unread malloc fuel s bad) tt
    | inl (c, e) ↦ elim (Bool-cases (c == 0)) [
      | inl end ↦ rw (parse_loop_ended malloc fuel s e end) (end_with-Given s)
      | inr more ↦ elim (Outcome-cases (parse_turn malloc s)) [
        | inr bad ↦ rw (parse_loop_faulted malloc fuel s e more bad) tt
        | inl (none, turned) ↦
            rw (parse_loop_failed malloc fuel s e more turned) (fail_with-Given s)
        | inl (some s', turned) ↦ rw (parse_loop_turned malloc fuel s e more turned) (
            RunGiven-after (config_blocks s.cfg) s.calls (config_blocks s'.cfg) s'.calls
              (parse_loop malloc fuel s')
              (Holds-done (ParserGiven malloc s) _ (parse_turn-ParserGiven malloc s) turned)
              (parse_loop-RunGiven fuel s'))
      ]
    ]
  ]

  created-Given :
      (n : ℕ) (made : Option Config)
      → (ini_create malloc n).0 ≡ made
      → Balance malloc [] n (config_blocks made) (suc n)
  unfolding ini_create ini_free free_sections free_keyvals
  created-Given n made e x = rw (← e) (elim (Bool-cases (malloc n)) [
    | inl given ↦ rw given (omega (arith, handed_given malloc n x given))
    | inr refused ↦ rw refused (omega (arith, handed_refused malloc n x refused))
  ])

  no_config-Given :
      (freed : List ℕ) (n n' : ℕ)
      → Balance malloc [] n freed n'
      → RunGiven [] n (some (done (no_config freed n')))
  unfolding ini_free
  no_config-Given freed n n' h x = omega (arith, h x, count-append x freed [])

  ini_parsebuf-RunGiven : (n : ℕ) (buf : Option Bytes) → RunGiven [] n (ini_parsebuf malloc n buf)
  unfolding ini_parsebuf ini_free ini_create
  ini_parsebuf-RunGiven n none = no_config-Given [] n n (λ x. refl)
  ini_parsebuf-RunGiven n (some buf) = elim (Outcome-cases (load buf 0)) [
    | inr bad ↦ rw (ini_parsebuf, bad) tt
    | inl (c, e) ↦ elim (Bool-cases (c == 0)) [
      | inl end ↦ rw (ini_parsebuf, e, end) (no_config-Given [] n n (λ x. refl))
      | inr more ↦ elim (Option-cases (ini_create malloc n).0) [
        | inl refused ↦
            rw (ini_parsebuf, e, more, refused)
              (no_config-Given [] n (suc n) (created-Given n none refused))
        | inr (cfg, made) ↦ rw (ini_parsebuf_started malloc n buf e more made) (
            RunGiven-after [] n (config_blocks (some cfg)) (suc n)
              (parse_loop malloc (2 * length buf + 1) (first_parser buf (some cfg) (suc n)))
              (created-Given n (some cfg) made)
              (parse_loop-RunGiven (2 * length buf + 1) (first_parser buf (some cfg) (suc n))))
      ]
    ]
  ]

  free_buffer-RunGiven :
      (n : ℕ) (run : Option (Outcome Parsed))
      → malloc n ≡ true
      → RunGiven [] (suc n) run
      → RunGiven [] n (free_buffer n run)
  free_buffer-RunGiven n none given h = tt
  free_buffer-RunGiven n (some fault) given h = tt
  free_buffer-RunGiven n (some (done parsed)) given h = λ x.
      let blocks = config_blocks parsed.result in
      omega (
        arith,
        h x,
        handed_given malloc n x given,
        count-append x parsed.freed (n ∷ []),
        count-append x parsed.freed blocks,
        count-append x (parsed.freed ++ (n ∷ [])) blocks,
      )

  read_file-RunGiven :
      (fread : Bytes → Bool) (n : ℕ) (file : Bytes) → RunGiven [] n (read_file malloc fread n file)
  unfolding read_file
  read_file-RunGiven fread n file = elim (Bool-cases (malloc n)) [
    | inr refused ↦
        rw (read_file, refused)
          (no_config-Given [] n (suc n) (λ x. omega (arith, handed_refused malloc n x refused)))
    | inl given ↦ elim (Bool-cases (length file == 0 || not (fread file))) [
      | inl unread ↦
          rw (read_file, given, unread)
            (no_config-Given (n ∷ []) n (suc n) (λ x. omega (arith, handed_given malloc n x given)))
      | inr read ↦ rw (read_file_parsed malloc fread n file given read) (
          free_buffer-RunGiven n (ini_parsebuf malloc (suc n) (some file)) given
            (ini_parsebuf-RunGiven (suc n) (some file)))
    ]
  ]

  ini_parse-RunGiven :
      (fopen : Bytes → Option Bytes) (fread : Bytes → Bool) (n : ℕ) (path : Option Bytes)
      → RunGiven [] n (ini_parse malloc fopen fread n path)
  unfolding ini_parse
  ini_parse-RunGiven fopen fread n none = no_config-Given [] n n (λ x. refl)
  ini_parse-RunGiven fopen fread n (some path) = elim (Outcome-cases (load path 0)) [
    | inr bad ↦ rw (ini_parse, bad) tt
    | inl (c, e) ↦ elim (Bool-cases (c == 0)) [
      | inl end ↦ rw (ini_parse, e, end) (no_config-Given [] n n (λ x. refl))
      | inr more ↦ elim (Option-cases (fopen path)) [
        | inl missing ↦ rw (ini_parse, e, more, missing) (no_config-Given [] n n (λ x. refl))
        | inr (file, opened) ↦
            rw (ini_parse_opened malloc fopen fread n path e more opened)
              (read_file-RunGiven fread n file)
      ]
    ]
  ]

  -- If `ini_parse` ends without a fault, each block that it was given was freed once and is in no
  -- result, or stands once among those that `ini_free` frees of the result; and no other block is
  -- freed. Blocks are the numbers of the allocations that succeeded.
  pub ini_parse_frees :
      (fopen : Bytes → Option Bytes) (fread : Bytes → Bool) (path : Option Bytes) {parsed : Parsed}
      → ini_parse malloc fopen fread 0 path ≡ some (done parsed)
      → (x : ℕ)
      → count x (parsed.freed ++ (ini_free parsed.result).0) ≡ handed malloc parsed.allocations x
  ini_parse_frees fopen fread path {parsed} runs x =
      let given : RunGiven [] 0 (some (done parsed)) =
        subst (RunGiven [] 0) runs (ini_parse-RunGiven fopen fread 0 path) in
      omega (arith, given x, handed_none malloc x)
