-- ===== src/Ini/Turns.antt =====
-- The loop of the parser by its turns, and the start of it (vcmp/lib/ini.c).
use vcmp.Prelude.{
  ℕ, suc, ◌+◌, ◌*◌, ◌≡◌, refl, Option, none, some, Bool, not, ◌||◌, true, false, done, fault, Bytes,
  ◌==◌, load, length,
}
use vcmp.Ini.{Config}
use vcmp.Ini.Store.{ini_create}
use vcmp.Ini.Parser.{Parser, peek, parse_turn}
use vcmp.Ini.File.{
  parse_loop, ini_parsebuf, first_parser, end_with, fail_with, free_buffer, read_file, ini_parse,
}

module _ (malloc : ℕ → Bool) (fuel : ℕ) (s : Parser) {c : ℕ} (here : peek s.bufp ≡ done c) where
  pub parse_loop_ended : (c == 0) ≡ true → parse_loop malloc (suc fuel) s ≡ some (done (end_with s))
  unfolding parse_loop
  parse_loop_ended end = rw (parse_loop, here, end) refl

  module _ (more : (c == 0) ≡ false) where
    pub parse_loop_failed :
        parse_turn malloc s ≡ done none → parse_loop malloc (suc fuel) s ≡ some (done (fail_with s))
    unfolding parse_loop
    parse_loop_failed turned = rw (parse_loop, here, more, turned) refl

    pub parse_loop_turned :
        {s' : Parser}
        → parse_turn malloc s ≡ done (some s')
        → parse_loop malloc (suc fuel) s ≡ parse_loop malloc fuel s'
    unfolding parse_loop
    parse_loop_turned turned = rw (parse_loop, here, more, turned) refl

module _ (malloc : ℕ → Bool) (fuel : ℕ) (s : Parser) where
  pub parse_loop_unread : peek s.bufp ≡ fault → parse_loop malloc (suc fuel) s ≡ some fault
  unfolding parse_loop
  parse_loop_unread bad = rw (parse_loop, bad) refl

  pub parse_loop_faulted :
      {c : ℕ}
      → peek s.bufp ≡ done c
      → (c == 0) ≡ false
      → parse_turn malloc s ≡ fault
      → parse_loop malloc (suc fuel) s ≡ some fault
  unfolding parse_loop
  parse_loop_faulted here more bad = rw (parse_loop, here, more, bad) refl

pub ini_parsebuf_started :
    (malloc : ℕ → Bool) (n : ℕ) (buf : Bytes) {c : ℕ} {cfg : Config}
    → load buf 0 ≡ done c
    → (c == 0) ≡ false
    → (ini_create malloc n).0 ≡ some cfg
    → ini_parsebuf malloc n (some buf)
      ≡ parse_loop malloc (2 * length buf + 1) (first_parser buf (some cfg) (ini_create malloc n).1)
unfolding ini_parsebuf
ini_parsebuf_started malloc n buf here more made = rw (ini_parsebuf, here, more, made) refl

pub read_file_parsed :
    (malloc : ℕ → Bool) (fread : Bytes → Bool) (n : ℕ) (file : Bytes)
    → malloc n ≡ true
    → (length file == 0 || not (fread file)) ≡ false
    → read_file malloc fread n file ≡ free_buffer n (ini_parsebuf malloc (suc n) (some file))
unfolding read_file
read_file_parsed malloc fread n file memory read = rw (read_file, memory, read) refl

pub ini_parse_opened :
    (malloc : ℕ → Bool) (fopen : Bytes → Option Bytes) (fread : Bytes → Bool) (n : ℕ) (path : Bytes)
    {c : ℕ} {file : Bytes}
    → load path 0 ≡ done c
    → (c == 0) ≡ false
    → fopen path ≡ some file
    → ini_parse malloc fopen fread n (some path) ≡ read_file malloc fread n file
unfolding ini_parse
ini_parse_opened malloc fopen fread n path here more opened =
    rw (ini_parse, here, more, opened) refl
