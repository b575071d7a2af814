-- ===== src/Main/Tests.antt =====
-- The program with its own configuration file, and with one that ends as the parser wants.
use vcmp.Prelude.{
  ℕ, ◌≡◌, refl, none, some, List, [], ◌∷◌, true, false, fault, Bytes, pos, length, lacks-Without,
}
use vcmp.Randdata.{codes}
use vcmp.Rsa.Openssl.{Evp}
use vcmp.Ini.Reading.{Line, heading, pair, file_text}
use vcmp.Main.{Env, main}
use vcmp.Main.Start.{Settings}
use vcmp.Main.TextFile.{main_text_file}

abbrev plain_evp : Evp ℕ ℕ
plain_evp = record {
  ctx_new_id = some 0;
  keygen_init = λ c. (pos 1, c);
  set_rsa_keygen_bits = λ c n. (pos 1, c);
  keygen = λ c. (pos 1, 7);
  i2d_pubkey = λ k. (pos 2, 48 ∷ k ∷ []);
  d2i_pubkey = λ b. none;
  ctx_new = λ k. some 0;
  encrypt_init = λ c. (pos 1, 1);
  encrypt_size = λ c b. (pos 1, length b);
  encrypt = λ c b n. (pos 1, b);
  decrypt_init = λ c. (pos 1, 2);
  decrypt_size = λ c b. (pos 1, length b);
}

abbrev env_with : Bytes → Env ℕ ℕ
env_with file = record {
  malloc = λ n. true;
  fopen = λ path. some file;
  fread = λ bytes. true;
  strtol = λ text. (pos 65537, false);
  event_base_new = true;
  evp = plain_evp;
  inet_pton = λ text. some 1;
  listener_bind = λ sin. true;
  api_bind = λ sin. true;
}

-- The file as it comes with the program.
abbrev shipped : Bytes
shipped =
    codes
      "[listener]\naddress = 127.0.0.1\nport = 55556\n\n[wsapi]\naddress = 127.0.0.1\nport = 44444\n\n[tor]\nhostname = abc.onion\n\n[tor_proxy]\naddress = 127.0.0.1\nport = 9050"

main_text_file_example : main (env_with shipped) ≡ some fault
main_text_file_example = main_text_file (env_with shipped) (lacks-Without 0 shipped refl)

abbrev short_lines : List Line
short_lines =
    pair (codes "address") [] [] (codes "1")
    ∷ pair (codes "port") [] [] (codes "2")
    ∷ heading (codes "wsapi")
    ∷ pair (codes "address") [] [] (codes "1")
    ∷ pair (codes "port") [] [] (codes "2")
    ∷ []

abbrev short_settings : Settings
short_settings = record {
  listener_ip = codes "1";
  listener_port = codes "2";
  api_ip = codes "1";
  api_port = codes "2";
}

abbrev short_env : Env ℕ ℕ
short_env = env_with (file_text (heading (codes "listener") ∷ short_lines) (0 ∷ []))
