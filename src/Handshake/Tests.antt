-- ===== src/Handshake/Tests.antt =====
-- A short request, with a list for a table.
use vcmp.Prelude.{
  ◌≡◌, refl, Option, none, some, List, [], ◌∷◌, ◌++◌, Bool, true, false, ◌&&◌, Bytes, done, fault,
  ◌==◌, if◌then◌else◌, length, Bool-cases, inl, inr,
}
use vcmp.Handshake.Entries.{Entry, Uthash}
use vcmp.Handshake.{ws_parse_handshake, ws_header_get}
use vcmp.Randdata.{codes}
use vcmp.Prelude.{ℕ, suc, ◌+◌, ◌≢◌, arith, All, zero}
use vcmp.Handshake.Entries.{UthashLaw}
use vcmp.Prelude.{Without, lacks-Without}
use vcmp.Handshake.Lines.{Header, IsHeader, zero_entry, entry_of}
use vcmp.Handshake.Lookup.{AreDistinct, ws_header_get-ws_parse_handshake}

abbrev same_name : Bytes → Bytes → Bool
same_name [] [] = true
same_name (x ∷ xs) (y ∷ ys) = x == y && same_name xs ys
same_name _ _ = false

abbrev pub Table : Type 0
Table = List (Bytes × Entry)

abbrev look_up : Table → Bytes → Option Entry
look_up [] name = none
look_up ((n, e) ∷ t) name = if same_name n name then some e else look_up t name

abbrev pub listed : Uthash Table
listed = record {
  add_str = λ head name e. elim head [ none ↦ (name, e) ∷ [] | some t ↦ (name, e) ∷ t ];
  find_str = λ head name. elim head [ none ↦ none | some t ↦ look_up t name ];
}

abbrev small_entry : Entry
small_entry = record { key = 0 ∷ 0 ∷ 0 ∷ 0 ∷ []; value = 0 ∷ 0 ∷ 0 ∷ 0 ∷ [] }

abbrev request : Bytes
request = codes "GET / HTTP/1.1\r\nA: b\r\nHo: st\r\n\r\n"

request_run :
    ws_parse_handshake listed (λ i. some small_entry) request (length request)
    ≡ done (
        some (
          (
            codes "Ho",
            record { key = codes "Ho" ++ (0 ∷ 0 ∷ []); value = codes "st" ++ (0 ∷ 0 ∷ []) },
          )
          ∷ (
            codes "A",
            record { key = codes "A" ++ (0 ∷ 0 ∷ 0 ∷ []); value = codes "b" ++ (0 ∷ 0 ∷ 0 ∷ []) },
          )
          ∷ []))
unfolding ws_parse_handshake vcmp.Handshake.parse_loop vcmp.Handshake.add_header
    vcmp.Handshake.find_delim vcmp.Prelude.Strings.strncpy vcmp.Prelude.Strings.string_of
request_run = refl

-- A header without a value.
no_value_run :
    ws_parse_handshake listed (λ i. some small_entry) (codes "GET\r\nA:\r\n\r\n") 11 ≡ fault
unfolding ws_parse_handshake vcmp.Handshake.parse_loop vcmp.Handshake.add_header
    vcmp.Handshake.find_delim vcmp.Prelude.Strings.strncpy
no_value_run = refl

abbrev pub zero_malloc : ℕ → Option Entry
zero_malloc i = some zero_entry

abbrev host : Header
host = record { name = codes "Ho"; value = codes "st" }

abbrev short : Header
short = record { name = codes "A"; value = codes "b" }

host-IsHeader : IsHeader host
host-IsHeader = record {
  name_fits = omega arith;
  value_fits = omega arith;
  name_ends = (refl, (refl, tt));
  value_ends = (refl, (refl, tt));
  one_line = (refl, (refl, tt));
  value_one_line = (refl, (refl, tt));
  no_colon = (refl, (refl, tt));
}

short-IsHeader : IsHeader short
short-IsHeader = record {
  name_fits = omega arith;
  value_fits = omega arith;
  name_ends = (refl, tt);
  value_ends = (refl, tt);
  one_line = (refl, tt);
  value_one_line = (refl, tt);
  no_colon = (refl, tt);
}

same_name_refl : (xs : Bytes) → same_name xs xs ≡ true
same_name_refl [] = refl
same_name_refl (x ∷ xs) = ground (arith, same_name_refl xs)

same_name-true : (xs ys : Bytes) → same_name xs ys ≡ true → xs ≡ ys
same_name-true [] [] h = refl
same_name-true [] (y ∷ ys) h = absurd cc
same_name-true (x ∷ xs) [] h = absurd cc
same_name-true (x ∷ xs) (y ∷ ys) h =
    let heads : x ≡ y = ground arith in
    let tails : same_name xs ys ≡ true = ground arith in cc (heads, same_name-true xs ys tails)

same_name-false : (xs ys : Bytes) → xs ≢ ys → same_name xs ys ≡ false
same_name-false xs ys n = elim (Bool-cases (same_name xs ys)) [
  | inl e ↦ absurd (n (same_name-true xs ys e))
  | inr e ↦ e
]

listed_added :
    (head : Option Table) (name : Bytes) (e : Entry)
    → listed.find_str (some (listed.add_str head name e)) name ≡ some e
listed_added none name e = rw (same_name_refl name) refl
listed_added (some t) name e = rw (same_name_refl name) refl

listed_other :
    (head : Option Table) (name other : Bytes) (e : Entry)
    → name ≢ other
    → listed.find_str (some (listed.add_str head name e)) other ≡ listed.find_str head other
listed_other none name other e n = rw (same_name-false name other n) refl
listed_other (some t) name other e n = rw (same_name-false name other n) refl

pub listed_law : UthashLaw listed
listed_law = record {
  find_empty = λ name. refl;
  find_added = λ head name e new. listed_added head name e;
  find_other = λ head name other e n new. listed_other head name other e n;
}

distinct : AreDistinct (short ∷ host ∷ [])
distinct = ((λ e. ground arith, tt), (tt, tt))

-- `request` again, with entries of 256 bytes.
ws_header_get-ws_parse_handshake_example :
    (table : Table) × (ws_parse_handshake listed zero_malloc request 32 ≡ done (some table))
    × All (λ x. ws_header_get listed table x.name ≡ some (entry_of x)) (short ∷ host ∷ [])
ws_header_get-ws_parse_handshake_example =
    ws_header_get-ws_parse_handshake listed zero_malloc (codes "GET / HTTP/1.1\r") [] short
      (host ∷ []) 0 listed_law (λ i. refl) (lacks-Without b'\n' (codes "GET / HTTP/1.1\r") refl)
      (short-IsHeader, (host-IsHeader, tt)) distinct
