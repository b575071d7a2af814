-- ===== src/Ini/Lookup/Names.antt =====
-- Strings as the functions of vcmp/lib/ini.c compare and copy them.
use vcmp.Prelude.{
  ℕ, ◌≡◌, refl, ap, [], ◌∷◌, ◌++◌, true, false, Bytes, done, ◌==◌, load, string_of,
  string_of-append, Without, padded, zeros, length, ◌<◌, ◌-◌, suc, arith, ==_refl, Bool-cases, inl,
  inr, some,
}
use vcmp.Ini.{Text}
use vcmp.Ini.Lookup.{same}
use vcmp.Ini.Store.{strcmp_equal, is_named}

-- The object holds the string, with a zero behind it.
abbrev pub Spells : Bytes → Bytes → Type 0
Spells object s = Without 0 s × ((rest : Bytes) × (object ≡ s ++ (0 ∷ rest)))

-- A string that is not empty.
abbrev pub Starts : Bytes → Type 0
Starts [] = ⊥
Starts (x ∷ xs) = Unit

pub same_refl : (xs : Bytes) → same xs xs ≡ true
same_refl [] = refl
same_refl (x ∷ xs) = rw (==_refl x) (same_refl xs)

pub same-eq : (xs ys : Bytes) → same xs ys ≡ true → xs ≡ ys
same-eq [] [] h = refl
same-eq [] (y ∷ ys) h = absurd cc
same-eq (x ∷ xs) [] h = absurd cc
same-eq (x ∷ xs) (y ∷ ys) h =
    let first : x ≡ y = ground arith in
    let others : same xs ys ≡ true = ground arith in
    rw first (ap (λ zs. y ∷ zs) (same-eq xs ys others))

strcmp_equal_lem :
    (xs s rest : Bytes)
    → Without 0 xs
    → Without 0 s
    → strcmp_equal xs (s ++ (0 ∷ rest)) ≡ done (same xs s)
unfolding strcmp_equal
strcmp_equal_lem [] [] rest w v = refl
strcmp_equal_lem [] (y ∷ s) rest w v = rw v.0 refl
strcmp_equal_lem (x ∷ xs) [] rest w v = rw w.0 refl
strcmp_equal_lem (x ∷ xs) (y ∷ s) rest w v = elim (Bool-cases (x == y)) [
  | inl e ↦ rw e (strcmp_equal_lem xs s rest w.1 v.1)
  | inr e ↦ rw e refl
]

pub is_named_lem :
    (text : Text) (object s : Bytes)
    → Without 0 text.bytes
    → Spells object s
    → is_named (some text) object ≡ done (same text.bytes s)
is_named_lem text object s w (v, (rest, e)) = rw e (strcmp_equal_lem text.bytes s rest w v)

pub string_of-Spells : (object s : Bytes) → Spells object s → string_of object ≡ done s
string_of-Spells object s (v, (rest, e)) = rw e (string_of-append s rest v)

-- The first byte of a string that is not empty.
pub load-Spells :
    (object s : Bytes)
    → Spells object s
    → Starts s
    → (c : ℕ) × (load object 0 ≡ done c) × ((c == 0) ≡ false)
load-Spells object [] (v, (rest, e)) start = absurd start
load-Spells object (x ∷ s) (v, (rest, e)) start = (x, rw e refl, v.0)

-- An array of 256 bytes with a string that leaves room for its zero.
pub padded-Spells : (s : Bytes) → Without 0 s → length s < 256 → Spells (padded s) s
padded-Spells s w room =
    let more : 256 - length s ≡ suc (255 - length s) = omega arith in
    (w, (zeros (255 - length s), rw more refl))
