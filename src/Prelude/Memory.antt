-- ===== src/Prelude/Memory.antt =====
-- An object in memory is the list of its bytes; an access outside it is a fault.
use Prim.Native.Nat.{ℕ, zero, suc, ◌+◌, ◌≤◌, ◌<◌}
use mathlib.Core.Path.{◌≡◌, refl, ap, ◌∙◌, subst}
use mathlib.Core.Bool.{Bool, true, ◌&&◌}
use mathlib.Core.Option.{Option, none, some}
use mathlib.Core.List.{List, [], ◌∷◌, ◌++◌, append_assoc}
use native.Mathlib.Omega.{arith}
use vcmp.Prelude.Lists.{length, length-append, length-set, get_elem?, set, drop}
use vcmp.Prelude.Faults.{Outcome, done, fault, ◌>>=◌}
use mathlib.Core.Logic.{inl, inr}
use vcmp.Prelude.Tests.{Bool-cases, ltb, ◌==◌, if◌then◌else◌}
use vcmp.Prelude.Words.{Bytes}

abbrev pub from_option {ℓ} : {A : Type ℓ} → Option A → Outcome A
from_option none = fault
from_option (some a) = done a

pub from_option-done {ℓ} : {A : Type ℓ} (o : Option A) {a : A} → from_option o ≡ done a → o ≡ some a
from_option-done none h = absurd cc
from_option-done (some b) h = cc

-- `buf[i]`
abbrev pub load : Bytes → ℕ → Outcome ℕ
load buf i = from_option (get_elem? buf i)

-- `buf[i] = v`
abbrev pub store : Bytes → ℕ → ℕ → Outcome Bytes
store buf i v = if ltb i (length buf) then done (set buf i v) else fault

pub store_in_bounds : (buf : Bytes) (i v : ℕ) → i < length buf → store buf i v ≡ done (set buf i v)
store_in_bounds buf i v h = ground arith

-- The first `n` bytes of an object.
unfoldable pub load_front : ℕ → Bytes → Outcome Bytes
load_front zero buf = done []
load_front (suc n) [] = fault
load_front (suc n) (b ∷ buf) = do bs ← load_front n buf; done (b ∷ bs)

-- The `n` bytes from offset `i` on.
unfoldable pub load_bytes : Bytes → ℕ → ℕ → Outcome Bytes
load_bytes buf i n = if ltb (length buf) i then fault else load_front n (drop i buf)

-- `memcmp(a, b, n) == 0`
unfoldable pub memcmp_equal : ℕ → Bytes → Bytes → Outcome Bool
memcmp_equal zero a b = done true
memcmp_equal (suc n) (x ∷ a) (y ∷ b) = do same ← memcmp_equal n a b; done (x == y && same)
memcmp_equal (suc n) a b = fault

pub load_front-append : (xs ys : Bytes) → load_front (length xs) (xs ++ ys) ≡ done xs
unfolding load_front
load_front-append [] ys = refl
load_front-append (x ∷ xs) ys = rw (load_front-append xs ys)

drop-append {ℓ} : {A : Type ℓ} (xs ys : List A) → drop (length xs) (xs ++ ys) ≡ ys
drop-append [] ys = refl
drop-append (x ∷ xs) ys = drop-append xs ys

-- Bytes that stand in an object are what is read at their place.
pub load_bytes-append :
    (pre xs post : Bytes) (i n : ℕ)
    → i ≡ length pre
    → n ≡ length xs
    → load_bytes (pre ++ (xs ++ post)) i n ≡ done xs
unfolding load_bytes
load_bytes-append pre xs post i n ei en =
    rw (ei, en, drop-append pre (xs ++ post), load_front-append xs post)
      (ground (arith, length-append pre (xs ++ post)))

-- A read inside the object succeeds, and gives as many bytes as were asked for.
pub load_front_in_bounds :
    (n : ℕ) (buf : Bytes)
    → n ≤ length buf
    → (bs : Bytes) × (load_front n buf ≡ done bs) × (length bs ≡ n) × (buf ≡ bs ++ drop n buf)
unfolding load_front
load_front_in_bounds zero buf h = ([], refl, refl, refl)
load_front_in_bounds (suc n) [] h = absurd (omega arith)
load_front_in_bounds (suc n) (b ∷ buf) h =
    let (bs, e, l, s) = load_front_in_bounds n buf (omega arith) in
    (b ∷ bs, ground arith, ap suc l, ap (◌∷◌ b) s)

length-drop : (n : ℕ) (buf : Bytes) → n ≤ length buf → n + length (drop n buf) ≡ length buf
length-drop zero buf h = omega arith
length-drop (suc n) [] h = absurd (omega arith)
length-drop (suc n) (b ∷ buf) h = omega (arith, length-drop n buf (omega arith))

pub load_bytes_in_bounds :
    (buf : Bytes) (i n : ℕ)
    → i + n ≤ length buf
    → (bs : Bytes) × (load_bytes buf i n ≡ done bs) × (length bs ≡ n)
unfolding load_bytes
load_bytes_in_bounds buf i n h =
    let (bs, e, l, s) =
      load_front_in_bounds n (drop i buf) (omega (arith, length-drop i buf (omega arith))) in
    (bs, ground (arith, e), l)

pub load_front_overrun : (n : ℕ) (buf : Bytes) → length buf < n → load_front n buf ≡ fault
unfolding load_front
load_front_overrun zero buf h = absurd (omega arith)
load_front_overrun (suc n) [] h = refl
load_front_overrun (suc n) (b ∷ buf) h = rw (load_front_overrun n buf (omega arith))

pub load_bytes_overrun : (buf : Bytes) (i n : ℕ) → length buf < i + n → load_bytes buf i n ≡ fault
unfolding load_bytes
load_bytes_overrun buf i n h = elim (Bool-cases (ltb (length buf) i)) [
  | inl e ↦ rw e
  | inr e ↦ rw e (load_front_overrun n (drop i buf) (ground (arith, length-drop i buf)))
]

pub load_in_bounds : (buf : Bytes) (i : ℕ) → i < length buf → (b : ℕ) × (load buf i ≡ done b)
load_in_bounds [] i h = absurd (omega arith)
load_in_bounds (b ∷ buf) zero h = (b, refl)
load_in_bounds (b ∷ buf) (suc i) h = load_in_bounds buf i (omega arith)

pub memcmp_equal_in_bounds :
    (n : ℕ) (a b : Bytes)
    → n ≤ length a
    → n ≤ length b
    → (same : Bool) × (memcmp_equal n a b ≡ done same)
unfolding memcmp_equal
memcmp_equal_in_bounds zero a b ha hb = (true, refl)
memcmp_equal_in_bounds (suc n) [] b ha hb = absurd (omega arith)
memcmp_equal_in_bounds (suc n) (x ∷ a) [] ha hb = absurd (omega arith)
memcmp_equal_in_bounds (suc n) (x ∷ a) (y ∷ b) ha hb =
    let (same, e) = memcmp_equal_in_bounds n a b (omega arith) (omega arith) in
    (x == y && same, rw e)

-- `memcpy(&buf[i], bytes, n)`, and the store of a word.
unfoldable pub store_bytes : Bytes → ℕ → Bytes → Outcome Bytes
store_bytes buf i [] = done buf
store_bytes buf i (b ∷ bs) = do buf' ← store buf i b; store_bytes buf' (i + 1) bs

set-append {ℓ} :
    {A : Type ℓ} (pre : List A) (x y : A) (post : List A)
    → set (pre ++ (x ∷ post)) (length pre) y ≡ pre ++ (y ∷ post)
set-append [] x y post = refl
set-append (a ∷ pre) x y post = ap (◌∷◌ a) (set-append pre x y post)

pub store-append :
    (pre : Bytes) (x y : ℕ) (post : Bytes) (i : ℕ)
    → i ≡ length pre
    → store (pre ++ (x ∷ post)) i y ≡ done (pre ++ (y ∷ post))
store-append pre x y post i e =
    rw (e, set-append pre x y post) (ground (arith, length-append pre (x ∷ post)))

-- New bytes replace old ones of the same number, and nothing else changes.
pub store_bytes-append :
    (new pre old post : Bytes) (i : ℕ)
    → i ≡ length pre
    → length new ≡ length old
    → store_bytes (pre ++ (old ++ post)) i new ≡ done (pre ++ (new ++ post))
unfolding store_bytes
store_bytes-append [] pre [] post i ei el = refl
store_bytes-append [] pre (x ∷ old) post i ei el = absurd (omega arith)
store_bytes-append (y ∷ new) pre [] post i ei el = absurd (omega arith)
store_bytes-append (y ∷ new) pre (x ∷ old) post i ei el =
    rw (store-append pre x y (old ++ post) i ei) (
      subst (λ b. store_bytes b (i + 1) new ≡ done (pre ++ (y ∷ (new ++ post))))
        (append_assoc pre (y ∷ []) (old ++ post))
        (store_bytes-append new (pre ++ (y ∷ [])) old post (i + 1)
            (ground (arith, length-append pre (y ∷ []))) (omega arith)
          ∙ ap done (append_assoc pre (y ∷ []) (new ++ post))))

-- A copy that does not fit is a fault.
pub store_bytes_overrun :
    (bs buf : Bytes) (i : ℕ)
    → i ≤ length buf
    → length buf < i + length bs
    → store_bytes buf i bs ≡ fault
unfolding store_bytes
store_bytes_overrun [] buf i lo hi = absurd (omega arith)
store_bytes_overrun (b ∷ bs) buf i lo hi =
    ground (arith, length-set buf i b, store_bytes_overrun bs (set buf i b) (i + 1))

-- What stands at an offset, and behind it, by what is left when the bytes before it are dropped.
pub load-drop :
    (buf : Bytes) (i : ℕ) {x : ℕ} {rest : Bytes} → drop i buf ≡ x ∷ rest → load buf i ≡ done x
load-drop [] zero h = absurd cc
load-drop [] (suc i) h = absurd cc
load-drop (b ∷ buf) zero h = ground arith
load-drop (b ∷ buf) (suc i) h = load-drop buf i h

pub drop_next :
    (buf : Bytes) (i : ℕ) {x : ℕ} {rest : Bytes} → drop i buf ≡ x ∷ rest → drop (suc i) buf ≡ rest
drop_next [] zero h = absurd cc
drop_next [] (suc i) h = absurd cc
drop_next (b ∷ buf) zero h = cc
drop_next (b ∷ buf) (suc i) h = drop_next buf i h

pub drop_past :
    (buf xs : Bytes) (i j : ℕ) {rest : Bytes}
    → drop i buf ≡ xs ++ rest
    → j ≡ i + length xs
    → drop j buf ≡ rest
drop_past buf [] i j h e = let same : j ≡ i = omega arith in rw same h
drop_past buf (x ∷ xs) i j h e = drop_past buf xs (suc i) j (drop_next buf i h) (omega arith)
