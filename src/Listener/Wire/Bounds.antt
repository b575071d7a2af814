-- ===== src/Listener/Wire/Bounds.antt =====
-- A packet that is long enough is read inside its bounds.
use vcmp.Prelude.{
  ℕ, ◌+◌, ◌≤◌, ◌<◌, [], ◌∷◌, Bool, true, false, not, Bytes, done, ◌>>=◌, Runs, >>=-Runs,
  Runs-eq_done, length, load, load_bytes, load_in_bounds, load_bytes_in_bounds, ◌==◌, arith,
  if◌then◌else◌,
}
use vcmp.Listener.Wire.{magic_differs, vcmp_validate, load_keylen, load_len}
use vcmp.Protocol.{vcmp_magic}

pub load-Runs : (buf : Bytes) (i : ℕ) → i < length buf → Runs (load buf i)
load-Runs buf i h = let (b, e) = load_in_bounds buf i h in Runs-eq_done _ e

pub load_bytes-Runs : (buf : Bytes) (i n : ℕ) → i + n ≤ length buf → Runs (load_bytes buf i n)
load_bytes-Runs buf i n h = let (bs, e, l) = load_bytes_in_bounds buf i n h in Runs-eq_done _ e

magic_differs-Runs :
    (ms buf : Bytes) (i : ℕ) → i + length ms ≤ length buf → Runs (magic_differs buf i ms)
unfolding magic_differs
magic_differs-Runs [] buf i h = tt
magic_differs-Runs (m ∷ ms) buf i h =
    >>=-Runs (load buf i) _ (load-Runs buf i (omega arith))
      λ b e. compared (b == m) (magic_differs-Runs ms buf (i + 1) (omega arith))
  where
    compared :
        (t : Bool)
        → Runs (magic_differs buf (i + 1) ms)
        → Runs (elim t [ true ↦ magic_differs buf (i + 1) ms | false ↦ done true ])
    compared true h = h
    compared false h = tt

pub vcmp_validate-Runs : (buf : Bytes) → 7 ≤ length buf → Runs (vcmp_validate buf)
unfolding vcmp_validate
vcmp_validate-Runs buf h =
    >>=-Runs (magic_differs buf 0 vcmp_magic) _ (magic_differs-Runs vcmp_magic buf 0 (omega arith))
      λ d e. versioned d
  where
    versioned :
        (d : Bool)
        → Runs {A = ℕ} (elim d [
          | true ↦ done 1
          | false ↦ load buf 5 >>= λ version. done (if not (version == 1) then 1 else 0)
        ])
    versioned true = tt
    versioned false = >>=-Runs (load buf 5) _ (load-Runs buf 5 (omega arith)) λ v e. tt

pub load_keylen-Runs : (buf : Bytes) → 11 ≤ length buf → Runs (load_keylen buf)
unfolding load_keylen
load_keylen-Runs buf h =
    >>=-Runs (load_bytes buf 7 4) _ (load_bytes-Runs buf 7 4 (omega arith)) λ bs e. tt

pub load_len-Runs : (buf : Bytes) → 35 ≤ length buf → Runs (load_len buf)
unfolding load_len
load_len-Runs buf h =
    >>=-Runs (load_bytes buf 31 4) _ (load_bytes-Runs buf 31 4 (omega arith)) λ bs e. tt
