-- ===== src/Listener/Wire.antt =====
-- What the listener reads through its pointers into the buffer.
pub mod Bounds
use vcmp.Prelude.{
  ℕ, ◌+◌, List, [], ◌∷◌, Bool, true, false, not, Outcome, done, ◌>>=◌, Bytes, ◌==◌, if◌then◌else◌,
  load, load_bytes, le_word,
}
use vcmp.Protocol.{vcmp_magic, vcmp_version}

-- `h->magic[0] != VCMP_MAGIC[0] || h->magic[1] != VCMP_MAGIC[1] || …`, from offset `i` on.
magic_differs : Bytes → ℕ → Bytes → Outcome Bool
magic_differs buf i [] = done false
magic_differs buf i (m ∷ ms) = do
  b ← load buf i
  let rest = magic_differs buf (i + 1) ms
  elim (b == m) [ true ↦ rest | false ↦ done true ]

unfoldable pub vcmp_validate : Bytes → Outcome ℕ
unfolding magic_differs
vcmp_validate buf = do
  differs ← magic_differs buf 0 vcmp_magic
  elim differs [
    | true ↦ done 1
    | false ↦ do version ← load buf 5; done (if not (version == vcmp_version) then 1 else 0)
  ]

-- `h->header.type`
abbrev pub load_type : Bytes → Outcome ℕ
load_type buf = load buf 6

-- `h->keylen` of a handshake, and `h->len` of a data packet.
unfoldable pub load_keylen : Bytes → Outcome ℕ
load_keylen buf = do bs ← load_bytes buf 7 4; done (le_word bs)

unfoldable pub load_len : Bytes → Outcome ℕ
load_len buf = do bs ← load_bytes buf 31 4; done (le_word bs)
