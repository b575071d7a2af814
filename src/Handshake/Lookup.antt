-- ===== src/Handshake/Lookup.antt =====
-- What `ws_header_get` finds in the table of a request.
use vcmp.Prelude.{
  ℕ, ◌+◌, ◌≡◌, ◌≢◌, refl, ap, sym, ◌∙◌, Option, none, some, List, [], ◌∷◌, ◌++◌, done, Bytes, All,
  length,
}
use mathlib.Core.Path.{subst}
use vcmp.Handshake.Entries.{Entry, Uthash, UthashLaw}
use vcmp.Prelude.{Without}
use vcmp.Handshake.Lines.{Header, IsHeader, entry_of, zero_entry}
use vcmp.Handshake.Requests.{header_lines, lines_size, added_all, ws_parse_handshake-header_lines}
use vcmp.Handshake.{ws_parse_handshake, ws_header_get}

-- No two of the headers have the same name.
abbrev pub AreDistinct : List Header → Type 0
AreDistinct [] = Unit
AreDistinct (h ∷ hs) = All (λ other. h.name ≢ other.name) hs × AreDistinct hs

module _ {H : Type 0} (uthash : Uthash H) (law : UthashLaw uthash) where
  abbrev AreNew : Option H → List Header → Type 0
  AreNew head hs = All (λ h. uthash.find_str head h.name ≡ none) hs

  AreNew-add :
      (head : Option H) (h : Header) (hs : List Header)
      → uthash.find_str head h.name ≡ none
      → All (λ other. h.name ≢ other.name) hs
      → AreNew head hs
      → AreNew (some (uthash.add_str head h.name (entry_of h))) hs
  AreNew-add head h [] new distinct all_new = tt
  AreNew-add head h (x ∷ hs) new (d, distinct) (x_new, all_new) = (
    law.find_other head h.name x.name (entry_of h) d new ∙ x_new,
    AreNew-add head h hs new distinct all_new,
  )

  -- What was found before is found after headers of other names are added.
  find-added_all :
      (head : Option H) (hs : List Header) (name : Bytes)
      → AreDistinct hs
      → AreNew head hs
      → All (λ other. other.name ≢ name) hs
      → uthash.find_str (added_all uthash head hs) name ≡ uthash.find_str head name
  find-added_all head [] name distinct new fresh = refl
  find-added_all head (h ∷ hs) name (d, distinct) (h_new, new) (f, fresh) =
      find-added_all (some (uthash.add_str head h.name (entry_of h))) hs name distinct
        (AreNew-add head h hs h_new d new) fresh
      ∙ law.find_other head h.name name (entry_of h) f h_new

  flipped :
      (name : Bytes) (hs : List Header)
      → All (λ other. name ≢ other.name) hs
      → All (λ other. other.name ≢ name) hs
  flipped name [] d = tt
  flipped name (h ∷ hs) (n, d) = (λ e. n (sym e), flipped name hs d)

  added_all-finds :
      (head : Option H) (hs : List Header)
      → AreDistinct hs
      → AreNew head hs
      → All (λ h. uthash.find_str (added_all uthash head hs) h.name ≡ some (entry_of h)) hs
  added_all-finds head [] distinct new = tt
  added_all-finds head (h ∷ hs) (d, distinct) (h_new, new) = (
    find-added_all (some (uthash.add_str head h.name (entry_of h))) hs h.name distinct all_new
          (flipped h.name hs d)
        ∙ law.find_added head h.name (entry_of h) h_new,
    added_all-finds (some (uthash.add_str head h.name (entry_of h))) hs distinct all_new,
  )
    where
      all_new : AreNew (some (uthash.add_str head h.name (entry_of h))) hs
      all_new = AreNew-add head h hs h_new d new

  empty_AreNew : (hs : List Header) → AreNew none hs
  empty_AreNew [] = tt
  empty_AreNew (h ∷ hs) = (law.find_empty h.name, empty_AreNew hs)

  added_all-some :
      (t : H) (hs : List Header) → (table : H) × (added_all uthash (some t) hs ≡ some table)
  added_all-some t [] = (t, refl)
  added_all-some t (h ∷ hs) = added_all-some (uthash.add_str (some t) h.name (entry_of h)) hs

-- Where the memory for entries is zero, a request with at least one header, whose headers fit their
-- entries and have distinct names, is parsed to a table in which each of them is found under its
-- name, with its value.
pub ws_header_get-ws_parse_handshake :
    {H : Type 0} (uthash : Uthash H) (malloc : ℕ → Option Entry) (first rest : Bytes) (h : Header)
    (hs : List Header) (left : ℕ)
    → UthashLaw uthash
    → ((i : ℕ) → malloc i ≡ some zero_entry)
    → Without b'\n' first
    → All IsHeader (h ∷ hs)
    → AreDistinct (h ∷ hs)
    → (table : H) × (ws_parse_handshake uthash malloc
          (first ++ (b'\n' ∷ header_lines (h ∷ hs) rest))
          (length first + (1 + lines_size (h ∷ hs) + left))
        ≡ done (some table))
      × All (λ x. ws_header_get uthash table x.name ≡ some (entry_of x)) (h ∷ hs)
unfolding ws_header_get
ws_header_get-ws_parse_handshake uthash malloc first rest h hs left law given w ok distinct =
    let (table, e) = added_all-some uthash law (uthash.add_str none h.name (entry_of h)) hs in
    (
      table,
      ws_parse_handshake-header_lines uthash malloc first rest (h ∷ hs) left given w ok ∙ ap done e,
      subst (λ t. All (λ x. uthash.find_str t x.name ≡ some (entry_of x)) (h ∷ hs)) e
          (added_all-finds uthash law none (h ∷ hs) distinct (empty_AreNew uthash law (h ∷ hs))),
    )
