-- ===== src/ControlExtension/Block.antt =====
-- core/messages/control.py: the whole control extension block.
use nnrp_py.Common.{
  ℕ, ◌≡◌, refl, ap, ◌∙◌, Bool, false, ◌||◌, ◌&&◌, not, Option, none, some, List, [], ◌∷◌,
  if◌then◌else◌, has_bit, All, ok, err, value_error, Error, RaisesOnly, arith,
}
use nnrp_py.Struct.{Bytes, IsByte}
use nnrp_py.Stream.{keep_all}
use nnrp_py.Stream.RoundTrip.{read_all-write_all, write_all-read_all, read_all-RaisesOnly}
use nnrp_py.ControlExtension.{
  ControlExtensionEntry, is_known, keep_entry, pack_control_extension_block,
  unpack_control_extension_block,
}
use nnrp_py.ControlExtension.Entry.{entry-Inverts, entry-Accepts, entry-Proceeds}

-- An entry that the reader does not know and may not skip.
abbrev pub has_unknown_critical : Option (ℕ → Bool) → List ControlExtensionEntry → Bool
has_unknown_critical known_types [] = false
has_unknown_critical known_types (e ∷ es) =
    not (is_known known_types e) && has_bit e.ext_flags 0x0001
    || has_unknown_critical known_types es

abbrev pub known_entries :
    Option (ℕ → Bool) → List ControlExtensionEntry → List ControlExtensionEntry
known_entries known_types [] = []
known_entries known_types (e ∷ es) =
    if is_known known_types e
    then e ∷ known_entries known_types es
    else known_entries known_types es

keep_all-keep_entry :
    (known_types : Option (ℕ → Bool)) (es : List ControlExtensionEntry)
    → keep_all (keep_entry known_types) es ≡ (
        if has_unknown_critical known_types es
        then err value_error
        else ok (known_entries known_types es))
unfolding keep_all keep_entry
keep_all-keep_entry known_types [] = refl
keep_all-keep_entry known_types (e ∷ es) = ground (arith, keep_all-keep_entry known_types es)

-- A block that packs, read with any set of known types, gives ValueError if one of its entries is
-- of an unknown type and marked critical, and otherwise its entries of known types in their order.
pub unpack-pack_entries :
    (known_types : Option (ℕ → Bool)) (es : List ControlExtensionEntry) (bs : Bytes)
    → pack_control_extension_block es ≡ ok bs
    → unpack_control_extension_block known_types bs ≡ (
        if has_unknown_critical known_types es
        then err value_error
        else ok (known_entries known_types es))
unfolding pack_control_extension_block unpack_control_extension_block
unpack-pack_entries known_types es bs h =
    read_all-write_all entry-Inverts (keep_entry known_types) es bs h
    ∙ keep_all-keep_entry known_types es

known_entries_all : (es : List ControlExtensionEntry) → known_entries none es ≡ es
known_entries_all [] = refl
known_entries_all (e ∷ es) = ap (λ l. e ∷ l) (known_entries_all es)

no_unknown_critical : (es : List ControlExtensionEntry) → has_unknown_critical none es ≡ false
no_unknown_critical [] = refl
no_unknown_critical (e ∷ es) = no_unknown_critical es

-- Bytes that are read with no set of known types are what the entries pack to: padding included,
-- no other bytes are accepted.
pub pack-unpack_entries :
    (bs : Bytes) (es : List ControlExtensionEntry)
    → All IsByte bs
    → unpack_control_extension_block none bs ≡ ok es
    → pack_control_extension_block es ≡ ok bs
unfolding pack_control_extension_block unpack_control_extension_block
pack-unpack_entries bs es bytes h =
    write_all-read_all entry-Accepts bs es bytes (rw (← keep_all_some) h)
  where
    keep_all_some : keep_entry none ≡ (λ e. ok (some e))
    keep_all_some = unfold keep_entry in refl

keep_entry-RaisesOnly :
    (known_types : Option (ℕ → Bool)) (e : ControlExtensionEntry)
    → RaisesOnly (keep_entry known_types e)
unfolding keep_entry
keep_entry-RaisesOnly known_types e x h = ground arith

-- On any bytes, and for any set of known types, whatever `unpack` raises is ValueError; in
-- particular the loop never runs out of its rounds.
pub unpack_block-raises :
    (known_types : Option (ℕ → Bool)) (bs : Bytes) (e : Error)
    → unpack_control_extension_block known_types bs ≡ err e
    → e ≡ value_error
unfolding unpack_control_extension_block
unpack_block-raises known_types bs =
    read_all-RaisesOnly entry-Proceeds (keep_entry known_types) (keep_entry-RaisesOnly known_types)
      bs
