-- ===== src/ControlExtension.antt =====
-- core/messages/control.py: the control extension block, type-length-value entries padded to a
-- multiple of eight bytes.
pub mod Entry
pub mod Block
use nnrp_py.Common.{
  ℕ, ◌+◌, ◌-◌, ◌%◌, Bool, true, ◌||◌, not, Option, none, some, List, [], ◌∷◌, ◌++◌, leb, ◌==◌,
  if◌then◌else◌, has_bit, length, take, drop, all_zero, zeros, Result, ok, err, struct_error, ◌>>=◌,
  ◌>>◌, require,
}
use nnrp_py.Struct
use nnrp_py.Struct.{Bytes, Struct}
use nnrp_py.Stream.{write_all, read_all}

pub record ControlExtensionEntry : Type 0 where
  pub ext_type : ℕ
  pub ext_flags : ℕ
  pub payload : Bytes

-- `<HHI`
abbrev pub header_struct : Struct
header_struct = 2 ∷ 2 ∷ 4 ∷ []

-- `(-payload_length) % 8`
abbrev pub padding : ℕ → ℕ
padding payload_length = (8 - payload_length % 8) % 8

unfoldable pub pack_entry : ControlExtensionEntry → Result Bytes
pack_entry e = do
  header ← Struct.pack header_struct (e.ext_type ∷ e.ext_flags ∷ length e.payload ∷ [])
  ok (header ++ (e.payload ++ zeros (padding (length e.payload))))

unfoldable pub pack_control_extension_block : List ControlExtensionEntry → Result Bytes
pack_control_extension_block = write_all pack_entry

-- What follows the header, from the three values of its struct.
unfoldable pub read_payload : Bytes → List ℕ → Result (ControlExtensionEntry × Bytes)
read_payload bs (ext_type ∷ ext_flags ∷ ext_len ∷ []) = do
  require (leb (8 + ext_len) (length bs))
  require (leb (8 + ext_len + padding ext_len) (length bs))
  require (all_zero (take (padding ext_len) (drop (8 + ext_len) bs)))
  ok (
    record { ext_type = ext_type; ext_flags = ext_flags; payload = take ext_len (drop 8 bs) },
    drop (8 + ext_len + padding ext_len) bs,
  )
read_payload bs _ = err struct_error

-- One round of the loop: `bs` is the block from `offset` on.
unfoldable pub read_entry : Bytes → Result (ControlExtensionEntry × Bytes)
unfolding read_payload
read_entry bs = do
  require (leb 8 (length bs))
  header ← Struct.unpack header_struct (take 8 bs)
  read_payload bs header

-- `known_types`, as its membership test.
abbrev pub is_known : Option (ℕ → Bool) → ControlExtensionEntry → Bool
is_known none e = true
is_known (some known) e = known e.ext_type

-- An unknown entry is skipped, and refused if it is marked critical.
unfoldable pub keep_entry :
    Option (ℕ → Bool) → ControlExtensionEntry → Result (Option ControlExtensionEntry)
keep_entry known_types e =
    if is_known known_types e
    then ok (some e)
    else do require (not (has_bit e.ext_flags 0x0001)); ok none

unfoldable pub unpack_control_extension_block :
    Option (ℕ → Bool) → Bytes → Result (List ControlExtensionEntry)
unpack_control_extension_block known_types = read_all read_entry (keep_entry known_types)
