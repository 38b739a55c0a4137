-- ===== src/Metadata.antt =====
-- core/messages/control.py and data.py: the class `_FixedWidthMetadata`, on which every message's
-- metadata stands. Each child models one class; `Message` joins them.
pub mod ControlEnums
pub mod DataEnums
pub mod Coerce
pub mod TransportProbe
pub mod TransportProbeAck
pub mod SessionOpen
pub mod FlowUpdate
pub mod ResultHint
pub mod SessionMigrateAck
pub mod ClientHello
pub mod ServerHelloAck
pub mod SessionPatch
pub mod SessionPatchAck
pub mod TensorProfilePatch
pub mod TensorProfilePatchAck
pub mod ErrorReport
pub mod CachePut
pub mod CacheAck
pub mod CacheInvalidate
pub mod BodyRegionPrelude
pub mod InlineObjectBlock
pub mod ObjectReference
pub mod ExtensionFrame
pub mod FrameSubmit
pub mod TensorSection
pub mod ResultPush
pub mod SchemaDescriptor
pub mod TypedPayload
pub mod SessionMigrate
pub mod Message
use nnrp_py.Common.{
  ℕ, List, ◌==◌, ==_self, if◌then◌else◌, length, ◌≡◌, ◌≢◌, ap, All, inl, inr, Bool-cases, Result,
  ok, err, value_error, ◌>>=◌, ◌>>◌, >>=-eq-ok,
}
use nnrp_py.Struct
use nnrp_py.Struct.{Bytes, Struct, IsByte}

-- One class: its STRUCT, what `pack` checks, the tuple that it packs, and `_from_tuple`.
pub record FixedWidth (M : Type 0) : Type 0 where
  pub struct : Struct
  pub check_pack : M → Result (Unit {0})
  pub to_tuple : M → List ℕ
  pub from_tuple : List ℕ → Result M

module _ {M : Type 0} (c : FixedWidth M) where
  unfoldable pub pack : M → Result Bytes
  pack m = do c.check_pack m; Struct.pack c.struct (c.to_tuple m)

  unfoldable pub unpack : Bytes → Result M
  unpack payload =
      if length payload == Struct.size c.struct
      then (do values ← Struct.unpack c.struct payload; c.from_tuple values)
      else err value_error

  -- What `pack` returns has the size of STRUCT, and `unpack` hands its tuple to `_from_tuple`.
  pub length-pack : (m : M) (bs : Bytes) → pack m ≡ ok bs → length bs ≡ Struct.size c.struct
  unfolding pack
  length-pack m bs h =
      let (_, checked, packed) = >>=-eq-ok (c.check_pack m) _ h in
      Struct.RoundTrip.length-pack c.struct (c.to_tuple m) bs packed

  pub pack-IsByte : (m : M) (bs : Bytes) → pack m ≡ ok bs → All IsByte bs
  unfolding pack
  pack-IsByte m bs h =
      let (_, checked, packed) = >>=-eq-ok (c.check_pack m) _ h in
      Struct.RoundTrip.pack-IsByte c.struct (c.to_tuple m) bs packed

  pub check_of_pack : (m : M) (bs : Bytes) → pack m ≡ ok bs → c.check_pack m ≡ ok tt
  unfolding pack
  check_of_pack m bs h = let (_, checked, packed) = >>=-eq-ok (c.check_pack m) _ h in checked

  pub unpack-pack :
      (m : M) (bs : Bytes) → c.from_tuple (c.to_tuple m) ≡ ok m → pack m ≡ ok bs → unpack bs ≡ ok m
  unfolding pack unpack
  unpack-pack m bs law h =
      let (_, checked, packed) = >>=-eq-ok (c.check_pack m) _ h in
      rw (
        ==_self _ _ (Struct.RoundTrip.length-pack c.struct (c.to_tuple m) bs packed),
        Struct.RoundTrip.unpack-pack c.struct (c.to_tuple m) bs packed,
        law,
      )

  -- What `unpack` accepts has the size of STRUCT, and packs to the same bytes if its tuple is the
  -- one that was read.
  pub length-unpack : (bs : Bytes) (m : M) → unpack bs ≡ ok m → length bs ≡ Struct.size c.struct
  unfolding unpack
  length-unpack bs m h = elim (Bool-cases (length bs == Struct.size c.struct)) [
    | inl same ↦
        let (vs, read, _) = >>=-eq-ok (Struct.unpack c.struct bs) _ (rw same at h) in
        Struct.RoundTrip.length_of_unpack c.struct bs vs read
    | inr other ↦ cc (rw other at h)
  ]

  pub unpack-valid :
      (check : M → Result (Unit {0})) (bs : Bytes) (m : M)
      → ((vs : List ℕ) → c.from_tuple vs ≡ ok m → check m ≡ ok tt)
      → unpack bs ≡ ok m
      → check m ≡ ok tt
  unfolding unpack
  unpack-valid check bs m law h = elim (Bool-cases (length bs == Struct.size c.struct)) [
    | inl same ↦
        let (vs, read, made) = >>=-eq-ok (Struct.unpack c.struct bs) _ (rw same at h) in law vs made
    | inr other ↦ cc (rw other at h)
  ]

  pub pack-unpack :
      (bs : Bytes) (m : M)
      → ((vs : List ℕ) → c.from_tuple vs ≡ ok m → (c.to_tuple m ≡ vs) × (c.check_pack m ≡ ok tt))
      → All IsByte bs
      → unpack bs ≡ ok m
      → pack m ≡ ok bs
  unfolding pack unpack
  pack-unpack bs m law bytes h = elim (Bool-cases (length bs == Struct.size c.struct)) [
    | inl same ↦
        let (vs, read, made) = >>=-eq-ok (Struct.unpack c.struct bs) _ (rw same at h) in
        let (tuple_is, checked) = law vs made in
        rw (checked, tuple_is) (Struct.RoundTrip.pack-unpack c.struct bs vs bytes read)
    | inr other ↦ cc (rw other at h)
  ]
