-- ===== src/Catalog/Versions.antt =====
-- schema.py: what a version mismatch reports.
use nnrp_py.Common.{
  pair_key, ℕ, ◌≤◌, ◌≡◌, ◌⊎◌, inl, inr, refl, sym, ap, ◌∙◌, Option, none, some, [], ◌∷◌, true, ◌==◌,
  ==_iff, ==_self, leb, leb→le, Bool-cases, max, ok, >>=-eq-ok, require, from_ok, has_key, arith,
}
use nnrp_py.Metadata.SchemaDescriptor.{SchemaDescriptorHeader}
use nnrp_py.Catalog.{
  SchemaVersionMismatch, Descriptors, lookup, available_version, version_mismatch, larger,
  mismatch_of,
}

-- No installed version is above the one that is reported, and none is installed where none is.
larger_bound : (v : ℕ) (rest : Option ℕ) → v ≤ larger v rest
larger_bound v none = omega arith
larger_bound v (some w) = omega arith

larger_either : (v w : ℕ) (rest : Option ℕ) → larger v rest ≡ w → (w ≡ v) ⊎ (rest ≡ some w)
larger_either v w none h = inl (sym h)
larger_either v w (some x) h = elim (Bool-cases (leb v x)) [
  | inl e ↦ inr (ap some (omega (arith, h, leb→le v x e)))
  | inr e ↦ inl (ground (arith, h))
]

from_some : (v w : ℕ) → some v ≡ some w → v ≡ w
from_some v w h = cc

available_version-bound :
    (id w : ℕ) (ds : Descriptors)
    → has_key (id, w) ds ≡ true
    → (v : ℕ) × (available_version id ds ≡ some v) × (w ≤ v)
unfolding available_version
available_version-bound id w [] h = cc h
available_version-bound id w (((i, version), d) ∷ ds) h = elim (Bool-cases (i == id)) [
  | inl same ↦ elim (Bool-cases (w == version)) [
    | inl this ↦ (
      larger version (available_version id ds),
      rw same,
      omega (arith, (==_iff w version).0 this, larger_bound version (available_version id ds)),
    )
    | inr other ↦
        let (v, is, le) = available_version-bound id w ds (ground arith) in
        (max version v, rw (same, is), omega arith)
  ]
  | inr apart ↦
      let (v, is, le) = available_version-bound id w ds (ground arith) in (v, rw apart is, le)
]

-- The version that is reported is installed.
available_version-held :
    (id v : ℕ) (ds : Descriptors) → available_version id ds ≡ some v → has_key (id, v) ds ≡ true
unfolding available_version
available_version-held id v [] h = cc h
available_version-held id v (((i, version), d) ∷ ds) h = elim (Bool-cases (i == id)) [
  | inl same ↦
      elim (larger_either version v (available_version id ds)
        (from_some (larger version (available_version id ds)) v (rw same at h))) [
          | inl this ↦ rw (==_self id i (sym ((==_iff i id).0 same)), ==_self v version this)
          | inr below ↦ ground (arith, available_version-held id v ds below)
        ]
  | inr apart ↦ ground (arith, available_version-held id v ds (rw apart at h))
]

mismatch_of-some :
    (id requested profile_id : ℕ) (ds : Descriptors) (found : Option SchemaDescriptorHeader)
    (m : SchemaVersionMismatch)
    → mismatch_of id requested profile_id ds found ≡ some m
    → (found ≡ none) × (m.available_schema_version ≡ available_version id ds)
mismatch_of-some id requested profile_id ds none m h = (refl, cc h)
mismatch_of-some id requested profile_id ds (some d) m h = cc h

-- A reported mismatch: the requested version is not installed; the available version, if there is
-- one, is installed; and no installed version of the schema is larger, or missing where none is.
pub version_mismatch-some :
    (id requested profile_id : ℕ) (ds : Descriptors) (m : SchemaVersionMismatch)
    → version_mismatch id requested profile_id ds ≡ ok (some m)
    → (lookup id requested ds ≡ ok none)
      × ((v : ℕ) → m.available_schema_version ≡ some v → has_key (id, v) ds ≡ true)
      × ((w : ℕ)
          → has_key (id, w) ds ≡ true
          → (v : ℕ) × (m.available_schema_version ≡ some v) × (w ≤ v))
unfolding version_mismatch
version_mismatch-some id requested profile_id ds m h =
    let (_, _, h1) = >>=-eq-ok (require (leb id 0xffffffff)) _ h in
    let (_, _, h2) = >>=-eq-ok (require (leb requested 0xffffffff)) _ h1 in
    let (_, _, h3) = >>=-eq-ok (require (leb profile_id 0xffff)) _ h2 in
    let (found, looked, h4) = >>=-eq-ok (lookup id requested ds) _ h3 in
    let (missing, is) = mismatch_of-some id requested profile_id ds found m (from_ok _ _ h4) in
    (
      rw missing at looked,
      λ v e. available_version-held id v ds (sym is ∙ e),
      λ w there. let (v, at, le) = available_version-bound id w ds there in (v, is ∙ at, le),
    )
