-- ===== src/Catalog/Laws.antt =====
-- schema.py: the catalog after an installation or an invalidation.
use nnrp_py.Common.{
  pair_key, same_pair, same_pair_iff, ℕ, ◌≡◌, ◌≢◌, ◌↔◌, ◌⊎◌, inl, inr, refl, sym, ap, ◌∙◌, Option,
  none, some, true, ◌&&◌, ◌==◌, leb, if◌then◌else◌, Bool-cases, ok, err, value_error, ◌>>=◌,
  >>=-eq-ok, require, get, set, remove, get-set_same, get-set_other, get-remove_same,
  get-remove_other, Unique, set-Unique, remove-Unique, arith,
}
use nnrp_py.Metadata.SchemaDescriptor.{SchemaDescriptorHeader}
use nnrp_py.Catalog.{
  SchemaKey, SchemaRegistryAction, Descriptors, same_descriptor, key_of, store, install_over,
  install, lookup, invalidate,
}

-- Dataclass equality is equality.
same_descriptor-eq : (a b : SchemaDescriptorHeader) → same_descriptor a b ≡ true → a ≡ b
same_descriptor-eq a b h = ground arith

-- A conflict: another descriptor under the same key, with another hash.
abbrev pub Conflict : SchemaDescriptorHeader → Descriptors → Type 0
Conflict d ds =
    (existing : SchemaDescriptorHeader) × (get (key_of d) ds ≡ some existing)
    × (existing.schema_hash ≢ d.schema_hash)

install_over_err :
    (found : Option SchemaDescriptorHeader) (d : SchemaDescriptorHeader) (ds : Descriptors)
    → install_over found d ds ≡ err value_error
    → (existing : SchemaDescriptorHeader) × (found ≡ some existing)
      × (existing.schema_hash ≢ d.schema_hash)
unfolding install_over
install_over_err none d ds h = cc h
install_over_err (some existing) d ds h = (existing, refl, ground arith)

-- What an installation that succeeds does to the dict.
install_over_ok :
    (found : Option SchemaDescriptorHeader) (d : SchemaDescriptorHeader) (ds after : Descriptors)
    (action : SchemaRegistryAction)
    → install_over found d ds ≡ ok (action, after)
    → ((after ≡ ds) × (found ≡ some d)) ⊎ (after ≡ set (key_of d) d ds)
unfolding install_over store
install_over_ok none d ds after action h = inr (cc h)
install_over_ok (some existing) d ds after action h =
    elim (Bool-cases (same_descriptor existing d)) [
      | inl same ↦ inl (cc (rw same at h), ap some (same_descriptor-eq existing d same))
      | inr other ↦ inr (ground arith)
    ]

install_over-conflict :
    (existing d : SchemaDescriptorHeader) (ds : Descriptors)
    → existing.schema_hash ≢ d.schema_hash
    → install_over (some existing) d ds ≡ err value_error
unfolding install_over
install_over-conflict existing d ds differs = elim (Bool-cases (same_descriptor existing d)) [
  | inl same ↦ absurd (differs (ap (λ x. x.schema_hash) (same_descriptor-eq existing d same)))
  | inr other ↦ rw other (ground arith)
]

-- Installing a descriptor raises ValueError exactly when another descriptor with a different hash
-- stands under its schema id and version.
pub install-err_iff :
    (d : SchemaDescriptorHeader) (ds : Descriptors)
    → (install d ds ≡ err value_error) ↔ Conflict d ds
unfolding install
install-err_iff d ds = (
  install_over_err (get (key_of d) ds) d ds,
  λ (existing, found, differs). rw found (install_over-conflict existing d ds differs),
)

get-installed :
    (d : SchemaDescriptorHeader) (ds after : Descriptors) (action : SchemaRegistryAction)
    (k : SchemaKey)
    → install d ds ≡ ok (action, after)
    → get k after ≡ (if same_pair k (key_of d) then some d else get k ds)
unfolding install
get-installed d ds after action k h = elim (Bool-cases (same_pair k (key_of d))) [
  | inl e ↦
      let same : k ≡ key_of d = (same_pair_iff k (key_of d)).0 e in
      elim (install_over_ok (get (key_of d) ds) d ds after action h) [
        | inl kept ↦ rw (e, kept.0, same) kept.1
        | inr stored ↦ rw (e, stored, same) (get-set_same (key_of d) d ds)
      ]
  | inr e ↦ elim (install_over_ok (get (key_of d) ds) d ds after action h) [
    | inl kept ↦ rw (e, kept.0)
    | inr stored ↦ rw (e, stored) (get-set_other (key_of d) k d ds e)
  ]
]

-- After an installation a look-up gives the descriptor under its own id and version, under any other
-- what it gave before, and raises where it raised before.
pub lookup-install :
    (d : SchemaDescriptorHeader) (ds after : Descriptors) (action : SchemaRegistryAction)
    (id version : ℕ)
    → install d ds ≡ ok (action, after)
    → lookup id version after ≡ (
        lookup id version ds >>= λ before.
        ok (if (id == d.schema_id) && (version == d.schema_version) then some d else before))
unfolding lookup
lookup-install d ds after action id version h =
    let found = get-installed d ds after action (id, version) h in
    elim (Bool-cases (leb id 0xffffffff)) [
      | inl a ↦ elim (Bool-cases (leb version 0xffffffff)) [
        | inl b ↦ rw (a, b, found)
        | inr b ↦ rw (a, b)
      ]
      | inr a ↦ rw a
    ]

get-removed :
    (k gone : SchemaKey) (ds : Descriptors)
    → get k (remove gone ds) ≡ (if same_pair k gone then none else get k ds)
get-removed k gone ds = elim (Bool-cases (same_pair k gone)) [
  | inl e ↦ rw (e, (same_pair_iff k gone).0 e) (get-remove_same gone ds)
  | inr e ↦ rw e (get-remove_other gone k ds e)
]

-- After an invalidation a look-up gives none under that id and version, under any other what it gave
-- before, and raises where it raised before.
pub lookup-invalidate :
    (ds after : Descriptors) (action : SchemaRegistryAction) (gone_id gone_version id version : ℕ)
    → invalidate gone_id gone_version ds ≡ ok (action, after)
    → lookup id version after ≡ (
        lookup id version ds >>= λ before.
        ok (if (id == gone_id) && (version == gone_version) then none else before))
unfolding lookup invalidate
lookup-invalidate ds after action gone_id gone_version id version h =
    let (_, _, h1) = >>=-eq-ok (require (leb gone_id 0xffffffff)) _ h in
    let (_, _, h2) = >>=-eq-ok (require (leb gone_version 0xffffffff)) _ h1 in
    let left : remove (gone_id, gone_version) ds ≡ after = cc h2 in
    let found = get-removed (id, version) (gone_id, gone_version) ds in
    elim (Bool-cases (leb id 0xffffffff)) [
      | inl a ↦ elim (Bool-cases (leb version 0xffffffff)) [
        | inl b ↦ rw (a, b, ← left, found)
        | inr b ↦ rw (a, b)
      ]
      | inr a ↦ rw a
    ]

-- Every descriptor stands under its own key, and each key once.
pub record IsCatalog (ds : Descriptors) : Type 0 where
  pub keyed : (k : SchemaKey) (d : SchemaDescriptorHeader) → get k ds ≡ some d → key_of d ≡ k
  pub unique : Unique ds

-- Installing a descriptor into a catalog, where that succeeds, gives a catalog.
pub install-IsCatalog :
    (d : SchemaDescriptorHeader) (ds after : Descriptors) (action : SchemaRegistryAction)
    → IsCatalog ds
    → install d ds ≡ ok (action, after)
    → IsCatalog after
unfolding install
install-IsCatalog d ds after action was h = record {
  keyed = λ k found e.
      let at = get-installed d ds after action k h in
      elim (Bool-cases (same_pair k (key_of d))) [
        | inl same ↦
            let is : d ≡ found = cc (rw same at at, e) in
            rw (← is) (sym ((same_pair_iff k (key_of d)).0 same))
        | inr other ↦ was.keyed k found (sym (rw other at at) ∙ e)
      ];
  unique = elim (install_over_ok (get (key_of d) ds) d ds after action h) [
    | inl kept ↦ rw kept.0 was.unique
    | inr stored ↦ rw stored (set-Unique (key_of d) d ds was.unique)
  ];
}

-- Invalidating a schema id and version of a catalog, where that succeeds, gives a catalog.
pub invalidate-IsCatalog :
    (id version : ℕ) (ds after : Descriptors) (action : SchemaRegistryAction)
    → IsCatalog ds
    → invalidate id version ds ≡ ok (action, after)
    → IsCatalog after
unfolding invalidate
invalidate-IsCatalog id version ds after action was h =
    let (_, _, h1) = >>=-eq-ok (require (leb id 0xffffffff)) _ h in
    let (_, _, h2) = >>=-eq-ok (require (leb version 0xffffffff)) _ h1 in
    let left : remove (id, version) ds ≡ after = cc h2 in
    rw (← left) (record {
      keyed = λ k found e.
          let at = get-removed k (id, version) ds in
          elim (Bool-cases (same_pair k (id, version))) [
            | inl gone ↦ cc (rw gone at at, e)
            | inr other ↦ was.keyed k found (sym (rw other at at) ∙ e)
          ];
      unique = remove-Unique (id, version) ds was.unique;
    })
