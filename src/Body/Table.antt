-- ===== src/Body/Table.antt =====
-- core/packet.py: tables of fixed-width records, `pack_…_descriptors`, `unpack_…_descriptors` and
-- the object reference blocks. An instance exists only if its class's `__post_init__` passes, so
-- that check stands before `pack`.
use native.Mathlib.Nat.{mul-mod_left}
use nnrp_py.Common.{
  ℕ, ◌*◌, ◌%◌, ◌<◌, ◌≡◌, refl, sym, ap, ◌∙◌, ◌==◌, ==_self, some, List, [], ◌∷◌, ◌++◌, length, take,
  drop, take-append, drop-append, take-append-drop, length-append, All, All-take, All-drop, Result,
  ok, ◌>>=◌, ◌>>◌, >>=-eq-ok, require, from_ok, arith,
}
use nnrp_py.Struct
use nnrp_py.Struct.{Bytes, IsByte}
use nnrp_py.Stream.{write_all, read_all, keep_all}
use nnrp_py.Stream.RoundTrip.{Inverts, Accepts, read_all-write_all, write_all-read_all}
use nnrp_py.Metadata
use nnrp_py.Metadata.{FixedWidth}

-- A class whose instances pass `check`.
pub record Table (M : Type 0) : Type 0 where
  pub codec : FixedWidth M
  pub check : M → Result (Unit {0})

-- That class's laws.
pub record TableLaws {M : Type 0} (t : Table M) : Type 0 where
  pub from_to : (m : M) → t.check m ≡ ok tt → t.codec.from_tuple (t.codec.to_tuple m) ≡ ok m
  pub to_from :
      (vs : List ℕ) (m : M)
      → t.codec.from_tuple vs ≡ ok m
      → (t.codec.to_tuple m ≡ vs) × (t.check m ≡ ok tt)
  pub no_pack_check : (m : M) → t.codec.check_pack m ≡ ok tt
  pub size_pos : 0 < Struct.size t.codec.struct

module _ {M : Type 0} (t : Table M) where
  abbrev pub row_size : ℕ
  row_size = Struct.size t.codec.struct

  unfoldable pub write_row : M → Result Bytes
  write_row m = do t.check m; Metadata.pack t.codec m

  unfoldable pub read_row : Bytes → Result (M × Bytes)
  read_row bs = do m ← Metadata.unpack t.codec (take row_size bs); ok (m, drop row_size bs)

  unfoldable pub pack_table : List M → Result Bytes
  pack_table = write_all write_row

  unfoldable pub unpack_table : Bytes → Result (List M)
  unpack_table bs = do require (length bs % row_size == 0); read_all read_row (λ m. ok (some m)) bs

module _ {M : Type 0} {t : Table M} (laws : TableLaws t) where
  open laws use {from_to, to_from, no_pack_check, size_pos}

  write_row_inv :
      (m : M) (bs : Bytes)
      → write_row t m ≡ ok bs
      → (t.check m ≡ ok tt) × (Metadata.pack t.codec m ≡ ok bs)
  unfolding write_row
  write_row_inv m bs h = let (_, valid, packed) = >>=-eq-ok (t.check m) _ h in (valid, packed)

  pub length-write_row : (m : M) (bs : Bytes) → write_row t m ≡ ok bs → length bs ≡ row_size t
  length-write_row m bs h = Metadata.length-pack t.codec m bs (write_row_inv m bs h).1

  read_row-write_row :
      (m : M) (bs rest : Bytes) → write_row t m ≡ ok bs → read_row t (bs ++ rest) ≡ ok (m, rest)
  unfolding read_row
  read_row-write_row m bs rest h =
      let (valid, packed) = write_row_inv m bs h in
      let size_is = sym (length-write_row m bs h) in
      rw (
        take-append (row_size t) bs rest size_is,
        drop-append (row_size t) bs rest size_is,
        Metadata.unpack-pack t.codec m bs (from_to m valid) packed,
      )

  row-Inverts : Inverts (read_row t) (write_row t)
  row-Inverts = record {
    read-write = read_row-write_row;
    length-write = λ m bs h. rw (length-write_row m bs h) size_pos;
  }

  write_row-read_row :
      (bs : Bytes) (m : M) (rest : Bytes)
      → All IsByte bs
      → read_row t bs ≡ ok (m, rest)
      → (first : Bytes) × (write_row t m ≡ ok first) × (first ++ rest ≡ bs) × All IsByte rest
  unfolding read_row write_row
  write_row-read_row bs m rest bytes h =
      let (x, read, made) = >>=-eq-ok (Metadata.unpack t.codec (take (row_size t) bs)) _ h in
      let same = from_ok (x, drop (row_size t) bs) (m, rest) made in
      let m_is : x ≡ m = ap (λ (p : M × Bytes). p.0) same in
      let rest_is : drop (row_size t) bs ≡ rest = ap (λ (p : M × Bytes). p.1) same in
      let front = All-take _ (row_size t) bs bytes in
      let packed =
        Metadata.pack-unpack t.codec (take (row_size t) bs) x
          (λ vs e. ((to_from vs x e).0, no_pack_check x)) front read in
      let valid =
        Metadata.unpack-valid t.codec t.check (take (row_size t) bs) x (λ vs e. (to_from vs x e).1)
          read in
      (
        take (row_size t) bs,
        rw (← m_is, valid) packed,
        ap (λ l. take (row_size t) bs ++ l) (sym rest_is) ∙ take-append-drop (row_size t) bs,
        rw (← rest_is) (All-drop _ (row_size t) bs bytes),
      )

  row-Accepts : Accepts (read_row t) (write_row t)
  row-Accepts = record { write-read = write_row-read_row }

  -- A table has a whole number of rows.
  pub length-pack_table :
      (ms : List M) (bs : Bytes) → pack_table t ms ≡ ok bs → length bs ≡ length ms * row_size t
  unfolding pack_table write_all
  length-pack_table [] bs h = omega (arith, ap length (from_ok _ _ h))
  length-pack_table (m ∷ ms) bs h =
      let (first, wrote, h1) = >>=-eq-ok (write_row t m) _ h in
      let (others, wrote_others, h2) = >>=-eq-ok (write_all (write_row t) ms) _ h1 in
      omega (
        arith,
        ap length (from_ok _ _ h2),
        length-append first others,
        length-write_row m first wrote,
        length-pack_table ms others wrote_others,
      )

  whole_rows : (ms : List M) (bs : Bytes) → pack_table t ms ≡ ok bs → length bs % row_size t ≡ 0
  whole_rows ms bs h = rw (length-pack_table ms bs h) (mul-mod_left (length ms) (row_size t))

  keep_everything : (ms : List M) → keep_all (λ m. ok (some m)) ms ≡ ok ms
  unfolding keep_all
  keep_everything [] = refl
  keep_everything (m ∷ ms) = rw (keep_everything ms)

  pub unpack_table-pack_table :
      (ms : List M) (bs : Bytes) → pack_table t ms ≡ ok bs → unpack_table t bs ≡ ok ms
  unfolding pack_table unpack_table
  unpack_table-pack_table ms bs h = rw (
    ==_self _ _ (whole_rows ms bs h),
    read_all-write_all row-Inverts (λ m. ok (some m)) ms bs h,
    keep_everything ms,
  )

  pub pack_table-unpack_table :
      (bs : Bytes) (ms : List M)
      → All IsByte bs
      → unpack_table t bs ≡ ok ms
      → pack_table t ms ≡ ok bs
  unfolding pack_table unpack_table
  pack_table-unpack_table bs ms bytes h =
      let (_, whole, read) = >>=-eq-ok (require (length bs % row_size t == 0)) _ h in
      write_all-read_all row-Accepts bs ms bytes read
