-- ===== src/Metadata/TransportProbe.antt =====
-- core/messages/control.py: TRANSPORT_PROBE.
use nnrp_py.Common.{ℕ, ◌≡◌, List, [], ◌∷◌, Result, ok, err, struct_error, arith, refl}
use nnrp_py.Struct.{Struct}
use nnrp_py.Metadata.{FixedWidth}

pub record TransportProbeMetadata : Type 0 where
  pub probe_id : ℕ
  pub probe_payload_bytes : ℕ
  pub client_send_ts_us : ℕ

abbrev pub struct : Struct
struct = 4 ∷ 4 ∷ 8 ∷ []

abbrev pub to_tuple : TransportProbeMetadata → List ℕ
to_tuple m = m.probe_id ∷ m.probe_payload_bytes ∷ m.client_send_ts_us ∷ []

unfoldable pub from_tuple : List ℕ → Result TransportProbeMetadata
from_tuple (probe_id ∷ probe_payload_bytes ∷ client_send_ts_us ∷ []) = ok (record {
  probe_id = probe_id;
  probe_payload_bytes = probe_payload_bytes;
  client_send_ts_us = client_send_ts_us;
})
from_tuple _ = err struct_error

abbrev pub codec : FixedWidth TransportProbeMetadata
codec = record {
  struct = struct;
  check_pack = λ _. ok tt;
  to_tuple = to_tuple;
  from_tuple = from_tuple;
}

pub from_tuple-to_tuple : (m : TransportProbeMetadata) → from_tuple (to_tuple m) ≡ ok m
unfolding from_tuple
from_tuple-to_tuple m = refl

pub to_tuple-from_tuple :
    (vs : List ℕ) (m : TransportProbeMetadata) → from_tuple vs ≡ ok m → (to_tuple m ≡ vs)
unfolding from_tuple
to_tuple-from_tuple (probe_id ∷ probe_payload_bytes ∷ client_send_ts_us ∷ []) m h0 = ground arith
to_tuple-from_tuple _ m h = cc
