-- ===== src/Posemesh/Request.antt =====
-- Libposemesh/DownloadDomainDataReq.go: what a subscriber asks for.
use libp2p_experiment.Base.{ℕ, ◌+◌, if◌then◌else◌, ◌==◌, nat_eq}
use libp2p_experiment.Os.{Bytes}
use libp2p_experiment.FlatBuffers.{FlatBuffers, Table, uoffset}
use libp2p_experiment.Posemesh.{bytes_field}

module _ (fb : FlatBuffers) where
  unfoldable pub domain_id : Table → Bytes
  unfolding bytes_field
  domain_id = bytes_field fb 4

  unfoldable pub name : Table → Bytes
  unfolding bytes_field
  name = bytes_field fb 6

  -- `byte(Type())`, the signed byte taken as an `AnyDomainData`
  unfoldable pub request_type : Table → ℕ
  request_type t =
      let o = fb.offset t 8 in if o == 0 then 0 else fb.get_int8_byte t (uoffset (o + t.pos))
