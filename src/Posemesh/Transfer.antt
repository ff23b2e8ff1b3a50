-- ===== src/Posemesh/Transfer.antt =====
-- Libposemesh/DownloadDomainDataResp.go, UploadDomainDataReq.go, AuthDomainReq.go and Error.go.
use libp2p_experiment.Base.{ℕ, Option, nat_eq}
use libp2p_experiment.Os.{Bytes}
use libp2p_experiment.FlatBuffers.{FlatBuffers, Table}
use libp2p_experiment.Posemesh.{bytes_field}
use libp2p_experiment.Posemesh.Domain.{elements}
use libp2p_experiment.Posemesh.Job.{table_element}

module _ (fb : FlatBuffers) where
  unfoldable pub response_data : Table → ℕ → Option Table
  unfolding table_element
  response_data = table_element fb 4

  unfoldable pub response_data_length : Table → ℕ
  unfolding elements
  response_data_length = elements fb 4

  unfoldable pub upload_data : Table → ℕ → Option Table
  unfolding table_element
  upload_data = table_element fb 4

  unfoldable pub upload_data_length : Table → ℕ
  unfolding elements
  upload_data_length = elements fb 4

  unfoldable pub auth_domain_id : Table → Bytes
  unfolding bytes_field
  auth_domain_id = bytes_field fb 4

  unfoldable pub error_text : Table → Bytes
  unfolding bytes_field
  error_text = bytes_field fb 4
