-- ===== src/Node/Protocols.antt =====
-- node/ids.go and node/multiaddress.go: the protocols of the streams, and the protocol of addresses.
use libp2p_experiment.Base.{
  ℕ, ◌≡◌, refl, ap, sym, ◌∙◌, String, Option, none, some, List, [], ◌∷◌, if◌then◌else◌, ◌==◌,
  string_eq,
}
use libp2p_experiment.Base.Effects.{Result}
use libp2p_experiment.Os.{Bytes}

pub data Protocol : Type 0 where
  adam upload_domain_data download_domain_data domain_auth : Protocol
  on_task_done_callback fetch_domains create_domain create_portal : Protocol
  find_domain upload_image create_task add_job ping update_domain join_domain_cluster : Protocol

unfoldable pub protocol_id : Protocol → String
protocol_id adam = "/posemesh/adam/1.0.0"
protocol_id upload_domain_data = "/posemesh/upload_domain/1.0.0"
protocol_id download_domain_data = "/posemesh/download_domain/1.0.0"
protocol_id domain_auth = "/posemesh/domain_auth/1.0.0"
protocol_id on_task_done_callback = "/posemesh/callback/task_done/1.0.0"
protocol_id fetch_domains = "/posemesh/fetch_domains/1.0.0"
protocol_id create_domain = "/posemesh/create_domain/1.0.0"
protocol_id create_portal = "/posemesh/create_portal/1.0.0"
protocol_id find_domain = "/posemesh/find_domain/1.0.0"
protocol_id upload_image = "/posemesh/upload_image/1.0.0"
protocol_id create_task = "/cactus/create_task/1.0.0"
protocol_id add_job = "/posemesh/add_job/1.0.0"
protocol_id ping = "/posemesh/ping/1.0.0"
protocol_id update_domain = "/posemesh/update_domain/1.0.0"
protocol_id join_domain_cluster = "/posemesh/join_domain_cluster/1.0.0"

abbrev pub all_protocols : List Protocol
all_protocols =
    adam ∷ upload_domain_data ∷ download_domain_data ∷ domain_auth ∷ on_task_done_callback
    ∷ fetch_domains ∷ create_domain ∷ create_portal ∷ find_domain ∷ upload_image ∷ create_task
    ∷ add_job ∷ ping ∷ update_domain ∷ join_domain_cluster ∷ []

-- The first protocol of a list with this id.
unfoldable pub with_id : String → List Protocol → Option Protocol
with_id s [] = none
with_id s (p ∷ ps) = if protocol_id p == s then some p else with_id s ps

with_id-protocol_id : (p : Protocol) → with_id (protocol_id p) all_protocols ≡ some p
unfolding with_id protocol_id string_eq
with_id-protocol_id adam = refl
with_id-protocol_id upload_domain_data = refl
with_id-protocol_id download_domain_data = refl
with_id-protocol_id domain_auth = refl
with_id-protocol_id on_task_done_callback = refl
with_id-protocol_id fetch_domains = refl
with_id-protocol_id create_domain = refl
with_id-protocol_id create_portal = refl
with_id-protocol_id find_domain = refl
with_id-protocol_id upload_image = refl
with_id-protocol_id create_task = refl
with_id-protocol_id add_job = refl
with_id-protocol_id ping = refl
with_id-protocol_id update_domain = refl
with_id-protocol_id join_domain_cluster = refl

-- No two protocols have the same id, so that a stream comes to the handler that it is meant for.
pub protocol_id-injective : (p q : Protocol) → protocol_id p ≡ protocol_id q → p ≡ q
protocol_id-injective p q same =
    let found : some p ≡ some q =
      sym (with_id-protocol_id p)
      ∙ ap (λ s. with_id s all_protocols) same
      ∙ with_id-protocol_id q in
    cc

-- `multiaddr.Protocol`, and `addDomainProtocol` of node/multiaddress.go.
pub record AddressProtocol : Type 0 where
  pub name : String
  pub code : ℕ
  pub vcode : Bytes
  pub size : ℕ

unfoldable pub add_domain_protocol :
    (ℕ → Bytes) → (AddressProtocol → Result (Unit {0})) → Result (Unit {0})
add_domain_protocol code_to_varint add_protocol =
    add_protocol (record { name = "domain"; code = 999; vcode = code_to_varint 999; size = 42 })
