-- ===== src/Posemesh/Enums.antt =====
-- Libposemesh/AnyMsg.go and Node.go: the two enumerations that have a map of their names and one of
-- their values, and Libposemesh/AnyDomainData.go, whose values are in `DomainData`.
use libp2p_experiment.Base.{
  ℕ, ◌≡◌, ◌↔◌, refl, String, ◌<>◌, Option, none, some, [], ◌∷◌, arith, nat_eq, string_eq, Eq,
}
use libp2p_experiment.Base.Dict
use libp2p_experiment.Base.Dict.{Dict}
use libp2p_experiment.Posemesh.DomainData.{format_byte}

-- `EnumNamesAnyMsg`
unfoldable pub any_msg_names : Dict ℕ String
any_msg_names =
    (0, "NONE")
    ∷ (1, "AuthDomainReq")
    ∷ (2, "DownloadDomainDataReq")
    ∷ (3, "UploadDomainDataReq")
    ∷ (4, "Error")
    ∷ (5, "DownloadDomainDataResp")
    ∷ (6, "Image")
    ∷ (7, "Job")
    ∷ []

-- `EnumValuesAnyMsg`
unfoldable pub any_msg_values : Dict String ℕ
any_msg_values =
    ("NONE", 0)
    ∷ ("AuthDomainReq", 1)
    ∷ ("DownloadDomainDataReq", 2)
    ∷ ("UploadDomainDataReq", 3)
    ∷ ("Error", 4)
    ∷ ("DownloadDomainDataResp", 5)
    ∷ ("Image", 6)
    ∷ ("Job", 7)
    ∷ []

-- `EnumNamesNode` and `EnumValuesNode`
unfoldable pub node_names : Dict ℕ String
node_names = (0, "NONE") ∷ (1, "DomainServer") ∷ (2, "BasicNode") ∷ []

unfoldable pub node_values : Dict String ℕ
node_values = ("NONE", 0) ∷ ("DomainServer", 1) ∷ ("BasicNode", 2) ∷ []

-- `EnumValuesAnyDomainData`
unfoldable pub any_domain_data_values : Dict String ℕ
any_domain_data_values =
    ("NONE", 0) ∷ ("GenericDomainData", 1) ∷ ("Partition", 2) ∷ ("Pose", 3) ∷ []

abbrev named : String → ℕ → Option String → String
named type v none = type <> "(" <> format_byte v <> ")"
named type v (some s) = s

-- `AnyMsg.String()`
unfoldable pub any_msg_string : ℕ → String
unfolding any_msg_names
any_msg_string v = named "AnyMsg" v (Dict.lookup v any_msg_names)

-- `Node.String()`
unfoldable pub node_string : ℕ → String
unfolding node_names
node_string v = named "Node" v (Dict.lookup v node_names)

-- The entries of a map the other way round.
abbrev swapped {ℓ κ} : {K : Type ℓ} {V : Type κ} → Dict K V → Dict V K
swapped [] = []
swapped ((k, v) ∷ d) = (v, k) ∷ swapped d

module _ {ℓ κ} {K : Type ℓ} {V : Type κ} ⦃e : Eq K⦄ ⦃f : Eq V⦄ where
  lookup-swapped :
      (d : Dict K V) (k : K) (v : V)
      → Dict.NodupKeys (swapped d)
      → Dict.lookup k d ≡ some v
      → Dict.lookup v (swapped d) ≡ some k
  unfolding Dict.lookup
  lookup-swapped [] k v distinct h = cc
  lookup-swapped ((j, w) ∷ d) k v (fresh, distinct) h =
      ground (arith, fresh, h, lookup-swapped d k v distinct)

-- The two maps of an enumeration are the inverses of each other.
abbrev pub Inverse : Dict ℕ String → Dict String ℕ → Type 0
Inverse names values =
    (v : ℕ) (s : String) → (Dict.lookup v names ≡ some s) ↔ (Dict.lookup s values ≡ some v)

pub any_msg-Inverse : Inverse any_msg_names any_msg_values
unfolding any_msg_names any_msg_values Dict.lookup nat_eq string_eq
any_msg-Inverse v s = (
  lookup-swapped any_msg_names v s
      (refl, (refl, (refl, (refl, (refl, (refl, (refl, (refl, tt)))))))),
  lookup-swapped any_msg_values s v
      (refl, (refl, (refl, (refl, (refl, (refl, (refl, (refl, tt)))))))),
)

pub node-Inverse : Inverse node_names node_values
unfolding node_names node_values Dict.lookup nat_eq string_eq
node-Inverse v s = (
  lookup-swapped node_names v s (refl, (refl, (refl, tt))),
  lookup-swapped node_values s v (refl, (refl, (refl, tt))),
)
