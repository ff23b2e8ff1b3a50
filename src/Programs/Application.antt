-- ===== src/Programs/Application.antt =====
-- example/app/main.go, `main`: what the flags make the application do, once discovery nodes are
-- found. The answers of `findDomainDataNode` to each attempt are an argument.
use libp2p_experiment.Base.{
  ℕ, zero, suc, String, Bool, List, [], ◌∷◌, ◌++◌, if◌then◌else◌, ◌==◌, string_eq, length, not,
  ◌&&◌,
}
use libp2p_experiment.Base.Effects.{Result, ok, err, crash}
use libp2p_experiment.Node.{PeerId}

pub record AppFlags : Type 0 where
  pub domain_id : String
  pub mode : String
  pub create_domain : Bool

-- The goroutines and the handler that are started, with the nodes that they work on.
pub data Action : Type 0 where
  send_to : List PeerId → Action
  download_from : List PeerId → Action
  create_at : List PeerId → Action
  answer_pings : Action

-- The loop over the discovery nodes, which asks the first of them in every round: the answer of
-- round `i` is `ask i`. A failure leaves nothing.
unfoldable pub attempts : ℕ → ℕ → (ℕ → Result (List PeerId)) → List PeerId
attempts zero i ask = []
attempts (suc left) i ask =
    let rest = attempts left (suc i) ask in
    elim (ask i) [ ok nodes ↦ nodes | err _ ↦ rest | crash _ ↦ rest ]

unfoldable pub actions :
    AppFlags → List PeerId → (PeerId → String → ℕ → Result (List PeerId)) → PeerId → List Action
unfolding attempts
actions f rest ask first =
    let rounds = suc (length rest) in
    (if not (f.domain_id == "") && not (f.mode == "receiver")
      then send_to (attempts rounds 0 (ask first "write")) ∷ []
      else [])
    ++ ((if not (f.domain_id == "") && not (f.mode == "sender")
          then download_from (attempts rounds 0 (ask first "read")) ∷ []
          else [])
        ++ ((if f.create_domain then create_at (first ∷ rest) ∷ [] else [])
            ++ (if f.mode == "ping" then answer_pings ∷ [] else [])))
