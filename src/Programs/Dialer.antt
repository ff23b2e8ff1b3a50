-- ===== src/Programs/Dialer.antt =====
-- example/holepunching/dialer/main.go: how the dialer gets a direct connection. What libp2p answers,
-- one call after the other, are arguments; the state is what the dialer did.
use libp2p_experiment.Base.{ℕ, suc, Bool, Option, none, some, List, [], ◌∷◌, ◌++◌, if◌then◌else◌}
use libp2p_experiment.Base.Effects.{Result, ok, err, crash, Exec, pure, ◌>>◌}

-- The first answer that is not empty, of `FindNodes` asked again and again.
unfoldable pub first_found : {A : Type 0} → List (List A) → Option A
first_found [] = none
first_found ([] ∷ answers) = first_found answers
first_found ((a ∷ _) ∷ _) = some a

-- The first answer of `FindPeerAddresses` that is no error.
unfoldable pub first_address : {A : Type 0} → List (Result A) → Option A
first_address [] = none
first_address (ok a ∷ _) = some a
first_address (err _ ∷ answers) = first_address answers
first_address (crash _ ∷ answers) = first_address answers

pub data Done (A : Type 0) : Type 0 where
  connected : A → Done A
  pinged : A → Done A
  closed : ℕ → Done A

module _ {A : Type 0} where
  unfoldable pub connect : Result (Unit {0}) → A → Exec (List (Done A)) (Unit {0})
  connect (ok _) a log = (ok tt, log ++ connected a ∷ [])
  connect (err _) a log = (crash "Failed to connect to peer", log)
  connect (crash m) a log = (crash m, log)

  -- The results of the pings: failures are only logged.
  unfoldable pub ping_all : List (Result (Unit {0})) → A → Exec (List (Done A)) (Unit {0})
  ping_all [] a = pure tt
  ping_all (ok _ ∷ results) a = (λ log. (ok tt, log ++ pinged a ∷ [])) >> ping_all results a
  ping_all (err _ ∷ results) a = ping_all results a
  ping_all (crash _ ∷ results) a = ping_all results a

  -- The connections to the peer: which of them go over a relay.
  unfoldable pub close_relayed : ℕ → List Bool → Exec (List (Done A)) (Unit {0})
  close_relayed i [] = pure tt
  close_relayed i (relayed ∷ conns) =
      (if relayed then (λ log. (ok tt, log ++ closed i ∷ [])) else pure tt)
      >> close_relayed (suc i) conns

  -- From the address on.
  unfoldable pub punch :
      Result (Unit {0})
      → List (Result (Unit {0}))
      → List Bool
      → Result (Unit {0})
      → List (Result (Unit {0}))
      → A
      → Exec (List (Done A)) (Unit {0})
  unfolding connect ping_all close_relayed
  punch first_connect first_pings conns second_connect second_pings a = do
    connect first_connect a
    ping_all first_pings a
    close_relayed 0 conns
    connect second_connect a
    ping_all second_pings a
