-- ===== src/Utils/Subscribers.antt =====
-- utils/domain_data.go: who is told of new domain data. A stream is known by its identity. `compiled`
-- is `regexp.MatchString`, which gives nothing for an expression that does not compile.
pub mod Laws
pub mod Subscriptions
use libp2p_experiment.Base.{
  String, Bool, true, false, Option, none, some, List, [], ◌∷◌, ◌++◌, if◌then◌else◌, ◌==◌, Eq,
  contains, string_eq,
}
use libp2p_experiment.Base.Dict
use libp2p_experiment.Base.Dict.{Dict}

-- `MatchDomainData`: the error is dropped, and `matched` is false then.
unfoldable pub match_domain_data : (String → String → Option Bool) → String → String → Bool
match_domain_data compiled reg_exp path = elim (compiled reg_exp path) [
  | some matched ↦ matched
  | none ↦ false
]

module _ {S : Type 0} where
  -- `DomainDataSubscribers` is a map from expressions to streams; its mutex makes a method one step.
  abbrev streams_of : Option (List S) → List S
  streams_of none = []
  streams_of (some v) = v

  -- `d.subscribers[regExp]`, which is nil where the key is missing.
  unfoldable pub subscribed : String → Dict String (List S) → List S
  subscribed reg_exp d = streams_of (Dict.lookup reg_exp d)

  -- `NewDomainDataSubscribers`
  abbrev pub new_subscribers : Dict String (List S)
  new_subscribers = []

  unfoldable pub add_subscriber : String → S → Dict String (List S) → Dict String (List S)
  unfolding subscribed
  add_subscriber reg_exp s d = Dict.insert reg_exp (subscribed reg_exp d ++ s ∷ []) d

  unfoldable pub find_subscribers :
      (String → String → Option Bool) → String → Dict String (List S) → List S
  unfolding match_domain_data
  find_subscribers compiled key [] = []
  find_subscribers compiled key ((reg_exp, v) ∷ d) =
      let rest = find_subscribers compiled key d in
      if match_domain_data compiled reg_exp key then v ++ rest else rest

module _ {S : Type 0} ⦃e : Eq S⦄ where
  -- The loop up to its `break`: the first equal stream goes.
  unfoldable pub remove_first : S → List S → List S
  remove_first s [] = []
  remove_first s (x ∷ xs) = if x == s then xs else x ∷ remove_first s xs

  -- The entry is written only if the stream is found.
  unfoldable pub remove_subscriber : String → S → Dict String (List S) → Dict String (List S)
  unfolding subscribed remove_first
  remove_subscriber reg_exp s d =
      if contains (subscribed reg_exp d) s
      then Dict.insert reg_exp (remove_first s (subscribed reg_exp d)) d
      else d
