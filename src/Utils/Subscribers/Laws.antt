-- ===== src/Utils/Subscribers/Laws.antt =====
-- How often a stream is told of a key, before and after the other methods.
use libp2p_experiment.Base.{
  count, count-append, ℕ, ◌+◌, ◌≡◌, refl, String, Bool, true, Option, none, List, [], ◌∷◌, ◌++◌,
  arith, if◌then◌else◌, ◌==◌, Eq, contains, string_eq, ◌&&◌,
}
use libp2p_experiment.Base.Dict
use libp2p_experiment.Base.Dict.{Dict}
use libp2p_experiment.Utils.Subscribers.{
  match_domain_data, subscribed, add_subscriber, find_subscribers, remove_first, remove_subscriber,
}

module _ {S : Type 0} ⦃e : Eq S⦄ where
  pub count-remove_first :
      (x s : S) (ys : List S)
      → contains ys s ≡ true
      → count x (remove_first s ys) + (if x == s then 1 else 0) ≡ count x ys
  unfolding remove_first
  count-remove_first x s [] h = cc
  count-remove_first x s (y ∷ ys) h = ground (arith, count-remove_first x s ys)

  module _ (compiled : String → String → Option Bool) (key : String) (x : S) where
    -- How often one entry tells the stream.
    abbrev told : String → List S → ℕ
    told reg_exp v = if match_domain_data compiled reg_exp key then count x v else 0

    -- Writing one entry changes what that entry tells.
    count-find_insert :
        (r : String) (v : List S) (d : Dict String (List S))
        → count x (find_subscribers compiled key (Dict.insert r v d)) + told r (subscribed r d)
          ≡ count x (find_subscribers compiled key d) + told r v
    unfolding find_subscribers Dict.insert subscribed Dict.lookup
    count-find_insert r v [] = ground (arith, count-append x v [])
    count-find_insert r v ((k, w) ∷ d) =
        let found = find_subscribers compiled key d in
        let found' = find_subscribers compiled key (Dict.insert r v d) in
        ground (
          arith,
          count-find_insert r v d,
          count-append x v found,
          count-append x w found,
          count-append x w found',
        )

    -- A stream that is subscribed under an expression is told of a key once more exactly when the
    -- expression matches the key, and no other stream is told more or less.
    pub count-add_subscriber :
        (r : String) (s : S) (d : Dict String (List S))
        → count x (find_subscribers compiled key (add_subscriber r s d))
          ≡ count x (find_subscribers compiled key d)
            + (if match_domain_data compiled r key && x == s then 1 else 0)
    unfolding add_subscriber
    count-add_subscriber r s d = ground (
      arith,
      count-find_insert r (subscribed r d ++ s ∷ []) d,
      count-append x (subscribed r d) (s ∷ []),
    )

    -- Removing a stream under an expression takes back one subscription of it under that very
    -- expression, if there is one, and nothing else: the stream is told of a key once less if the
    -- expression matches the key, and every other stream as often as before.
    pub count-remove_subscriber :
        (r : String) (s : S) (d : Dict String (List S))
        → count x (find_subscribers compiled key (remove_subscriber r s d))
            + (if match_domain_data compiled r key && (x == s && contains (subscribed r d) s)
                then 1
                else 0)
          ≡ count x (find_subscribers compiled key d)
    unfolding remove_subscriber
    count-remove_subscriber r s d = ground (
      arith,
      count-find_insert r (remove_first s (subscribed r d)) d,
      count-remove_first x s (subscribed r d),
    )

-- A removal under an expression that nobody subscribed does nothing.
pub remove_subscriber_unknown :
    {S : Type 0} ⦃e : Eq S⦄ (r : String) (s : S) (d : Dict String (List S))
    → Dict.lookup r d ≡ none
    → remove_subscriber r s d ≡ d
unfolding remove_subscriber subscribed
remove_subscriber_unknown r s d h = rw (h, contains) refl
