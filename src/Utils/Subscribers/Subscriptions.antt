-- ===== src/Utils/Subscribers/Subscriptions.antt =====
-- The abstract view of the table: a bag of subscriptions, each an expression and a stream.
use mathlib.Core.Quot
use mathlib.Core.Quot.{Quot, Quot-set}
use libp2p_experiment.Base.{
  ◌+◌, ◌≡◌, refl, String, Bool, true, false, Option, List, [], ◌∷◌, ◌++◌, arith, if◌then◌else◌,
  ◌==◌, Eq, contains, string_eq, pair_eq, count, count-append, put_in, SameItems, Bag,
}
use libp2p_experiment.Base.Dict
use libp2p_experiment.Base.Dict.{Dict}
use libp2p_experiment.Utils.Subscribers.{
  match_domain_data, subscribed, add_subscriber, find_subscribers, remove_first, remove_subscriber,
}
use libp2p_experiment.Utils.Subscribers.Laws.{count-remove_first}

module _ {S : Type 0} where
  abbrev under : String → List S → List (String × S)
  under r [] = []
  under r (s ∷ ss) = (r, s) ∷ under r ss

  -- The subscriptions of a table, one by one.
  abbrev pub subscriptions : Dict String (List S) → List (String × S)
  subscriptions [] = []
  subscriptions ((r, v) ∷ d) = under r v ++ subscriptions d

module _ {S : Type 0} ⦃e : Eq S⦄ where
  count-under :
      (q r : String) (x : S) (v : List S)
      → count (q, x) (under r v) ≡ (if q == r then count x v else 0)
  count-under q r x [] = ground arith
  count-under q r x (s ∷ ss) = ground (arith, count-under q r x ss)

  count-subscriptions-insert :
      (y : String × S) (r : String) (v : List S) (d : Dict String (List S))
      → count y (subscriptions (Dict.insert r v d)) + count y (under r (subscribed r d))
        ≡ count y (subscriptions d) + count y (under r v)
  unfolding Dict.insert Dict.lookup subscribed
  count-subscriptions-insert y r v [] = ground (arith, count-append y (under r v) [])
  count-subscriptions-insert y r v ((k, w) ∷ d) = ground (
    arith,
    count-subscriptions-insert y r v d,
    count-append y (under r v) (subscriptions d),
    count-append y (under k w) (subscriptions d),
    count-append y (under k w) (subscriptions (Dict.insert r v d)),
  )

  SameItems-add :
      (r : String) (s : S) (d : Dict String (List S))
      → SameItems (subscriptions (add_subscriber r s d)) ((r, s) ∷ subscriptions d)
  unfolding add_subscriber
  SameItems-add r s d (q, x) =
      let v = subscribed r d in
      ground (
        arith,
        count-subscriptions-insert (q, x) r (v ++ s ∷ []) d,
        count-under q r x v,
        count-under q r x (v ++ s ∷ []),
        count-append x v (s ∷ []),
      )

  SameItems-remove :
      (r : String) (s : S) (d : Dict String (List S))
      → contains (subscribed r d) s ≡ true
      → SameItems ((r, s) ∷ subscriptions (remove_subscriber r s d)) (subscriptions d)
  unfolding remove_subscriber
  SameItems-remove r s d h (q, x) =
      let v = subscribed r d in
      ground (
        arith,
        count-subscriptions-insert (q, x) r (remove_first s v) d,
        count-under q r x v,
        count-under q r x (remove_first s v),
        count-remove_first x s v,
      )

  -- The streams of the subscriptions whose expression passes a test.
  abbrev pub told : (String → Bool) → List (String × S) → List S
  told test [] = []
  told test ((r, s) ∷ l) = if test r then s ∷ told test l else told test l

  told-append :
      (test : String → Bool) (r : String) (v : List S) (l : List (String × S))
      → told test (under r v ++ l) ≡ (if test r then v ++ told test l else told test l)
  told-append test r [] l = ground arith
  told-append test r (s ∷ v) l = ground (arith, told-append test r v l)

  -- The table as a bag of subscriptions.
  abbrev pub view : Dict String (List S) → Bag (String × S)
  view d = Quot.mk (subscriptions d)

  module _ (compiled : String → String → Option Bool) (key : String) where
    find_subscribers-told :
        (d : Dict String (List S))
        → find_subscribers compiled key d
          ≡ told (λ r. match_domain_data compiled r key) (subscriptions d)
    unfolding find_subscribers
    find_subscribers-told [] = refl
    find_subscribers-told ((r, v) ∷ d) = ground (
      arith,
      told-append (λ (q : String). match_domain_data compiled q key) r v (subscriptions d),
      find_subscribers-told d,
    )

    -- The table of lists implements a bag of subscriptions, each an expression with a stream: adding
    -- puts one subscription into the bag; removing takes one out where it is in, and otherwise
    -- leaves the bag; and a key finds the streams of just those subscriptions whose expression
    -- matches it.
    pub subscribers-refine :
        (r : String) (s : S) (d : Dict String (List S))
        → (view (add_subscriber r s d) ≡ put_in (r, s) (view d))
          × ((if contains (subscribed r d) s
                then put_in (r, s) (view (remove_subscriber r s d))
                else view (remove_subscriber r s d))
              ≡ view d)
          × (find_subscribers compiled key d
              ≡ told (λ q. match_domain_data compiled q key) (subscriptions d))
    unfolding put_in
    subscribers-refine r s d = (
      Quot.sound (SameItems-add r s d),
      removed (contains (subscribed r d) s) refl,
      find_subscribers-told d,
    )
      where
        removed :
            (b : Bool)
            → contains (subscribed r d) s ≡ b
            → (if b
                then put_in (r, s) (view (remove_subscriber r s d))
                else view (remove_subscriber r s d))
              ≡ view d
        removed true h = Quot.sound (SameItems-remove r s d h)
        removed false h = unfold remove_subscriber in rw h refl
