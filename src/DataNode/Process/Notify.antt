-- ===== src/DataNode/Process/Notify.antt =====
-- What becomes of subscribers whose connection is closed.
use libp2p_experiment.Base.{
  ◌≡◌, refl, String, Bool, Option, none, List, [], ◌∷◌, ◌++◌, arith, Eq, string_eq,
}
use libp2p_experiment.Base.Dict
use libp2p_experiment.Base.Dict.{Dict}
use libp2p_experiment.Os.{Bytes, Fs}
use libp2p_experiment.Utils.Subscribers.{remove_subscriber}
use libp2p_experiment.Utils.Subscribers.Laws.{remove_subscriber_unknown}
use libp2p_experiment.DataNode.Process.{Network, Streams, notify_each, notify}

module _ {S : Type 0} ⦃e : Eq S⦄ (streams : Streams S) where
  open streams use {is_closed, write_fails}

  -- No subscriber is ever dropped where no expression is spelled like the directory.
  pub notify_each-subscribers :
      (key : String) (message : Bytes) (found : List S) (fs : Fs) (n : Network S)
      → Dict.lookup key n.subscribers ≡ none
      → (notify_each streams key message found (fs, n)).1.1.subscribers ≡ n.subscribers
  unfolding notify_each
  notify_each-subscribers key message [] fs n h = refl
  notify_each-subscribers key message (s ∷ rest) fs n h =
      let same = remove_subscriber_unknown key s n.subscribers h in
      let dropped = record n { subscribers = remove_subscriber key s n.subscribers } in
      ground (
        arith,
        same,
        notify_each-subscribers key message rest fs dropped (rw same h),
        notify_each-subscribers key message rest fs
            (record n { sent = n.sent ++ (s, message) ∷ [] }) h,
      )

module _ {S : Type 0} ⦃e : Eq S⦄ (streams : Streams S) (compiled : String → String → Option Bool)
    (key : String) (message : Bytes) (fs : Fs) (n : Network S) where
  -- A subscriber whose connection is closed is kept for ever: the removal is asked for under the
  -- path of the directory, and where no stream was subscribed under an expression that is spelled
  -- like that path, the table of subscribers stays as it was, whatever connections are closed.
  pub notify-subscribers :
      Dict.lookup key n.subscribers ≡ none
      → (notify streams compiled key message (fs, n)).1.1.subscribers ≡ n.subscribers
  unfolding notify
  notify-subscribers h = notify_each-subscribers streams key message _ fs n h
