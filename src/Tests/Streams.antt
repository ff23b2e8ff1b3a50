-- ===== src/Tests/Streams.antt =====
-- Streams with two messages, whole and cut off, for a callback that counts.
use libp2p_experiment.Base.{ℕ, suc, ◌≡◌, String, List, [], ◌∷◌, ◌++◌, arith}
use libp2p_experiment.Base.Effects.{unexpected_eof, wrapped, ok, Exec, pure, raise}
use libp2p_experiment.Os.{Bytes, FilePath, Fs}
use libp2p_experiment.FlatBuffers.{Table}
use libp2p_experiment.Wire.{closed}
use libp2p_experiment.Wire.Frames.{stream, encode}
use libp2p_experiment.Utils.Receive.{receive_domain_data}
use libp2p_experiment.Utils.Receive.Delivery.{
  AllFit, deliver, receive_all, receive_cut_content, receive_cut_between,
}
use libp2p_experiment.Tests.{vectors, vectors-SizePrefix}

abbrev count_message : Table → Exec (Fs × ℕ) (Unit {0})
count_message t (fs, n) = (ok tt, (fs, suc n))

abbrev temp : FilePath → Fs → String
temp p fs = "1.bin"

abbrev messages : List Bytes
messages = (1 ∷ 0 ∷ []) ∷ (0 ∷ 1 ∷ 1 ∷ []) ∷ []

messages-AllFit : AllFit messages
messages-AllFit = (omega arith, (omega arith, tt))

receive_all_example :
    receive_domain_data vectors temp [] count_message
      (stream (encode vectors vectors-SizePrefix messages ++ []) closed)
    ≡ deliver vectors vectors-SizePrefix temp [] count_message messages (pure tt)
receive_all_example =
    receive_all vectors vectors-SizePrefix temp [] count_message messages messages-AllFit

receive_cut_content_example :
    receive_domain_data vectors temp [] count_message (
      stream
        (encode vectors vectors-SizePrefix messages ++ (vectors-SizePrefix.prefix 5 ++ 1 ∷ 1 ∷ []))
        closed)
    ≡ deliver vectors vectors-SizePrefix temp [] count_message messages
        (raise (wrapped "failed to read message content" unexpected_eof))
receive_cut_content_example =
    receive_cut_content vectors vectors-SizePrefix temp [] count_message messages 5 1 (1 ∷ [])
      messages-AllFit (omega arith) (omega arith)

receive_cut_between_example :
    receive_domain_data vectors temp [] count_message (
      stream
        (encode vectors vectors-SizePrefix messages ++ (vectors-SizePrefix.prefix 5 ++ []))
        closed)
    ≡ receive_domain_data vectors temp [] count_message
        (stream (encode vectors vectors-SizePrefix messages ++ []) closed)
receive_cut_between_example =
    receive_cut_between vectors vectors-SizePrefix temp [] count_message messages 5 messages-AllFit
      (omega arith) (omega arith)
