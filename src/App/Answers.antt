-- ===== src/App/Answers.antt =====
-- Which nodes the application turns to.
use libp2p_experiment.Base.{
  ℕ, zero, suc, ◌≡◌, refl, false, String, List, arith, contains, string_eq, length, Option,
  length-set, nat_eq, nat_eq,
}
use libp2p_experiment.Base.Effects.{Result, ok}
use libp2p_experiment.Os.{Bytes, Fs}
use libp2p_experiment.FlatBuffers.{FlatBuffers, Table}
use libp2p_experiment.Node.{PeerId}
use libp2p_experiment.Posemesh.Domain
use libp2p_experiment.App.{Visual, add_row, on_row, collect_readers, data_nodes}

module _ (fb : FlatBuffers) (decode : Bytes → Result PeerId) (self : PeerId) where
  collect_readers-not_self :
      (left i : ℕ) (domain : Table)
      → contains (collect_readers fb decode self left i domain) self ≡ false
  unfolding collect_readers
  collect_readers-not_self zero i domain = refl
  collect_readers-not_self (suc left) i domain =
      ground (arith, collect_readers-not_self left (suc i) domain)

  -- Whatever domain the discovery node describes, and whether the application wants to read or to
  -- write: where nodes are found, the application itself is none of them.
  pub data_nodes-not_self :
      (permission : String) (domain : Table) (found : List PeerId)
      → data_nodes fb decode self permission domain ≡ ok found
      → contains found self ≡ false
  unfolding data_nodes
  data_nodes-not_self permission domain found h =
      ground (arith, collect_readers-not_self (Domain.readers_length fb domain) 0 domain)

add_row-length :
    (i : ℕ) (row : List ℕ) (v w : Visual) → add_row i row v ≡ ok w → length w ≡ length v
unfolding add_row
add_row-length i row v w h = ground (arith, length-set v i row)

-- Whatever domain data comes, also such that cannot be read or whose name is no row: the display
-- keeps the number of its rows.
pub length-on_row :
    (fb : FlatBuffers) (parse_index : Bytes → Option ℕ) (dd : Table) (fs : Fs) (v : Visual)
    → length (on_row fb parse_index dd (fs, v)).1.1 ≡ length v
unfolding on_row
length-on_row fb parse_index dd fs v = grind (arith, add_row-length)
