-- ===== src/Tests.antt =====
-- Concrete inputs: the theorems applied to them, and what the code computes on them.
mod Peers
mod Storage
mod Streams
mod Merging
mod Directories
mod Clients
mod Invitations
mod Downloads
mod Builder
mod Portals
mod Rereading
mod Settings
mod Uploads
mod Goroutines
use text.Mathlib.Text
use libp2p_experiment.Base.{
  ℕ, zero, suc, ◌+◌, ◌*◌, ◌/◌, ◌%◌, ◌^◌, ◌<◌, ◌≡◌, refl, ◌≢◌, ap, String, Bool, true, false, Option,
  none, some, List, [], ◌∷◌, ◌++◌, arith, if◌then◌else◌, ◌==◌, nat_eq, string_eq, length, get_elem?,
  set, drop, length-set,
}
use libp2p_experiment.Base.Effects.{failed, Result, ok, err}
use libp2p_experiment.Os.{Bytes, FilePath, Fs, Entry, dir, file}
use libp2p_experiment.Os.Laws.{Healthy}
use libp2p_experiment.Crypto.{Crypto, IsLawful}
use libp2p_experiment.FlatBuffers.{Table, uoffset, FlatBuffers, SizePrefix, MutateLaws}

-- A key is a number.
abbrev unmarshal_key : Bytes → Result ℕ
unmarshal_key (k ∷ []) = ok k
unmarshal_key _ = err (failed "key")

abbrev pub keys : Crypto
keys = record {
  Key = ℕ;
  marshal = λ k. ok (k ∷ []);
  unmarshal = unmarshal_key;
  peer_id = λ k. ok "peer";
}

peer_ne : ◌≢◌ {A = String} "peer" "peer.key"
peer_ne e = let f : true ≡ false = ap (Text.◌==◌ "peer") e in cc

pub keys-IsLawful : IsLawful keys
keys-IsLawful = record {
  unmarshal-marshal = λ k b e. ground arith;
  peer_id_name = λ k p e q. let f : "peer" ≡ p = ground arith in ground (arith, peer_ne);
}

-- A disk without faults.
abbrev pub disk : List (FilePath × Entry) → Fs
disk entries = record { entries = entries; broken = λ _. false; full = λ _. false }

pub disk-Healthy : (entries : List (FilePath × Entry)) → Healthy (disk entries)
disk-Healthy entries p = (refl, refl)

-- Four bytes, the low one first.
abbrev pub little_endian : ℕ → Bytes
little_endian n = n % 256 ∷ (n / 256) % 256 ∷ (n / 65536) % 256 ∷ (n / 16777216) % 256 ∷ []

abbrev pub number : Bytes → ℕ
number (a ∷ b ∷ c ∷ d ∷ _) = a + 256 * b + 65536 * c + 16777216 * d
number _ = 0

abbrev is_set : Option ℕ → Bool
is_set none = false
is_set (some b) = not_zero b
  where
    not_zero : ℕ → Bool
    not_zero zero = false
    not_zero (suc _) = true

-- A format in which every table is a vector of Booleans, behind four bytes of size.
abbrev pub vectors : FlatBuffers
vectors = record {
  size_uoffset = 4;
  size_uint32 = 4;
  get_size_prefix = number;
  get_uoffset = λ _. ok 0;
  offset = λ _ slot. slot;
  byte_vector = λ _ _. [];
  vector = λ _ _. 0;
  vector_len = λ t _. uoffset (length t.bytes);
  union = λ t _. record { bytes = drop 4 t.bytes; pos = 0 };
  indirect = λ _ _. 0;
  get_bool = λ t i. is_set (get_elem? t.bytes i);
  mutate_bool = λ t i b. (true, record t { bytes = set t.bytes i (if b then 1 else 0) });
  get_byte = λ _ _. 2;
  get_uint32 = λ _ _. 0;
  get_float32 = λ _ _. 0;
  get_int64_text = λ _ _. "0";
  int64_text = λ _. "0";
  get_int32_text = λ _ _. "0";
  get_int8_byte = λ _ _. 2;
  text = λ _. "name";
}

pub vectors-SizePrefix : SizePrefix vectors
vectors-SizePrefix = record {
  prefix = little_endian;
  nonempty = omega arith;
  length-prefix = λ n. refl;
  get-prefix = λ n h. omega arith;
}

-- What is set is read back, and nothing else changes.
get_elem?-set :
    (xs : Bytes) (i k v : ℕ)
    → i < length xs
    → get_elem? (set xs i v) k ≡ (if k == i then some v else get_elem? xs k)
get_elem?-set [] i k v h = absurd (omega arith)
get_elem?-set (x ∷ xs) zero zero v h = ground arith
get_elem?-set (x ∷ xs) zero (suc k) v h = ground arith
get_elem?-set (x ∷ xs) (suc i) zero v h = ground arith
get_elem?-set (x ∷ xs) (suc i) (suc k) v h = ground (arith, get_elem?-set xs i k v (omega arith))

below : (n j : ℕ) → j < uoffset n → (uoffset (0 + uoffset j) ≡ j) × (j < n)
below n j h = (omega arith, omega arith)

get-mutate_vectors :
    (t : Table) (j k : ℕ) (b : Bool)
    → j < uoffset (length t.bytes)
    → k < uoffset (length t.bytes)
    → is_set (
        get_elem?
          (set t.bytes (uoffset (0 + uoffset j)) (if b then 1 else 0))
          (uoffset (0 + uoffset k)))
      ≡ (if k == j then b else is_set (get_elem? t.bytes (uoffset (0 + uoffset k))))
get-mutate_vectors t j k b h l =
    rw ((below (length t.bytes) j h).0, (below (length t.bytes) k l).0)
      (ground
        (arith, get_elem?-set t.bytes j k (if b then 1 else 0) (below (length t.bytes) j h).1))

pub vectors-MutateLaws : MutateLaws vectors 4
vectors-MutateLaws = record {
  same-offset = λ t j b h. refl;
  same-vector_len = λ t j b h. ap uoffset (length-set t.bytes _ _);
  same-vector = λ t j b h. refl;
  get-mutate = get-mutate_vectors;
}
