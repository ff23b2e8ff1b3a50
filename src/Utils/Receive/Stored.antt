-- ===== src/Utils/Receive/Stored.antt =====
-- What the loop of `ReceiveDomainData` leaves on the disk, and how it is read again.
use libp2p_experiment.Base.{
  ℕ, ◌+◌, ◌≡◌, refl, ◌∙◌, ap, ◌≢◌, String, some, [], ◌∷◌, ◌++◌, arith, length, length-append,
  drop-append, drop,
}
use libp2p_experiment.Base.Effects.{Result, ok, err, crash, pure, then_ok}
use libp2p_experiment.Os.{
  Bytes, FilePath, Fs, dir, file, stat, put, mkdir_all, create, write, read_file,
}
use libp2p_experiment.Os.Laws.{
  Healthy, NoFileOn, stat-put_self, put-Healthy, write_total, read_file-ok,
}
use libp2p_experiment.Os.Saving.{made, saved, Saves, saves}
use libp2p_experiment.FlatBuffers.{FlatBuffers, Table, SizePrefix, uoffset}
use libp2p_experiment.Posemesh.{get_root_as, get_size_prefixed_root_as}
use libp2p_experiment.Wire.Frames.{sized}
use libp2p_experiment.Utils.Receive.{dir_path, create_temp, store}

root_of :
    (fb : FlatBuffers) (b : Bytes) {dd : Table}
    → get_root_as fb b 0 ≡ ok dd
    → (n : ℕ) × (fb.get_uoffset b ≡ ok n)
unfolding get_root_as
root_of fb b {dd} h = go (fb.get_uoffset b) refl
  where
    go : (r : Result ℕ) → fb.get_uoffset b ≡ r → (n : ℕ) × (fb.get_uoffset b ≡ ok n)
    go (ok n) e = (n, e)
    go (err x) e = ground arith
    go (crash m) e = ground arith

-- A message with its size in front has its root where the message alone has it.
sized_root :
    (fb : FlatBuffers) (P : SizePrefix fb) (b : Bytes) {dd : Table}
    → fb.size_uint32 ≡ fb.size_uoffset
    → get_root_as fb b 0 ≡ ok dd
    → (dd' : Table) × (get_size_prefixed_root_as fb (sized fb P b) 0 ≡ ok dd')
unfolding get_size_prefixed_root_as
sized_root fb P b {dd} same h =
    let (n, e) = root_of fb b h in
    let before = P.prefix (length b) in
    let at : 0 + fb.size_uint32 ≡ length before = omega (arith, same, P.length-prefix (length b)) in
    let rest =
      ap (λ m. fb.get_uoffset (drop m (before ++ b))) at
      ∙ ap fb.get_uoffset (drop-append before b)
      ∙ e in
    (
      record { bytes = sized fb P b; pos = uoffset (n + 0 + fb.size_uint32) },
      ground (arith, rest, at, length-append before b),
    )

module _ (fb : FlatBuffers) (temp_name : FilePath → Fs → String) (base : FilePath)
    (size_buf buf : Bytes) (dd : Table) (fs : Fs) where
  abbrev pub stored_in : FilePath
  stored_in = dir_path fb temp_name base dd

  abbrev pub stored_as : String
  stored_as = temp_name stored_in (made "" stored_in [] fs)

  abbrev pub stored : Fs
  stored =
      put (stored_as ∷ stored_in) (file (size_buf ++ buf)) (saved stored_as stored_in size_buf fs)

  store_total :
      Saves stored_as stored_in size_buf fs
      → store fb temp_name base size_buf buf dd fs ≡ (ok tt, stored)
  unfolding store
  store_total v = then_ok (mkdir_all stored_in) _ fs v.makes (
      then_ok (create_temp temp_name stored_in) _ _
        (then_ok (create stored_as stored_in) (λ _. pure stored_as) _ v.creates refl)
        (then_ok (write (stored_as ∷ stored_in) size_buf) _ _ v.writes
          (write_total (stored_as ∷ stored_in) buf size_buf _ (v.healthy _).1 v.holds)))

-- What is received can be read again: on a disk where nothing is refused or in the way, a message
-- that can be read is stored with its size in front, under the name that was picked in the
-- directory of its domain, name and type; that file holds the message as it came; and the reader of
-- size-prefixed messages finds a message in it. The sizes of a size prefix and of an offset are the
-- same number of bytes.
pub store-readable :
    (fb : FlatBuffers) (P : SizePrefix fb) (temp_name : FilePath → Fs → String) (base : FilePath)
    (b : Bytes) (dd : Table) (fs : Fs)
    → get_root_as fb b 0 ≡ ok dd
    → fb.size_uint32 ≡ fb.size_uoffset
    → Healthy fs
    → NoFileOn (stored_in fb temp_name base (P.prefix (length b)) b dd fs) fs
    → stat
        (stored_as fb temp_name base (P.prefix (length b)) b dd fs
          ∷ stored_in fb temp_name base (P.prefix (length b)) b dd fs)
        fs
      ≢ some dir
    → (store fb temp_name base (P.prefix (length b)) b dd fs
        ≡ (ok tt, stored fb temp_name base (P.prefix (length b)) b dd fs))
      × (read_file
            (stored_as fb temp_name base (P.prefix (length b)) b dd fs
              ∷ stored_in fb temp_name base (P.prefix (length b)) b dd fs)
            (stored fb temp_name base (P.prefix (length b)) b dd fs)
          ≡ (ok (sized fb P b), stored fb temp_name base (P.prefix (length b)) b dd fs))
      × ((dd' : Table) × (get_size_prefixed_root_as fb (sized fb P b) 0 ≡ ok dd'))
store-readable fb P temp_name base b dd fs root same healthy free no_dir =
    let size_buf = P.prefix (length b) in
    let p = stored_in fb temp_name base size_buf b dd fs in
    let n = stored_as fb temp_name base size_buf b dd fs in
    let v = saves n p size_buf fs healthy free no_dir in
    (
      store_total fb temp_name base size_buf b dd fs v,
      read_file-ok (n ∷ p) (sized fb P b) _
          (put-Healthy (n ∷ p) (file (size_buf ++ b)) _ v.healthy (n ∷ p)).0
          (stat-put_self n p (file (size_buf ++ b)) _),
      sized_root fb P b same root,
    )
