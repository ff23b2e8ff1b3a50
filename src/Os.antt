-- ===== src/Os.antt =====
-- The calls of Go's `os` package that the program makes, over an explicit file system. A path is
-- the list of its names, the last one first, so `basePath + "/peer.key"` is `"peer.key" ∷ base`.
-- `broken` and `full` say where the operating system refuses an operation or a write.
pub mod Laws
pub mod Saving
use Prim.Native.Nat.{Ordering}
use Prim.Native.String
use libp2p_experiment.Base.{
  ℕ, String, Bool, true, false, Option, none, some, List, [], ◌∷◌, ◌++◌, if◌then◌else◌, ◌==◌,
  string_eq, list_eq,
}
use libp2p_experiment.Base.Dict
use libp2p_experiment.Base.Dict.{Dict}
use libp2p_experiment.Base.Effects.{Exec, pure, raise, ◌>>◌, not_exist, not_dir, is_dir, io_error}

abbrev pub Bytes : Type 0
Bytes = List ℕ

abbrev pub FilePath : Type 0
FilePath = List String

pub data Entry : Type 0 where
  dir : Entry
  file : Bytes → Entry

pub record Fs : Type 0 where
  pub entries : Dict FilePath Entry
  pub broken : FilePath → Bool
  pub full : FilePath → Bool

-- The root of the tree is always there.
unfoldable pub stat : FilePath → Fs → Option Entry
stat [] s = some dir
stat (n ∷ p) s = Dict.lookup (n ∷ p) s.entries

unfoldable pub put : FilePath → Entry → Fs → Fs
put p e s = record s { entries = Dict.insert p e s.entries }

abbrev pub refuse_broken : {A : Type 0} → FilePath → Exec Fs A → Exec Fs A
refuse_broken p m s = if s.broken p then raise io_error s else m s

-- One directory, when its parent is there.
unfoldable pub mkdir : FilePath → Exec Fs (Unit {0})
mkdir p = refuse_broken p λ s. elim (stat p s) [
  | some dir ↦ pure tt s
  | some (file _) ↦ raise not_dir s
  | none ↦ (pure tt) (put p dir s)
]

-- `os.MkdirAll`
unfoldable pub mkdir_all : FilePath → Exec Fs (Unit {0})
unfolding mkdir
mkdir_all [] = pure tt
mkdir_all (n ∷ p) =
    let above = mkdir_all p in
    λ s. elim (stat (n ∷ p) s) [ some dir ↦ pure tt s | other ↦ (above >> mkdir (n ∷ p)) s ]

-- `os.Create`: the file is empty afterwards, also where it was there before.
unfoldable pub create : String → FilePath → Exec Fs (Unit {0})
create n p = refuse_broken (n ∷ p) λ s. elim (stat p s) [
  | none ↦ raise not_exist s
  | some (file _) ↦ raise not_dir s
  | some dir ↦ elim (stat (n ∷ p) s) [
    | some dir ↦ raise is_dir s
    | other ↦ (pure tt) (put (n ∷ p) (file []) s)
  ]
]

-- `f.Write` on a file that this process has created and only appends to.
unfoldable pub write : FilePath → Bytes → Exec Fs (Unit {0})
write p bs s = if s.full p then raise io_error s else elim (stat p s) [
  | some (file old) ↦ (pure tt) (put p (file (old ++ bs)) s)
  | other ↦ raise not_exist s
]

-- `os.ReadFile`, and `os.Open` followed by a read to the end.
unfoldable pub read_file : FilePath → Exec Fs Bytes
read_file p = refuse_broken p λ s. elim (stat p s) [
  | none ↦ raise not_exist s
  | some dir ↦ raise is_dir s
  | some (file bs) ↦ pure bs s
]

-- `os.Remove` of a file
unfoldable pub remove : FilePath → Exec Fs (Unit {0})
remove p = refuse_broken p λ s. elim (stat p s) [
  | none ↦ raise not_exist s
  | some dir ↦ raise io_error s
  | some (file _) ↦ (pure tt) (record s { entries = Dict.erase p s.entries })
]

-- The names in a directory, with what they name, and the sort by name of `os.ReadDir`.
abbrev child : FilePath → FilePath → Entry → List (String × Entry) → List (String × Entry)
child p [] e rest = rest
child p (n ∷ q) e rest = if p == q then (n, e) ∷ rest else rest

unfoldable pub children : FilePath → Dict FilePath Entry → List (String × Entry)
children p [] = []
children p ((q, e) ∷ d) = child p q e (children p d)

abbrev before : String → String → Bool
before a b = elim (String.compare a b) [ Ordering.gt ↦ false | _ ↦ true ]

unfoldable pub place : String × Entry → List (String × Entry) → List (String × Entry)
place x [] = x ∷ []
place (n, e) ((m, f) ∷ l) = if before n m then (n, e) ∷ (m, f) ∷ l else (m, f) ∷ place (n, e) l

unfoldable pub sort : List (String × Entry) → List (String × Entry)
unfolding place
sort [] = []
sort (x ∷ l) = place x (sort l)

-- `os.ReadDir`
unfoldable pub read_dir : FilePath → Exec Fs (List (String × Entry))
unfolding sort children
read_dir p = refuse_broken p λ s. elim (stat p s) [
  | none ↦ raise not_exist s
  | some (file _) ↦ raise not_dir s
  | some dir ↦ pure (sort (children p s.entries)) s
]
