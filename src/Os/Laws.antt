-- ===== src/Os/Laws.antt =====
-- What the file operations leave in the file system, one path at a time.
use libp2p_experiment.Base.{
  ◌≡◌, refl, ◌∙◌, ◌≢◌, ◌⊎◌, String, false, Option, none, some, [], ◌∷◌, ◌++◌, arith, length, ◌<◌,
  ap, if◌then◌else◌, ◌==◌, string_eq, list_eq, inl, inr,
}
use libp2p_experiment.Base.Dict
use libp2p_experiment.Base.Effects.{Exec, Result, ok, err, crash, ◌>>=◌, ◌>>◌, continue}
use libp2p_experiment.Os.{
  Bytes, FilePath, Entry, dir, file, Fs, stat, put, mkdir, mkdir_all, create, write, read_file,
  remove,
}

pub stat-put :
    (q : FilePath) (n : String) (p : FilePath) (e : Entry) (s : Fs)
    → stat q (put (n ∷ p) e s) ≡ (if q == (n ∷ p) then some e else stat q s)
unfolding stat put
stat-put [] n p e s = ground arith
stat-put (m ∷ q) n p e s = Dict.lookup-insert (m ∷ q) (n ∷ p) e s.entries

pub stat-put_self :
    (n : String) (p : FilePath) (e : Entry) (s : Fs) → stat (n ∷ p) (put (n ∷ p) e s) ≡ some e
stat-put_self n p e s = ground (arith, stat-put (n ∷ p) n p e s)

pub stat-put_ne :
    (q : FilePath) (n : String) (p : FilePath) (e : Entry) (s : Fs)
    → q ≢ (n ∷ p)
    → stat q (put (n ∷ p) e s) ≡ stat q s
stat-put_ne q n p e s h = ground (arith, stat-put q n p e s)

-- The second state has the faults of the first.
pub record SameFaults (s t : Fs) : Type 0 where
  pub broken : t.broken ≡ s.broken
  pub full : t.full ≡ s.full

pub put-SameFaults : (p : FilePath) (e : Entry) (s : Fs) → SameFaults s (put p e s)
unfolding put
put-SameFaults p e s = record { broken = refl; full = refl }

pub SameFaults-refl : (s : Fs) → SameFaults s s
SameFaults-refl s = record { broken = refl; full = refl }

pub SameFaults-trans : (s t u : Fs) → SameFaults s t → SameFaults t u → SameFaults s u
SameFaults-trans s t u a b = record { broken = b.broken ∙ a.broken; full = b.full ∙ a.full }

-- Inversion of a successful chain.
pub >>=-eq-ok {ℓ} :
    {S A B : Type ℓ} (m : Exec S A) (f : A → Exec S B) (s : S) {b : B} {u : S}
    → (m >>= f) s ≡ (ok b, u)
    → (a : A) × (t : S) × (m s ≡ (ok a, t)) × (f a t ≡ (ok b, u))
>>=-eq-ok {S} {A} {B} m f s {b} {u} h = go (m s) refl h
  where
    go :
        (r : Result A × S)
        → m s ≡ r
        → continue r.0 f r.1 ≡ (ok b, u)
        → (a : A) × (t : S) × (m s ≡ (ok a, t)) × (f a t ≡ (ok b, u))
    go (ok a, t) e k = (a, t, e, k)
    go (err x, t) e k = cc
    go (crash x, t) e k = cc

-- The same as a rule for what holds after a successful chain.
pub after_bind {ℓ} :
    {S A B : Type ℓ} {P : B → S → Type ℓ} (m : Exec S A) (f : A → Exec S B) (s : S)
    → ((a : A) (t : S) → m s ≡ (ok a, t) → (b : B) (u : S) → f a t ≡ (ok b, u) → P b u)
    → (b : B) (u : S) → (m >>= f) s ≡ (ok b, u)
    → P b u
after_bind m f s rest b u h = let (a, t, e, k) = >>=-eq-ok m f s h in rest a t e b u k

pub Entry-cases :
    (o : Option Entry) → ((o ≡ none) ⊎ (o ≡ some dir)) ⊎ ((b : Bytes) × (o ≡ some (file b)))
Entry-cases none = inl (inl refl)
Entry-cases (some dir) = inl (inr refl)
Entry-cases (some (file b)) = inr (b, refl)

pub create-ok :
    (n : String) (p : FilePath) (s t : Fs) {u : Unit {0}}
    → create n p s ≡ (ok u, t)
    → (s.broken (n ∷ p) ≡ false) × (t ≡ put (n ∷ p) (file []) s)
unfolding create
create-ok n p s t h = ground arith

pub write-ok :
    (p : FilePath) (bs : Bytes) (s t : Fs) {u : Unit {0}}
    → write p bs s ≡ (ok u, t)
    → (old : Bytes) × (stat p s ≡ some (file old)) × (t ≡ put p (file (old ++ bs)) s)
unfolding write
write-ok p bs s t h = elim (Entry-cases (stat p s)) [
  | inl (inl e) ↦ ground arith
  | inl (inr e) ↦ ground arith
  | inr (old, e) ↦ (old, e, ground arith)
]

-- What making directories does: it adds directories, and changes nothing that is there.
pub record Extends (s t : Fs) : Type 0 where
  pub faults : SameFaults s t
  pub grown : (q : FilePath) → (stat q t ≡ stat q s) ⊎ ((stat q s ≡ none) × (stat q t ≡ some dir))

Extends-refl : (s : Fs) → Extends s s
Extends-refl s = record { faults = SameFaults-refl s; grown = λ q. inl refl }

Extends-trans : (s t u : Fs) → Extends s t → Extends t u → Extends s u
Extends-trans s t u a b = record {
  faults = SameFaults-trans s t u a.faults b.faults;
  grown = λ q. ground (arith, a.grown q, b.grown q);
}

mkdir_at_root : (s : Fs) → (mkdir [] s).1 ≡ s
unfolding mkdir stat
mkdir_at_root s = ground arith

mkdir-SameFaults : (p : FilePath) (s : Fs) → SameFaults s (mkdir p s).1
unfolding mkdir put
mkdir-SameFaults p s = ground arith

mkdir_grown :
    (n : String) (p q : FilePath) (s : Fs)
    → (stat q (mkdir (n ∷ p) s).1 ≡ stat q s)
      ⊎ ((stat q s ≡ none) × (stat q (mkdir (n ∷ p) s).1 ≡ some dir))
unfolding mkdir
mkdir_grown n p q s = ground (arith, stat-put q n p dir s)

mkdir-Extends : (p : FilePath) (s : Fs) → Extends s (mkdir p s).1
mkdir-Extends [] s = rw (mkdir_at_root s) (Extends-refl s)
mkdir-Extends (n ∷ p) s = record {
  faults = mkdir-SameFaults (n ∷ p) s;
  grown = λ q. mkdir_grown n p q s;
}

-- What each of two steps does to the state, in the sense of a transitive relation, both do.
>>-keeps :
    (R : Fs → Fs → Type 0) (m k : Exec Fs (Unit {0}))
    → ((s t u : Fs) → R s t → R t u → R s u)
    → ((s : Fs) → R s (m s).1)
    → ((s : Fs) → R s (k s).1)
    → (s : Fs) → R s ((m >> k) s).1
>>-keeps R m k trans hm hk s = go (m s).0
  where
    go : (r : Result (Unit {0})) → R s (continue r (λ _. k) (m s).1).1
    go (ok a) = trans s (m s).1 _ (hm s) (hk (m s).1)
    go (err e) = hm s
    go (crash c) = hm s

pub mkdir_all-Extends : (p : FilePath) (s : Fs) → Extends s (mkdir_all p s).1
unfolding mkdir_all
mkdir_all-Extends [] s = Extends-refl s
mkdir_all-Extends (n ∷ p) s =
    let rest =
      >>-keeps Extends (mkdir_all p) (mkdir (n ∷ p)) Extends-trans (mkdir_all-Extends p)
        (mkdir-Extends (n ∷ p)) s in
    elim (Entry-cases (stat (n ∷ p) s)) [
      | inl (inl e) ↦ rw (e, mkdir_all) rest
      | inl (inr e) ↦ rw (e, mkdir_all) (Extends-refl s)
      | inr (b, e) ↦ rw (e, mkdir_all) rest
    ]

-- Nothing refuses an operation.
abbrev pub Healthy : Fs → Type 0
Healthy s = (p : FilePath) → (s.broken p ≡ false) × (s.full p ≡ false)

-- No file stands where the path wants a directory.
abbrev pub NoFileOn : FilePath → Fs → Type 0
NoFileOn [] s = Unit {0}
NoFileOn (n ∷ p) s = ((b : Bytes) → stat (n ∷ p) s ≢ some (file b)) × NoFileOn p s

mkdir_total :
    (n : String) (p : FilePath) (s : Fs)
    → s.broken (n ∷ p) ≡ false
    → ((b : Bytes) → stat (n ∷ p) s ≢ some (file b))
    → ((mkdir (n ∷ p) s).0 ≡ ok tt) × (stat (n ∷ p) (mkdir (n ∷ p) s).1 ≡ some dir)
unfolding mkdir
mkdir_total n p s fine no_file = elim (Entry-cases (stat (n ∷ p) s)) [
  | inl (inl e) ↦ ground (arith, stat-put_self n p dir s)
  | inl (inr e) ↦ ground arith
  | inr (b, e) ↦ absurd (no_file b e)
]

mkdir_below :
    (n : String) (p : FilePath) (s : Fs)
    → Healthy s
    → ((b : Bytes) → stat (n ∷ p) s ≢ some (file b))
    → (mkdir_all p s).0 ≡ ok tt
    → (((mkdir_all p >> mkdir (n ∷ p)) s).0 ≡ ok tt)
      × (stat (n ∷ p) ((mkdir_all p >> mkdir (n ∷ p)) s).1 ≡ some dir)
mkdir_below n p s healthy no_file made = rw made (mkdir_total n p (mkdir_all p s).1 fine still_free)
  where
    ext : Extends s (mkdir_all p s).1
    ext = mkdir_all-Extends p s

    fine : (mkdir_all p s).1.broken (n ∷ p) ≡ false
    fine = rw ext.faults.broken (healthy (n ∷ p)).0

    still_free : (b : Bytes) → stat (n ∷ p) (mkdir_all p s).1 ≢ some (file b)
    still_free b e = ground (arith, ext.grown (n ∷ p), no_file b)

-- On a healthy file system, where no file is in the way, all the directories are made.
pub mkdir_all_total :
    (p : FilePath) (s : Fs)
    → Healthy s
    → NoFileOn p s
    → ((mkdir_all p s).0 ≡ ok tt) × (stat p (mkdir_all p s).1 ≡ some dir)
unfolding mkdir_all
mkdir_all_total [] s healthy free = (refl, unfold stat in refl)
mkdir_all_total (n ∷ p) s healthy free =
    let made = mkdir_below n p s healthy free.0 (mkdir_all_total p s healthy free.1).0 in
    elim (Entry-cases (stat (n ∷ p) s)) [
      | inl (inl e) ↦ rw (e, mkdir_all) made
      | inl (inr e) ↦ rw (e, mkdir_all) (refl, e)
      | inr (b, e) ↦ rw (e, mkdir_all) made
    ]

pub create_total :
    (n : String) (p : FilePath) (s : Fs)
    → s.broken (n ∷ p) ≡ false
    → stat p s ≡ some dir
    → stat (n ∷ p) s ≢ some dir
    → create n p s ≡ (ok tt, put (n ∷ p) (file []) s)
unfolding create
create_total n p s fine parent free = ground arith

pub write_total :
    (p : FilePath) (bs old : Bytes) (s : Fs)
    → s.full p ≡ false
    → stat p s ≡ some (file old)
    → write p bs s ≡ (ok tt, put p (file (old ++ bs)) s)
unfolding write
write_total p bs old s room there = ground arith

pub put-Healthy : (p : FilePath) (e : Entry) (s : Fs) → Healthy s → Healthy (put p e s)
unfolding put
put-Healthy p e s h = h

pub mkdir_all-Healthy : (p : FilePath) (s : Fs) → Healthy s → Healthy (mkdir_all p s).1
mkdir_all-Healthy p s h q =
    let x = mkdir_all-Extends p s in (rw x.faults.broken (h q).0, rw x.faults.full (h q).1)

-- The directories that are made are those of the path: nothing appears below it.
mkdir-stat_longer :
    (p q : FilePath) (s : Fs) → length p < length q → stat q (mkdir p s).1 ≡ stat q s
mkdir-stat_longer [] q s h = rw (mkdir_at_root s)
mkdir-stat_longer (n ∷ p) q s h = unfold mkdir in ground (arith, stat-put_ne q n p dir s other)
  where
    other : q ≢ (n ∷ p)
    other e = omega (arith, ap length e)

pub mkdir_all-stat_longer :
    (p q : FilePath) (s : Fs) → length p < length q → stat q (mkdir_all p s).1 ≡ stat q s
unfolding mkdir_all
mkdir_all-stat_longer [] q s h = refl
mkdir_all-stat_longer (n ∷ p) q s h =
    let rest =
      >>-keeps (λ s t. stat q t ≡ stat q s) (mkdir_all p) (mkdir (n ∷ p)) (λ s t u a b. b ∙ a)
        (λ s. mkdir_all-stat_longer p q s (omega arith)) (λ s. mkdir-stat_longer (n ∷ p) q s h) s in
    elim (Entry-cases (stat (n ∷ p) s)) [
      | inl (inl e) ↦ rw (e, mkdir_all) rest
      | inl (inr e) ↦ rw (e, mkdir_all) refl
      | inr (b, e) ↦ rw (e, mkdir_all) rest
    ]

pub read_file-ok :
    (p : FilePath) (b : Bytes) (s : Fs)
    → s.broken p ≡ false
    → stat p s ≡ some (file b)
    → read_file p s ≡ (ok b, s)
unfolding read_file
read_file-ok p b s h e = ground arith

pub remove_total :
    (p : FilePath) (b : Bytes) (s : Fs)
    → Healthy s
    → stat p s ≡ some (file b)
    → remove p s ≡ (ok tt, (remove p s).1)
unfolding remove
remove_total p b s h e = ground (arith, h p)

pub remove-Healthy : (p : FilePath) (s : Fs) → Healthy s → Healthy (remove p s).1
unfolding remove
remove-Healthy p s h q = ground (arith, h q)

pub stat-remove :
    (q : FilePath) (n : String) (p : FilePath) (b : Bytes) (s : Fs)
    → Healthy s
    → stat (n ∷ p) s ≡ some (file b)
    → stat q (remove (n ∷ p) s).1 ≡ (if q == (n ∷ p) then none else stat q s)
stat-remove [] n p b s h e = unfold stat in ground arith
stat-remove (m ∷ q) n p b s h e =
    unfold remove stat in ground (arith, h (n ∷ p), Dict.lookup-erase (m ∷ q) (n ∷ p) s.entries)
