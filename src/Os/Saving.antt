-- ===== src/Os/Saving.antt =====
-- A file that is saved in a directory of its own: the directory is made, the file created, and its
-- bytes written. The program does this for keys, domains, portals and messages.
use libp2p_experiment.Base.{
  ◌≡◌, refl, ◌∙◌, ap, ◌≢◌, String, some, [], ◌∷◌, arith, length, list_eq, string_eq,
}
use libp2p_experiment.Base.Effects.{Result, ok}
use libp2p_experiment.Os.{Bytes, FilePath, Fs, dir, file, stat, put, mkdir_all, create, write}
use libp2p_experiment.Os.Laws.{
  Healthy, NoFileOn, mkdir_all_total, mkdir_all-Healthy, mkdir_all-stat_longer, create_total,
  write_total, put-Healthy, stat-put_self, stat-put_ne,
}

pub mkdir_all-there : (p : FilePath) (s : Fs) → stat p s ≡ some dir → mkdir_all p s ≡ (ok tt, s)
unfolding mkdir_all
mkdir_all-there [] s h = refl
mkdir_all-there (n ∷ p) s h = rw (h, mkdir_all) refl

module _ (n : String) (p : FilePath) (bytes : Bytes) (s : Fs) where
  -- The states behind the three calls.
  abbrev pub made : Fs
  made = (mkdir_all p s).1

  abbrev pub opened : Fs
  opened = put (n ∷ p) (file []) made

  abbrev pub saved : Fs
  saved = put (n ∷ p) (file bytes) opened

  -- What the three calls do, where nothing is in the way.
  pub record Saves : Type 0 where
    pub makes : mkdir_all p s ≡ (ok tt, made)
    pub creates : create n p made ≡ (ok tt, opened)
    pub writes : write (n ∷ p) bytes opened ≡ (ok tt, saved)
    pub holds : stat (n ∷ p) saved ≡ some (file bytes)
    pub still_dir : stat p saved ≡ some dir
    pub healthy : Healthy saved

  parent-ne : p ≢ (n ∷ p)
  parent-ne e = absurd (omega (arith, ap length e))

  saves_in :
      Healthy s
      → (mkdir_all p s).0 ≡ ok tt
      → stat p made ≡ some dir
      → stat (n ∷ p) s ≢ some dir
      → Saves
  saves_in healthy done there no_dir =
      let h1 = mkdir_all-Healthy p s healthy in
      let h2 = put-Healthy (n ∷ p) (file []) made h1 in
      let same = mkdir_all-stat_longer p (n ∷ p) s (omega arith) in
      record {
        makes = ap (λ (r : Result (Unit {0})). (r, made)) done;
        creates = create_total n p made (h1 (n ∷ p)).0 there (λ e. ground arith);
        writes = write_total (n ∷ p) bytes [] opened (h2 (n ∷ p)).1 (stat-put_self n p _ made);
        holds = stat-put_self n p _ opened;
        still_dir =
            stat-put_ne p n p _ opened parent-ne ∙ stat-put_ne p n p _ made parent-ne ∙ there;
        healthy = put-Healthy (n ∷ p) (file bytes) opened h2;
      }

  -- Where no file is in the way of the directories.
  pub saves : Healthy s → NoFileOn p s → stat (n ∷ p) s ≢ some dir → Saves
  saves healthy free = let m = mkdir_all_total p s healthy free in saves_in healthy m.0 m.1

  -- Where the directory is there.
  pub saves_there : Healthy s → stat p s ≡ some dir → stat (n ∷ p) s ≢ some dir → Saves
  saves_there healthy there =
      saves_in healthy (ap (λ (r : Result (Unit {0}) × Fs). r.0) (mkdir_all-there p s there))
        (ap (λ (r : Result (Unit {0}) × Fs). stat p r.1) (mkdir_all-there p s there) ∙ there)

  -- Other paths keep what they had, except for the directories that were made.
  pub stat-saved : (q : FilePath) → q ≢ (n ∷ p) → stat q saved ≡ stat q made
  stat-saved q h = stat-put_ne q n p _ opened h ∙ stat-put_ne q n p _ made h
