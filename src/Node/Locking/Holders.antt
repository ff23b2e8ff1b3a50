-- ===== src/Node/Locking/Holders.antt =====
-- How many goroutines hold the mutex, and how.
use libp2p_experiment.Base.{ℕ, zero, suc, ◌+◌, ◌<◌, ◌≤◌, ◌≡◌, ◌≢◌, refl, arith, nat_eq}
use libp2p_experiment.Node.Locking.{
  Pc, idle, wanting, waiting, adding, entering, leaving, wants_read, reading, moved,
}

-- 1 for the goroutine that has it for writing, for one that has it or is announced for writing, and
-- for one that has it for reading.
abbrev pub writes : Pc → ℕ
writes idle = 0
writes (wanting _) = 0
writes (waiting _) = 0
writes (adding _) = 1
writes (entering _) = 1
writes (leaving _) = 1
writes (wants_read _) = 0
writes (reading _ _ _) = 0

abbrev pub claims : Pc → ℕ
claims (waiting _) = 1
claims p = writes p

abbrev pub reads : Pc → ℕ
reads (reading _ _ _) = 1
reads _ = 0

pub writes-claims : (p : Pc) → writes p ≤ claims p
writes-claims idle = omega arith
writes-claims (wanting _) = omega arith
writes-claims (waiting _) = omega arith
writes-claims (adding _) = omega arith
writes-claims (entering _) = omega arith
writes-claims (leaving _) = omega arith
writes-claims (wants_read _) = omega arith
writes-claims (reading _ _ _) = omega arith

-- The sum over the goroutines below `n`.
abbrev pub total : (Pc → ℕ) → ℕ → (ℕ → Pc) → ℕ
total w zero pc = 0
total w (suc n) pc = w (pc n) + total w n pc

module _ (w : Pc → ℕ) where
  pub total-idle : (n : ℕ) → w idle ≡ 0 → total w n (λ _. idle) ≡ 0
  total-idle zero h = refl
  total-idle (suc n) h = omega (arith, h, total-idle n h)

  total-above : (n i : ℕ) (pc : ℕ → Pc) (p : Pc) → n ≤ i → total w n (moved pc i p) ≡ total w n pc
  total-above zero i pc p h = refl
  total-above (suc n) i pc p h = ground (arith, total-above n i pc p (omega arith))

  pub total-moved :
      (n i : ℕ) (pc : ℕ → Pc) (p : Pc)
      → i < n
      → total w n (moved pc i p) + w (pc i) ≡ total w n pc + w p
  total-moved zero i pc p h = absurd (omega arith)
  total-moved (suc n) i pc p h = elim (nat_eq.dec n i) [
    | yes e ↦ ground (arith, e, total-above n i pc p (omega (arith, e)))
    | no other ↦ ground (arith, other, total-moved n i pc p (omega (arith, other)))
  ]

  pub one-total : (n i : ℕ) (pc : ℕ → Pc) → i < n → w (pc i) ≤ total w n pc
  one-total zero i pc h = absurd (omega arith)
  one-total (suc n) i pc h = elim (nat_eq.dec n i) [
    | yes e ↦ ground (arith, e)
    | no other ↦ omega (arith, one-total n i pc (omega (arith, other)))
  ]

  pub two-total :
      (n i j : ℕ) (pc : ℕ → Pc)
      → w idle ≡ 0
      → i < n
      → j < n
      → i ≢ j
      → w (pc i) + w (pc j) ≤ total w n pc
  two-total n i j pc h k l ne =
      ground (arith, h, ne, total-moved n i pc idle k, one-total n j (moved pc i idle) l)

  -- Where the sum is not 0, some goroutine has it.
  pub total-found : (n : ℕ) (pc : ℕ → Pc) → 0 < total w n pc → (i : ℕ) × ((i < n) × (0 < w (pc i)))
  total-found zero pc h = absurd (omega arith)
  total-found (suc n) pc h = elim (nat_eq.dec (w (pc n)) 0) [
    | yes e ↦
        let (i, (below, there)) = total-found n pc (omega (arith, e, h)) in
        (i, (omega (arith, below), there))
    | no some_here ↦ (n, (omega arith, omega (arith, some_here)))
  ]

pub total_mono :
    (v w : Pc → ℕ) (n : ℕ) (pc : ℕ → Pc) → ((p : Pc) → v p ≤ w p) → total v n pc ≤ total w n pc
total_mono v w zero pc h = omega arith
total_mono v w (suc n) pc h = omega (arith, h (pc n), total_mono v w n pc h)

pub moved_self : (pc : ℕ → Pc) (i j : ℕ) (p : Pc) → j ≡ i → moved pc i p j ≡ p
moved_self pc i j p e = ground (arith, e)

pub moved_other : (pc : ℕ → Pc) (i j : ℕ) (p : Pc) → ◌≢◌ j i → moved pc i p j ≡ pc j
moved_other pc i j p other = ground (arith, other)
