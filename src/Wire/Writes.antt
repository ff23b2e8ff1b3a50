-- ===== src/Wire/Writes.antt =====
-- What was written to a stream, or to a node, among all that was written.
use mathlib.Core.List.{append_assoc}
use libp2p_experiment.Base.{
  ◌≡◌, refl, sym, List, [], ◌∷◌, ◌++◌, arith, Bool-cases, inl, inr, Eq, if◌then◌else◌, ◌==◌,
}
use libp2p_experiment.Os.{Bytes}

module _ {S : Type 0} ⦃e : Eq S⦄ where
  -- One write after the other.
  abbrev pub bytes_to : S → List (S × Bytes) → Bytes
  bytes_to s [] = []
  bytes_to s ((r, bytes) ∷ sent) = if r == s then bytes ++ bytes_to s sent else bytes_to s sent

  pub bytes_to-append :
      (s : S) (xs ys : List (S × Bytes)) → bytes_to s (xs ++ ys) ≡ bytes_to s xs ++ bytes_to s ys
  bytes_to-append s [] ys = refl
  bytes_to-append s ((r, b) ∷ xs) ys = elim (Bool-cases (r == s)) [
    | inl same ↦
        rw (same, bytes_to-append s xs ys) (sym (append_assoc b (bytes_to s xs) (bytes_to s ys)))
    | inr other ↦ rw (other, bytes_to-append s xs ys)
  ]

  pub bytes_to-cons_self :
      (s : S) (bytes : Bytes) (sent : List (S × Bytes))
      → bytes_to s ((s, bytes) ∷ sent) ≡ bytes ++ bytes_to s sent
  bytes_to-cons_self s bytes sent = ground arith

  pub bytes_to_self : (s : S) (bytes : Bytes) → bytes_to s ((s, bytes) ∷ []) ≡ bytes ++ []
  bytes_to_self s bytes = bytes_to-cons_self s bytes []
