-- ===== src/Bufio.antt =====
-- Go's `bufio.Writer` of the default size, as example/thc/main.go has it around a stream.
use mathlib.Core.List.{append_assoc, append-nil}
use mathlib.Core.Path.{subst}
use libp2p_experiment.Base.{
  ℕ, zero, suc, ◌-◌, ◌≤◌, ◌<◌, ◌≡◌, ◌≢◌, ◌⊎◌, refl, ap, sym, ◌∙◌, Bool, true, false, [], ◌∷◌, ◌++◌,
  if◌then◌else◌, ◌==◌, nat_eq, leb, length, length-append, take, drop, arith, Bool-cases, inl, inr,
}
use libp2p_experiment.Os.{Bytes}

-- What it holds, what it wrote to the stream, and whether such a write failed.
pub record Writer : Type 0 where
  pub held : Bytes
  pub gone : Bytes
  pub broken : Bool

abbrev pub new_writer : Writer
new_writer = record { held = []; gone = []; broken = false }

abbrev pub buffer_size : ℕ
buffer_size = 4096

abbrev room : Writer → ℕ
room b = buffer_size - length b.held

module _ (put : Bytes → Bool) where
  -- The writes to the stream: of what does not fit into the empty buffer, and of a full buffer.
  abbrev through : Bytes → Writer → Writer
  through p b = if put p then record b { gone = b.gone ++ p } else record b { broken = true }

  abbrev flushed : Bytes → Writer → Writer
  flushed p b =
      if put (b.held ++ p)
      then record b { held = []; gone = b.gone ++ (b.held ++ p) }
      else record b { broken = true }

  -- What is left behind a flush.
  abbrev refill : Bytes → Writer → Writer
  refill p b =
      if b.broken
      then b
      else if leb (length p) buffer_size
      then record b { held = p }
      else through p b

  -- `Write`: an error stays. Nothing is flushed as long as there is room.
  unfoldable pub write : Bytes → Writer → Writer
  write p b =
      if b.broken
      then b
      else if leb (length p) (room b)
      then record b { held = b.held ++ p }
      else if length b.held == 0
      then through p b
      else refill (drop (room b) p) (flushed (take (room b) p) b)

-- All of the bytes are on the stream or held back, and at most the buffer is held back.
pub record Holds (all : Bytes) (b : Writer) : Type 0 where
  pub works : b.broken ≡ false
  pub same : b.gone ++ b.held ≡ all
  pub few : length b.held ≤ buffer_size

on_true :
    {A : Type 0} (P : A → Type 0) (c : Bool) (x y : A) → c ≡ true → P x → P (if c then x else y)
on_true P true x y e h = h
on_true P false x y e h = cc

on_false :
    {A : Type 0} (P : A → Type 0) (c : Bool) (x y : A) → c ≡ false → P y → P (if c then x else y)
on_false P true x y e h = cc
on_false P false x y e h = h

is_zero : (n : ℕ) → n ≡ 0 → (n == 0) ≡ true
is_zero n h = ground (arith, h)

no_zero : (n : ℕ) → ◌≢◌ n 0 → (n == 0) ≡ false
no_zero n h = ground (arith, h)

take-drop : (n : ℕ) (p : Bytes) → take n p ++ drop n p ≡ p
take-drop zero p = refl
take-drop (suc n) [] = refl
take-drop (suc n) (x ∷ p) = ap (◌∷◌ x) (take-drop n p)

fits-or-not : (m n : ℕ) → ((leb m n ≡ true) × (m ≤ n)) ⊎ ((leb m n ≡ false) × (n < m))
fits-or-not m n = elim (Bool-cases (leb m n)) [
  | inl e ↦ inl (e, ground (arith, e))
  | inr e ↦ inr (e, ground (arith, e))
]

empty : (p : Bytes) → length p ≡ 0 → p ≡ []
empty [] h = refl
empty (x ∷ p) h = absurd (omega (arith, h))

module _ (put : Bytes → Bool) (takes : (p : Bytes) → put p ≡ true) where
  through-Holds :
      (all p : Bytes) (b : Writer) → Holds all b → b.held ≡ [] → Holds (all ++ p) (through put p b)
  through-Holds all p b h e = rw (takes p) record {
    works = h.works;
    same =
        ap (λ (x : Bytes). (b.gone ++ p) ++ x) e
        ∙ append-nil (b.gone ++ p)
        ∙ ap (λ (x : Bytes). x ++ p)
            (sym (append-nil b.gone) ∙ ap (λ (x : Bytes). b.gone ++ x) (sym e) ∙ h.same);
    few = h.few;
  }

  refill-Holds :
      (all p : Bytes) (b : Writer) → Holds all b → b.held ≡ [] → Holds (all ++ p) (refill put p b)
  refill-Holds all p b h e =
      on_false (Holds (all ++ p)) b.broken _ _ h.works (elim (fits-or-not (length p) buffer_size) [
        | inl (fits, small) ↦
            on_true (Holds (all ++ p)) (leb (length p) buffer_size) _ _ fits record {
              works = h.works;
              same =
                  ap (λ (x : Bytes). x ++ p)
                    (sym (append-nil b.gone) ∙ ap (λ (x : Bytes). b.gone ++ x) (sym e) ∙ h.same);
              few = small;
            }
        | inr (large, _) ↦
            on_false (Holds (all ++ p)) (leb (length p) buffer_size) _ _ large
              (through-Holds all p b h e)
      ])

  flushed-Holds :
      (all p : Bytes) (b : Writer)
      → Holds all b
      → Holds (all ++ p) (flushed put p b) × ((flushed put p b).held ≡ [])
  flushed-Holds all p b h = rw (takes (b.held ++ p)) (
    record {
      works = h.works;
      same =
          append-nil (b.gone ++ (b.held ++ p))
          ∙ sym (append_assoc b.gone b.held p)
          ∙ ap (λ (x : Bytes). x ++ p) h.same;
      few = omega arith;
    },
    refl,
  )

  -- What does not fit.
  write-large :
      (all p : Bytes) (b : Writer)
      → Holds all b
      → Holds (all ++ p) (
          if length b.held == 0
          then through put p b
          else refill put (drop (room b) p) (flushed put (take (room b) p) b))
  write-large all p b h = elim (nat_eq.dec (length b.held) 0) [
    | yes none_held ↦
        on_true (Holds (all ++ p)) (length b.held == 0) _ _ (is_zero (length b.held) none_held)
          (through-Holds all p b h (empty b.held none_held))
    | no some_held ↦
        let (holds, emptied) = flushed-Holds all (take (room b) p) b h in
        let all_of_p =
          append_assoc all (take (room b) p) (drop (room b) p)
          ∙ ap (λ (x : Bytes). all ++ x) (take-drop (room b) p) in
        on_false (Holds (all ++ p)) (length b.held == 0) _ _ (no_zero (length b.held) some_held) (
          subst
            (λ (x : Bytes).
              Holds x (refill put (drop (room b) p) (flushed put (take (room b) p) b)))
            all_of_p
            (refill-Holds (all ++ take (room b) p) (drop (room b) p)
              (flushed put (take (room b) p) b) holds emptied))
  ]

  write-Holds : (all p : Bytes) (b : Writer) → Holds all b → Holds (all ++ p) (write put p b)
  unfolding write
  write-Holds all p b h =
      on_false (Holds (all ++ p)) b.broken _ _ h.works (elim (fits-or-not (length p) (room b)) [
        | inl (fits, small) ↦ on_true (Holds (all ++ p)) (leb (length p) (room b)) _ _ fits record {
          works = h.works;
          same = sym (append_assoc b.gone b.held p) ∙ ap (λ (x : Bytes). x ++ p) h.same;
          few = omega (arith, small, h.few, length-append b.held p);
        }
        | inr (large, _) ↦
            on_false (Holds (all ++ p)) (leb (length p) (room b)) _ _ large (write-large all p b h)
      ])

-- And nothing is on the stream before there is more than the buffer takes.
pub record Written (all : Bytes) (b : Writer) : Type 0 where
  pub holds : Holds all b
  pub waits : (b.gone ≡ []) ⊎ (buffer_size < length all)

pub new-Written : Written [] new_writer
new-Written = record {
  holds = record { works = refl; same = refl; few = omega arith };
  waits = inl refl;
}

module _ (put : Bytes → Bool) (takes : (p : Bytes) → put p ≡ true) where
  write-waits :
      (all p : Bytes) (b : Writer)
      → Written all b
      → ((write put p b).gone ≡ []) ⊎ (buffer_size < length (all ++ p))
  unfolding write
  write-waits all p b h = elim h.waits [
    | inr much ↦ inr (omega (arith, much, length-append all p))
    | inl none_gone ↦
        let n = ap length (ap (λ (x : Bytes). x ++ b.held) (sym none_gone) ∙ h.holds.same) in
        elim (fits-or-not (length p) (room b)) [
          | inl (fits, _) ↦ inl (
              on_false (λ (w : Writer). w.gone ≡ []) b.broken _ _ h.holds.works
                (on_true (λ (w : Writer). w.gone ≡ []) (leb (length p) (room b)) _ _ fits
                  none_gone))
          | inr (_, large) ↦ inr (omega (arith, large, n, length-append all p))
        ]
  ]

  pub write-Written :
      (all p : Bytes) (b : Writer) → Written all b → Written (all ++ p) (write put p b)
  write-Written all p b h = record {
    holds = write-Holds put takes all p b h.holds;
    waits = write-waits all p b h;
  }
