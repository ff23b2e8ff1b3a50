-- ===== src/Base/Effects.antt =====
-- What a Go call can do: return a value, return an error, or end the process by a panic or by
-- `log.Fatal`. What was written before an error stays written, so the state comes back too.
use libp2p_experiment.Base.{◌≡◌, ◌∙◌, ap, String}

pub data Error : Type 0 where
  eof unexpected_eof : Error
  not_exist not_dir is_dir io_error : Error
  failed : String → Error
  wrapped : String → Error → Error

pub data Result {ℓ} (A : Type ℓ) : Type ℓ where
  ok : A → Result A
  err : Error → Result A
  crash : String → Result A

abbrev pub Exec {ℓ} : Type ℓ → Type ℓ → Type ℓ
Exec S A = S → Result A × S

module _ {ℓ} {S A : Type ℓ} where
  abbrev pub pure : A → Exec S A
  pure a s = (ok a, s)

  abbrev pub raise : Error → Exec S A
  raise e s = (err e, s)

  abbrev pub fatal : String → Exec S A
  fatal m s = (crash m, s)

  abbrev pub lift : Result A → Exec S A
  lift r s = (r, s)

module _ {ℓ} {S A B : Type ℓ} where
  abbrev pub continue : Result A → (A → Exec S B) → Exec S B
  continue (ok a) f s = f a s
  continue (err e) f s = (err e, s)
  continue (crash m) f s = (crash m, s)

  infixl 10 ◌>>=◌ ◌>>◌
  -- `if err != nil { return err }` after every call.
  abbrev pub ◌>>=◌ : Exec S A → (A → Exec S B) → Exec S B
  ◌>>=◌ m f s = continue (m s).0 f (m s).1

  abbrev pub ◌>>◌ : Exec S A → Exec S B → Exec S B
  m >> n = m >>= λ _. n

  -- `if err != nil { … }` with a handler of its own.
  abbrev pub handle : Exec S A → (Error → Exec S B) → (A → Exec S B) → Exec S B
  handle m on_error on_ok s = elim (m s).0 [
    | ok a ↦ on_ok a (m s).1
    | err e ↦ on_error e (m s).1
    | crash c ↦ (crash c, (m s).1)
  ]

module _ {ℓ} {S A B : Type ℓ} (m : Exec S A) (g : Error → Exec S B) (f : A → Exec S B) where
  pub handle-ok : (s : S) {a : A} {t : S} → m s ≡ (ok a, t) → handle m g f s ≡ f a t
  handle-ok s p = ap (λ (r : Result A × S). handle (λ _. r) g f s) p

  pub handle-err : (s : S) {e : Error} {t : S} → m s ≡ (err e, t) → handle m g f s ≡ g e t
  handle-err s p = ap (λ (r : Result A × S). handle (λ _. r) g f s) p

module _ {ℓ} {S A B : Type ℓ} (m : Exec S A) (f : A → Exec S B) where
  pub >>=-ok : (s : S) {a : A} {t : S} → m s ≡ (ok a, t) → (m >>= f) s ≡ f a t
  >>=-ok s p = ap (λ (r : Result A × S). ((λ _. r) >>= f) s) p

  pub >>=-err : (s : S) {e : Error} {t : S} → m s ≡ (err e, t) → (m >>= f) s ≡ (err e, t)
  >>=-err s p = ap (λ (r : Result A × S). ((λ _. r) >>= f) s) p

module _ {ℓ} {S A : Type ℓ} {r : Result A × S} {a : Result A} {s : S} (e : r ≡ (a, s)) where
  pub result_of : r.0 ≡ a
  result_of = ap (λ (x : Result A × S). x.0) e

  pub state_of : r.1 ≡ s
  state_of = ap (λ (x : Result A × S). x.1) e

-- One step of a chain that is known to succeed, or to fail.
module _ {ℓ} {S A B : Type ℓ} (m : Exec S A) (f : A → Exec S B) (s : S) {r : Result B × S} where
  pub then_ok : {a : A} {t : S} → m s ≡ (ok a, t) → f a t ≡ r → (m >>= f) s ≡ r
  then_ok e rest = >>=-ok m f s e ∙ rest
