-- ===== src/Programs/Vision/PoseRead.antt =====
-- The pose that the Salvia node writes back, read again.
use mathlib.Core.Path.{subst}
use libp2p_experiment.Base.{
  ℕ, zero, suc, ◌+◌, ◌<◌, ◌≡◌, refl, ap, ◌∙◌, Option, none, some, List, [], ◌∷◌, arith, map,
  get_elem?, if◌then◌else◌, nat_eq, Bool-cases, inl, inr,
}
use libp2p_experiment.Base.Effects.{ok}
use libp2p_experiment.FlatBuffers.{FlatBuffers, BuilderApi, Table, uoffset}
use libp2p_experiment.FlatBuffers.Built.{Built, Field, float, is_zero, slot_of, Written, Reads}
use libp2p_experiment.Posemesh.{get_size_prefixed_root_as}
use libp2p_experiment.Posemesh.Reading.{root_found}
use libp2p_experiment.Posemesh.Pose
use libp2p_experiment.Posemesh.Pose.{float_field}
use libp2p_experiment.Programs.Vision.{add_floats, pose_message}

-- What is read of a float: -0.0 is left out like 0.0.
abbrev pub normal : ℕ → ℕ
normal x = if is_zero x then 0 else x

abbrev set_float : ℕ → Option Field
set_float x = if is_zero x then none else some (float x)

module _ (fb : FlatBuffers) where
  float_field-float :
      (w : Written) (t : Table) (k x : ℕ) (f : Option Field)
      → Reads fb w t k f
      → f ≡ set_float x
      → float_field fb (slot_of k) t ≡ normal x
  unfolding float_field nat_eq
  float_field-float w t k x f reads e = elim (Bool-cases (is_zero x)) [
    | inl zero_float ↦
        let none_set : f ≡ none = e ∙ ap (λ b. if b then none else some (float x)) zero_float in
        let absent : fb.offset t (slot_of k) ≡ 0 = subst (Reads fb w t k) none_set reads in
        rw zero_float (rw absent refl)
    | inr other ↦
        let set : f ≡ some (float x) = e ∙ ap (λ b. if b then none else some (float x)) other in
        let (there, same) = subst (Reads fb w t k) set reads in
        rw other (ground (arith, there, same))
  ]

module _ (fb : FlatBuffers) (api : BuilderApi) (B : Built fb api) where
  -- The slots below the first one stay.
  fields_below :
      (i : ℕ) (xs : List ℕ) (b : api.Builder) (j : ℕ)
      → j < i
      → B.fields (add_floats api i xs b) j ≡ B.fields b j
  unfolding add_floats
  fields_below i [] b j h = refl
  fields_below i (x ∷ xs) b j h =
      fields_below (suc i) xs (api.prepend_float32_slot i x 0 b) j (omega arith)
      ∙ ground (arith, B.fields-float i x j b)

  below :
      (i y : ℕ) (b : api.Builder) (j : ℕ)
      → ((j : ℕ) → B.fields b (i + j) ≡ none)
      → B.fields (api.prepend_float32_slot i y 0 b) (suc i + j) ≡ none
  below i y b j empty =
      let above : B.fields b (suc i + j) ≡ none =
        ap (B.fields b) {x = suc i + j} {y = i + suc j} (omega arith) ∙ empty (suc j) in
      ground (arith, above, B.fields-float i y (suc i + j) b)

  -- The others hold the numbers in their order.
  fields_set :
      (i : ℕ) (xs : List ℕ) (b : api.Builder) (m x : ℕ)
      → ((j : ℕ) → B.fields b (i + j) ≡ none)
      → get_elem? xs m ≡ some x
      → B.fields (add_floats api i xs b) (i + m) ≡ set_float x
  unfolding add_floats
  fields_set i [] b m x empty h = ground (arith, h)
  fields_set i (y ∷ xs) b zero x empty h =
      fields_below (suc i) xs (api.prepend_float32_slot i y 0 b) (i + 0) (omega arith)
      ∙ ground (arith, h, B.fields-float i y (i + 0) b, empty 0)
  fields_set i (y ∷ xs) b (suc m) x empty h =
      ap (B.fields (add_floats api i (y ∷ xs) b)) {x = i + suc m} {y = suc i + m} (omega arith)
      ∙ fields_set (suc i) xs (api.prepend_float32_slot i y 0 b) m x (λ j. below i y b j empty) h

  -- The seven numbers of a table.
  abbrev pub numbers : Table → List ℕ
  numbers t =
      Pose.px fb t
      ∷ Pose.py fb t
      ∷ Pose.pz fb t
      ∷ Pose.rx fb t
      ∷ Pose.ry fb t
      ∷ Pose.rz fb t
      ∷ Pose.rw_field fb t
      ∷ []

  -- The pose that the Salvia node writes back can be read, and its accessors give the seven random
  -- numbers in the order in which they were added, where -0.0 is read as 0.0. The builder and the
  -- tables of FlatBuffers are lawful.
  pub pose_message-numbers :
      (a0 a1 a2 a3 a4 a5 a6 : ℕ)
      → (t : Table) × ((get_size_prefixed_root_as fb (pose_message api a0 a1 a2 a3 a4 a5 a6) 0
            ≡ ok t)
          × (numbers t ≡ map normal (a0 ∷ a1 ∷ a2 ∷ a3 ∷ a4 ∷ a5 ∷ a6 ∷ [])))
  unfolding pose_message Pose.px Pose.py Pose.pz Pose.rx Pose.ry Pose.rz Pose.rw_field
  pose_message-numbers a0 a1 a2 a3 a4 a5 a6 =
      let xs = a0 ∷ a1 ∷ a2 ∷ a3 ∷ a4 ∷ a5 ∷ a6 ∷ [] in
      let start = api.start_object 8 api.new_builder in
      let added = add_floats api 0 xs start in
      let b = (api.end_object added).1 in
      let o = (api.end_object added).0 in
      let (fits, (n, (root, reads))) = B.finished b o (B.fields added) (B.ended added) in
      let bytes = api.finished_bytes (api.finish_size_prefixed o b) in
      let t : Table = record { bytes = bytes; pos = uoffset (n + fb.size_uint32) } in
      let read : (m x : ℕ)
          → m < 64
          → get_elem? xs m ≡ some x
          → float_field fb (slot_of m) t ≡ normal x =
        λ m x h e. float_field-float fb (B.written b) t m x (B.fields added m) (reads m h).0 (
          ap (B.fields added) {x = m} {y = 0 + m} (omega arith)
          ∙ fields_set 0 xs start m x (λ j. B.fields-start 8 (0 + j) api.new_builder) e) in
      (
        t,
        (
          root_found fb bytes n fits root,
          rw
              (
                read 0 a0 (omega arith) refl,
                read 1 a1 (omega arith) refl,
                read 2 a2 (omega arith) refl,
                read 3 a3 (omega arith) refl,
                read 4 a4 (omega arith) refl,
                read 5 a5 (omega arith) refl,
                read 6 a6 (omega arith) refl,
              )
              refl,
        ),
      )
