-- ===== src/Recorder/Camera.antt =====
-- example/thc/main.go, `cameraInput`: every fourth frame of the camera is encoded and handed on.
use libp2p_experiment.Base.{
  ℕ, suc, ◌+◌, ◌-◌, ◌/◌, ◌%◌, ◌≡◌, refl, List, [], ◌∷◌, ◌++◌, arith, length, if◌then◌else◌, ◌==◌,
  nat_eq,
}
use libp2p_experiment.Base.Effects.{Result, ok, err, crash}
use libp2p_experiment.Os.{Bytes}

-- What one read of the camera gives: no more frames, an empty image, or an image, with what the
-- encoder makes of it.
pub data Capture : Type 0 where
  unreadable : Capture
  blank : Capture
  image : Result Bytes → Capture

abbrev pub divider : ℕ
divider = 4

-- An encoder that fails is logged, and the frame is skipped.
abbrev encoded : Result Bytes → List Bytes → List Bytes
encoded (ok jpeg) rest = jpeg ∷ rest
encoded (err _) rest = rest
encoded (crash _) rest = rest

-- The loop, with the number of the last frame, and the frames that it hands on.
unfoldable pub camera_input : ℕ → List Capture → List Bytes
camera_input frame_num [] = []
camera_input frame_num (unreadable ∷ captures) = []
camera_input frame_num (blank ∷ captures) = camera_input frame_num captures
camera_input frame_num (image jpeg ∷ captures) =
    let rest = camera_input (suc frame_num) captures in
    if suc frame_num % divider == 0 then encoded jpeg rest else rest

-- A run of images that the encoder takes.
abbrev pub images : List Bytes → List Capture
images [] = []
images (b ∷ bs) = image (ok b) ∷ images bs

camera_input-from :
    (n : ℕ) (bs : List Bytes) → length (camera_input n (images bs)) ≡ (n + length bs) / 4 - n / 4
unfolding camera_input
camera_input-from n [] = omega arith
camera_input-from n (b ∷ bs) = ground (arith, camera_input-from (suc n) bs)

-- Of a run of images that the encoder takes, a quarter is handed on, rounded down.
pub length-camera_input : (bs : List Bytes) → length (camera_input 0 (images bs)) ≡ length bs / 4
length-camera_input bs = omega (arith, camera_input-from 0 bs)

-- Empty images are passed over without being counted: they change nothing, wherever they come.
pub camera_input-blank :
    (n : ℕ) (xs ys : List Capture) → camera_input n (xs ++ blank ∷ ys) ≡ camera_input n (xs ++ ys)
unfolding camera_input
camera_input-blank n [] ys = refl
camera_input-blank n (unreadable ∷ xs) ys = refl
camera_input-blank n (blank ∷ xs) ys = camera_input-blank n xs ys
camera_input-blank n (image jpeg ∷ xs) ys = rw (camera_input-blank (suc n) xs ys) refl
