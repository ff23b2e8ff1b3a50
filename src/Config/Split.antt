-- ===== src/Config/Split.antt =====
-- `strings.Split(s, ",")`.
use Prim.Native.Char.{Char, code}
use Prim.Native.String.{String}
use libp2p_experiment.Base.{Bool, List, [], ◌∷◌, if◌then◌else◌, ◌==◌, nat_eq}

abbrev is_comma : Char → Bool
is_comma c = code c == b','

-- One more character in front of the first piece.
abbrev extend : Char → List String → List String
extend c [] = String.◌∷◌ c String.[] ∷ []
extend c (piece ∷ pieces) = String.◌∷◌ c piece ∷ pieces

unfoldable pub split_commas : String → List String
split_commas String.[] = String.[] ∷ []
split_commas (String.◌∷◌ c s) =
    let rest = split_commas s in if is_comma c then String.[] ∷ rest else extend c rest
