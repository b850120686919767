-- ===== src/Common/Texts.antt =====
-- Texts: `s.trim() === ""`, by the white space and line terminators of ECMAScript.
use Prim.Native.Nat.{ℕ}
use Prim.Native.Char.{code}
use Prim.Native.String.{String, [], ◌∷◌}
use mathlib.Core.Bool.{Bool, true, ◌&&◌, ◌||◌}
use ensen_flow.Common.Tests.{leb, eqb}

abbrev pub is_white_space : ℕ → Bool
is_white_space c =
    (leb 9 c && leb c 13)
    || eqb c 32
    || eqb c 160
    || eqb c 5760
    || (leb 8192 c && leb c 8202)
    || eqb c 8232
    || eqb c 8233
    || eqb c 8239
    || eqb c 8287
    || eqb c 12288
    || eqb c 65279

unfoldable pub is_blank : String → Bool
is_blank [] = true
is_blank (c ∷ s) = is_white_space (code c) && is_blank s
