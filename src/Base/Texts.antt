-- ===== src/Base/Texts.antt =====
-- A JavaScript string as the list of its UTF-16 code units.
use Prim.Native.Nat.{ℕ, ◌+◌, ◌-◌, ◌/◌, ◌%◌}
use Prim.Native.Char.{code}
use Prim.Native.String.{String}
use mathlib.Core.List.{List, [], ◌∷◌, ◌++◌}
use folder_forge.Base.Tests.{ltb, if◌then◌else◌}

abbrev pub code_units : ℕ → List ℕ
code_units c =
    if ltb c 0x10000
    then c ∷ []
    else (0xD800 + (c - 0x10000) / 0x400) ∷ (0xDC00 + (c - 0x10000) % 0x400) ∷ []

unfoldable pub utf16 : String → List ℕ
utf16 String.[] = []
utf16 (String.◌∷◌ c s) = code_units (code c) ++ utf16 s
