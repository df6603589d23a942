-- ===== src/Prelude/Text.antt =====
-- Texts as lists of code points, with the lengths in bytes that Rust's `len` gives.
use Prim.Native.Char.{code}
use Prim.Native.String.{String}
use Prim.Native.Nat.{ℕ, ◌+◌}
use mathlib.Core.Bool.{Bool, false, ◌||◌}
use mathlib.Core.Option.{Option, none, some}
use mathlib.Core.List.{List, [], ◌∷◌, ◌++◌}
use vecton.Prelude.Tests.{ltb, eqb, if◌then◌else◌}

abbrev pub codes : String → List ℕ
codes String.[] = []
codes (String.◌∷◌ c s) = code c ∷ codes s

-- The bytes of a code point in UTF-8.
abbrev pub utf8_len : ℕ → ℕ
utf8_len c = if ltb c 0x80 then 1 else if ltb c 0x800 then 2 else if ltb c 0x10000 then 3 else 4

abbrev bytes : List ℕ → ℕ
bytes [] = 0
bytes (c ∷ cs) = utf8_len c + bytes cs

-- str::len
unfoldable pub text_len : String → ℕ
text_len s = bytes (codes s)

abbrev has_code : ℕ → List ℕ → Bool
has_code c [] = false
has_code c (d ∷ ds) = eqb d c || has_code c ds

-- str::contains of one character
unfoldable pub text_contains : ℕ → String → Bool
text_contains c s = has_code c (codes s)

-- join of a list of texts
unfoldable pub join : ℕ → List String → List ℕ
join separator [] = []
join separator (s ∷ []) = codes s
join separator (s ∷ t ∷ ts) = codes s ++ (separator ∷ join separator (t ∷ ts))

-- str::strip_prefix
unfoldable pub strip_prefix : List ℕ → List ℕ → Option (List ℕ)
strip_prefix [] text = some text
strip_prefix (c ∷ cs) [] = none
strip_prefix (c ∷ cs) (d ∷ ds) = if eqb c d then strip_prefix cs ds else none
