-- ===== src/Common/Texts.antt =====
-- Texts that are put together: `+`, template literals and `join`.
use Prim.Native.String.{String, ◌++◌ as ◌++ₛ◌}
use mathlib.Core.List.{List, [], ◌∷◌}

infixr 5 ◌<>◌
-- The concatenation of two strings.
abbrev pub ◌<>◌ : String → String → String
s <> t = s ++ₛ t

-- `xs.join(separator)`.
abbrev pub join : String → List String → String
join separator [] = ""
join separator (x ∷ []) = x
join separator (x ∷ y ∷ xs) = x <> separator <> join separator (y ∷ xs)
