-- ===== src/Prelude/Texts.antt =====
-- The functions of Go's `strings` package that the sources call, over code points.
use Prim.Native.Nat.{ℕ}
use Prim.Native.Char.{code}
use Prim.Native.String
use Prim.Native.String.{String, [], ◌∷◌}
use mathlib.Core.Bool.{Bool, true, false, ◌||◌}
use mathlib.Core.List as L
use mathlib.Core.List.{List}
use text.Mathlib.Text.{◌==◌ as str_eq}
use elephantine.Prelude.Tests.{if◌then◌else◌, ◌==◌}

infixr 65 ◌+++◌
abbrev pub ◌+++◌ : String → String → String
s +++ t = String.◌++◌ s t

-- strings.Split(s, sep) for a separator of one code point.
unfoldable pub split : String → ℕ → String → List String
split cur sep [] = L.◌∷◌ cur L.[]
split cur sep (c ∷ s) =
    let closed = split "" sep s in
    let longer = split (cur +++ (c ∷ [])) sep s in
    if code c == sep then L.◌∷◌ cur closed else longer

-- strings.Cut(s, sep) for a separator of one code point: what stands before the first separator,
-- what stands after it, and whether there is one.
unfoldable pub cut : String → ℕ → String → String × String × Bool
cut before sep [] = (before, "", false)
cut before sep (c ∷ s) =
    let later = cut (before +++ (c ∷ [])) sep s in
    if code c == sep then (before, s, true) else later

-- strings.HasSuffix(s, suffix)
unfoldable pub has_suffix : String → String → Bool
has_suffix [] suffix = str_eq [] suffix
has_suffix (c ∷ s) suffix = str_eq (c ∷ s) suffix || has_suffix s suffix

-- strings.Join(parts, sep)
unfoldable pub join : List String → String → String
join L.[] sep = ""
join (L.◌∷◌ s L.[]) sep = s
join (L.◌∷◌ s (L.◌∷◌ t ts)) sep = s +++ sep +++ join (L.◌∷◌ t ts) sep
