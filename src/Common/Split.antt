-- ===== src/Common/Split.antt =====
-- strings.Split(s, "/"), and what it does to a text that two parts without a slash make.
use Prim.Native.Char.{Char, code}
use Prim.Native.String.{String}
use Prim.Native.String.{◌++◌ as concat}
use mathlib.Core.Path.{◌≡◌, refl}
use mathlib.Core.Bool.{Bool, false, ◌||◌}
use mathlib.Core.Option.{Option, none, some}
use mathlib.Core.List.{List, [], ◌∷◌}
use native.Mathlib.Omega.{arith}
use text.Mathlib.TextLemmas.{nil-append, cons-append}
use aks_flex.Common.Tests.{nat_beq, if◌then◌else◌}

abbrev pub is_slash : Char → Bool
is_slash c = nat_beq (code c) b'/'

-- A character before the first part.
abbrev pub prepend : Char → List String → List String
prepend c [] = String.◌∷◌ c String.[] ∷ []
prepend c (part ∷ parts) = String.◌∷◌ c part ∷ parts

unfoldable pub split : String → List String
split String.[] = String.[] ∷ []
split (String.◌∷◌ c s) =
    let rest = split s in if is_slash c then String.[] ∷ rest else prepend c rest

-- `parts[0]`, which a split always has, and `parts[1]`
abbrev pub first_part : List String → String
first_part [] = ""
first_part (x ∷ xs) = x

abbrev pub second_part : List String → Option String
second_part [] = none
second_part (x ∷ []) = none
second_part (x ∷ y ∷ rest) = some y

unfoldable pub has_slash : String → Bool
has_slash String.[] = false
has_slash (String.◌∷◌ c s) = is_slash c || has_slash s

-- A text without a slash is its only part.
pub split-whole : (s : String) → has_slash s ≡ false → split s ≡ s ∷ []
unfolding split has_slash
split-whole String.[] h = refl
split-whole (String.◌∷◌ c s) h = ground (arith, split-whole s)

-- What stands before the first slash is the first part.
pub split-append :
    (s t : String) → has_slash s ≡ false → split (concat s (concat "/" t)) ≡ s ∷ split t
unfolding split has_slash
split-append String.[] t h = rw (nil-append, cons-append, nil-append) (ground arith)
split-append (String.◌∷◌ c s) t h = rw (cons-append) (ground (arith, split-append s t))
