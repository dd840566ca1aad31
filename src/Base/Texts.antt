-- ===== src/Base/Texts.antt =====
-- Splitting texts, as `str.split` does.
use Prim.Native.Char.{Char, code}
use Prim.Native.String.{String}
use auto_xdp.Base.Tests.{
  ℕ, nat_key, ◌==◌, ◌≡◌, refl, List, [], ◌∷◌, Bool, true, false, ◌||◌, ◌&&◌, if◌then◌else◌, leb,
}
use mathlib.Core.Option.{Option, none, some}

abbrev with_first : Char → Option (String × String) → Option (String × String)
with_first c none = none
with_first c (some (before, behind)) = some (String.◌∷◌ c before, behind)

-- `text.split(sep, 1)`, or `none` if there is no separator
unfoldable pub split_once : ℕ → String → Option (String × String)
split_once sep String.[] = none
split_once sep (String.◌∷◌ c line) =
    let more = with_first c (split_once sep line) in if code c == sep then some ("", line) else more

abbrev onto_first : Char → List String → List String
onto_first c [] = String.◌∷◌ c "" ∷ []
onto_first c (part ∷ parts) = String.◌∷◌ c part ∷ parts

-- `text.split(sep)`
unfoldable pub split : ℕ → String → List String
split sep String.[] = "" ∷ []
split sep (String.◌∷◌ c line) =
    let parts = split sep line in if code c == sep then "" ∷ parts else onto_first c parts

-- `c.isspace()`
abbrev is_space : ℕ → Bool
is_space c =
    leb 9 c && leb c 13
    || leb 28 c && leb c 32
    || c == 0x85
    || c == 0xA0
    || c == 0x1680
    || leb 0x2000 c && leb c 0x200A
    || c == 0x2028
    || c == 0x2029
    || c == 0x202F
    || c == 0x205F
    || c == 0x3000

-- the words with the part of one that the text begins with
abbrev word_first : String → List String → List String
word_first String.[] parts = parts
word_first part parts = part ∷ parts

words_from : String → String × List String
words_from String.[] = ("", [])
words_from (String.◌∷◌ c line) =
    let (part, parts) = words_from line in
    if is_space (code c) then ("", word_first part parts) else (String.◌∷◌ c part, parts)

-- `text.split()`
unfoldable pub words : String → List String
unfolding words_from
words line = let (part, parts) = words_from line in word_first part parts

words_runs : words " http\t 80/tcp  www " ≡ "http" ∷ "80/tcp" ∷ "www" ∷ []
unfolding words
words_runs = refl

abbrev is_blank : String → Bool
is_blank String.[] = true
is_blank line = false

lstrip : String → String
lstrip String.[] = String.[]
lstrip (String.◌∷◌ c line) =
    let rest = lstrip line in if is_space (code c) then rest else String.◌∷◌ c line

rstrip : String → String
rstrip String.[] = String.[]
rstrip (String.◌∷◌ c line) =
    let rest = rstrip line in
    if is_blank rest && is_space (code c) then String.[] else String.◌∷◌ c rest

-- `text.strip()`
unfoldable pub strip : String → String
unfolding lstrip rstrip
strip line = rstrip (lstrip line)

strip_runs : strip " a b\t" ≡ "a b"
unfolding strip
strip_runs = refl
