-- ===== src/Prelude/Text.antt =====
-- Python's `str` as the list of its code points, with the methods that the source calls.
use Prim.Native.Nat.{ℕ, zero, suc, ◌+◌, ◌-◌}
use Prim.Native.Char.{code}
use Prim.Native.String.{String}
use mathlib.Core.Bool.{Bool, true, false, ◌&&◌, ◌||◌}
use mathlib.Core.List.{List, [], ◌∷◌, ◌++◌, reverse, map}
use ocean_data_engine_fronte.Prelude.Tests.{leb, ◌==◌, if◌then◌else◌}

abbrev pub Text : Type 0
Text = List ℕ

abbrev pub codes : String → Text
codes String.[] = []
codes (String.◌∷◌ c s) = code c ∷ codes s

abbrev pub text_eq : Text → Text → Bool
text_eq [] [] = true
text_eq (a ∷ s) (b ∷ t) = a == b && text_eq s t
text_eq _ _ = false

-- str.isspace
abbrev pub is_space : ℕ → Bool
is_space c =
    (leb 9 c && leb c 13)
    || (leb 28 c && leb c 32)
    || c == 0x85
    || c == 0xa0
    || c == 0x1680
    || (leb 0x2000 c && leb c 0x200a)
    || c == 0x2028
    || c == 0x2029
    || c == 0x202f
    || c == 0x205f
    || c == 0x3000

abbrev pub lstrip : (ℕ → Bool) → Text → Text
lstrip p [] = []
lstrip p (c ∷ s) = let rest = lstrip p s in if p c then rest else c ∷ s

abbrev pub rstrip : (ℕ → Bool) → Text → Text
rstrip p s = reverse (lstrip p (reverse s))

-- str.strip()
unfoldable pub strip : Text → Text
strip s = rstrip is_space (lstrip is_space s)

-- str.lower(), on the letters of ASCII; others are left as they are
abbrev pub lower_code : ℕ → ℕ
lower_code c = if leb b'A' c && leb c b'Z' then c + 32 else c

unfoldable pub lower : Text → Text
lower s = map lower_code s

-- A word is put before the words that follow, if it is one.
abbrev pub push_word : Text → List Text → List Text
push_word [] words = words
push_word (c ∷ w) words = (c ∷ w) ∷ words

-- the word that the text begins with, read up to here, and the words after it
abbrev pub split_from : Text → Text → List Text
split_from word [] = push_word word []
split_from word (c ∷ s) =
    let inside = split_from (word ++ c ∷ []) s in
    let outside = push_word word (split_from [] s) in if is_space c then outside else inside

-- str.split()
unfoldable pub split : Text → List Text
split s = split_from [] s

-- " ".join(words)
unfoldable pub join : List Text → Text
join [] = []
join (w ∷ []) = w
join (w ∷ v ∷ words) = w ++ 32 ∷ join (v ∷ words)

-- s.startswith(t)
abbrev pub starts : Text → Text → Bool
starts s [] = true
starts [] (d ∷ t) = false
starts (c ∷ s) (d ∷ t) = c == d && starts s t

-- t in s
abbrev pub has_text : Text → Text → Bool
has_text [] t = starts [] t
has_text (c ∷ s) t = starts (c ∷ s) t || has_text s t

-- the number of code points
abbrev pub size : Text → ℕ
size [] = 0
size (c ∷ s) = suc (size s)

-- s.split(sep) for a separator that is not empty, from within a part, with so many code points of a
-- separator left to pass over
abbrev pub split_sep_from : Text → Text → ℕ → Text → List Text
split_sep_from sep part skip [] = part ∷ []
split_sep_from sep part (suc k) (c ∷ s) = split_sep_from sep part k s
split_sep_from sep part zero (c ∷ s) =
    let cut = part ∷ split_sep_from sep [] (size sep - 1) s in
    let on = split_sep_from sep (part ++ c ∷ []) zero s in if starts (c ∷ s) sep then cut else on

unfoldable pub split_sep : Text → Text → List Text
split_sep sep s = split_sep_from sep [] 0 s
