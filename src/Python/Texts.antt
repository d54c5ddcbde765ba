-- ===== src/Python/Texts.antt =====
-- `str.strip` and tests on the characters of a text.
use Prim.Native.Char.{code}
use robot_core.Prelude.{
  ◌+◌, false, map, codes, ℕ, String, Bool, true, ◌&&◌, ◌||◌, List, [], ◌∷◌, leb, ◌==◌, str_eq,
  if◌then◌else◌,
}

-- The characters that Python's `strip` removes.
unfoldable pub is_space : ℕ → Bool
is_space c =
    (leb 9 c && leb c 13)
    || (leb 28 c && leb c 32)
    || (c == 0x85)
    || (c == 0xa0)
    || (c == 0x1680)
    || (leb 0x2000 c && leb c 0x200a)
    || (c == 0x2028)
    || (c == 0x2029)
    || (c == 0x202f)
    || (c == 0x205f)
    || (c == 0x3000)

strip_left : String → String
strip_left String.[] = ""
strip_left (String.◌∷◌ c s) = if is_space (code c) then strip_left s else String.◌∷◌ c s

strip_right : String → String
strip_right String.[] = ""
strip_right (String.◌∷◌ c s) =
    let rest = strip_right s in
    if is_space (code c) && str_eq rest "" then "" else String.◌∷◌ c rest

-- `s.strip()`
unfoldable pub strip : String → String
unfolding strip_left strip_right is_space
strip s = strip_right (strip_left s)

-- `[a-z0-9]`
unfoldable pub is_word_start : ℕ → Bool
is_word_start c = (leb b'a' c && leb c b'z') || (leb b'0' c && leb c b'9')

-- `[a-z0-9_-]`
unfoldable pub is_word : ℕ → Bool
unfolding is_word_start
is_word c = is_word_start c || (c == b'_') || (c == b'-')

unfoldable pub all_of : (ℕ → Bool) → List ℕ → Bool
all_of p [] = true
all_of p (c ∷ cs) = p c && all_of p cs

abbrev lower_code : ℕ → ℕ
lower_code c = if leb b'A' c && leb c b'Z' then c + 32 else c

codes_eq : List ℕ → List ℕ → Bool
codes_eq [] [] = true
codes_eq (a ∷ as_) (b ∷ bs) = (a == b) && codes_eq as_ bs
codes_eq _ _ = false

-- `a.lower() == b.lower()`; letters outside ASCII are compared as they stand.
unfoldable pub eq_lowered : String → String → Bool
unfolding codes_eq
eq_lowered a b = codes_eq (map lower_code (codes a)) (map lower_code (codes b))
