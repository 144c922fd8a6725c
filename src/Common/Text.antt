-- ===== src/Common/Text.antt =====
-- Text as bytes, and what the front ends use of Go's strings and strconv packages.
use Prim.Native.Char.{code}
use Prim.Native.String.{String}
use normalization_confluence.Common.{
  ℕ, ◌+◌, ◌-◌, ◌*◌, Bool, true, false, ◌&&◌, ◌||◌, List, [], ◌∷◌, ◌++◌, if◌then◌else◌, leb, ◌==◌,
}

abbrev pub Bytes : Type 0
Bytes = List ℕ

-- The bytes of a literal, which is ASCII here.
abbrev pub codes : String → Bytes
codes String.[] = []
codes (String.◌∷◌ c s) = code c ∷ codes s

-- Go's `==` on strings.
unfoldable pub eq_bytes : Bytes → Bytes → Bool
eq_bytes [] [] = true
eq_bytes (a ∷ s) (b ∷ t) = a == b && eq_bytes s t
eq_bytes _ _ = false

abbrev pub is_digit : ℕ → Bool
is_digit c = leb b'0' c && leb c b'9'

unfoldable pub all_digits : Bytes → Bool
all_digits [] = true
all_digits (c ∷ s) = is_digit c && all_digits s

-- The number that decimal digits write, after a prefix that wrote `acc`: strconv.ParseInt on
-- digits alone.
unfoldable pub digits_value : ℕ → Bytes → ℕ
digits_value acc [] = acc
digits_value acc (c ∷ s) = digits_value (acc * 10 + (c - b'0')) s

-- strings.NewReplacer("\n", " ", "\t", " ", "\r", " ").Replace
unfoldable pub replace_blanks : Bytes → Bytes
replace_blanks [] = []
replace_blanks (c ∷ s) =
    (if c == b'\n' || (c == b'\t' || c == b'\r') then b' ' else c) ∷ replace_blanks s

-- strings.Split(s, " "), with the field read so far.
unfoldable pub split_spaces : Bytes → Bytes → List Bytes
split_spaces field [] = field ∷ []
split_spaces field (c ∷ s) =
    let next = split_spaces [] s in
    let more = split_spaces (field ++ c ∷ []) s in if c == b' ' then field ∷ next else more

-- The loop that drops the empty fields.
unfoldable pub non_empty : List Bytes → List Bytes
non_empty [] = []
non_empty ([] ∷ ts) = non_empty ts
non_empty ((c ∷ t) ∷ ts) = (c ∷ t) ∷ non_empty ts

-- The tokens of a file: its fields between blanks.
unfoldable pub fields : Bytes → List Bytes
unfolding replace_blanks split_spaces non_empty
fields raw = non_empty (split_spaces [] (replace_blanks raw))
