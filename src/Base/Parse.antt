-- ===== src/Base/Parse.antt =====
-- Characters by their code points, and the parts of `str` that read text: `split_whitespace`, `trim`,
-- `to_lowercase` and `parse` into an unsigned number.
use Prim.Native.Char.{code}
use Prim.Native.String.{String, [] as end_of_text, ◌∷◌ as ◌∷ˢ◌, ◌++◌ as ◌<>◌}
use Prim.Native.Nat.{ℕ, ◌+◌, ◌-◌, ◌*◌}
use mathlib.Core.Path.{◌≡◌, refl}
use mathlib.Core.Bool.{Bool, ◌&&◌, ◌||◌}
use mathlib.Core.Option.{Option, none, some}
use mathlib.Core.List.{List, [], ◌∷◌, map}
use bksd.Base.Tests.{ltb, leb, if◌then◌else◌}
use bksd.Base.Equality.{◌==◌, nat_eq, string_eq}

abbrev pub codes : String → List ℕ
codes end_of_text = []
codes (c ∷ˢ s) = code c ∷ codes s

-- `char::is_whitespace`: the property White_Space.
unfoldable pub is_whitespace : ℕ → Bool
is_whitespace c =
    (leb 9 c && leb c 13)
    || c == 32
    || c == 0x85
    || c == 0xA0
    || c == 0x1680
    || (leb 0x2000 c && leb c 0x200A)
    || c == 0x2028
    || c == 0x2029
    || c == 0x202F
    || c == 0x205F
    || c == 0x3000

unfoldable pub is_digit : ℕ → Bool
is_digit c = leb b'0' c && leb c b'9'

abbrev push_word : String → List String → List String
push_word word words = if word == "" then words else word ∷ words

-- The words of a text, the first of which has begun with `word`.
unfoldable pub words_from : String → String → List String
words_from word end_of_text = push_word word []
words_from word (c ∷ˢ s) =
    let next = words_from "" s in
    let longer = words_from (word <> (c ∷ˢ end_of_text)) s in
    if is_whitespace (code c) then push_word word next else longer

abbrev pub split_whitespace : String → List String
split_whitespace s = words_from "" s

-- The ASCII letters; no other character has a lower case among the letters of the names that the
-- code compares with.
unfoldable pub lower_code : ℕ → ℕ
lower_code c = if leb b'A' c && leb c b'Z' then c + 32 else c

abbrev pub to_lowercase : String → List ℕ
to_lowercase s = map lower_code (codes s)

abbrev drop_space : List ℕ → List ℕ
drop_space [] = []
drop_space (c ∷ s) = if is_whitespace c then drop_space s else c ∷ s

abbrev drop_space_end : List ℕ → List ℕ
drop_space_end [] = []
drop_space_end (c ∷ s) = push_unless (drop_space_end s)
  where
    push_unless : List ℕ → List ℕ
    push_unless [] = if is_whitespace c then [] else c ∷ []
    push_unless (d ∷ r) = c ∷ d ∷ r

abbrev pub trim : List ℕ → List ℕ
trim s = drop_space_end (drop_space s)

-- The digits behind `acc`, below `bound`.
unfoldable pub parse_digits : ℕ → ℕ → List ℕ → Option ℕ
parse_digits bound acc [] = some acc
parse_digits bound acc (c ∷ s) =
    let next = acc * 10 + (c - b'0') in
    let rest = parse_digits bound next s in if is_digit c && ltb next bound then rest else none

abbrev parse_unsigned : ℕ → List ℕ → Option ℕ
parse_unsigned bound [] = none
parse_unsigned bound (c ∷ s) = parse_digits bound 0 (c ∷ s)

-- `parse` into an unsigned integer below `bound`: one sign `+` is let through.
unfoldable pub parse_below : ℕ → List ℕ → Option ℕ
parse_below bound [] = none
parse_below bound (c ∷ s) =
    if c == b'+' then parse_unsigned bound s else parse_unsigned bound (c ∷ s)

parse_below_runs : parse_below 256 (codes "045") ≡ some 45
unfolding parse_below parse_digits is_digit
parse_below_runs = refl

parse_below_overflow : parse_below 256 (codes "256") ≡ none
unfolding parse_below parse_digits is_digit
parse_below_overflow = refl

split_whitespace_runs :
    split_whitespace "  /dev/sdb1 /mnt  ext4" ≡ "/dev/sdb1" ∷ "/mnt" ∷ "ext4" ∷ []
unfolding words_from is_whitespace
split_whitespace_runs = refl

trim_runs : trim (codes " 12\n") ≡ codes "12"
unfolding is_whitespace
trim_runs = refl
