-- ===== src/Base/Utf8.antt =====
-- Texts measured and cut by the bytes of their UTF-8. A cut that is out of range or inside a character
-- is a panic, `none`.
use Prim.Native.Char.{code}
use Prim.Native.String.{String, [] as end_of_text, ◌∷◌ as ◌∷ˢ◌}
use Prim.Native.Nat.{ℕ, zero, suc, ◌+◌, ◌-◌, ◌≤◌, ◌<◌}
use mathlib.Core.Path.{◌≡◌, refl}
use mathlib.Core.Option.{Option, none, some}
use native.Mathlib.Omega.{arith}
use bksd.Base.Tests.{ltb, leb, if◌then◌else◌}
use bksd.Base.Options.{◌>>=◌}

unfoldable pub len_utf8 : ℕ → ℕ
len_utf8 c = if ltb c 0x80 then 1 else if ltb c 0x800 then 2 else if ltb c 0x10000 then 3 else 4

-- `len`
unfoldable pub byte_len : String → ℕ
byte_len end_of_text = 0
byte_len (c ∷ˢ s) = len_utf8 (code c) + byte_len s

abbrev cons_char : Prim.Native.Char.Char → Option String → Option String
cons_char c none = none
cons_char c (some s) = some (c ∷ˢ s)

-- `&s[..n]`
unfoldable pub take_bytes : ℕ → String → Option String
take_bytes n end_of_text = if leb n 0 then some end_of_text else none
take_bytes n (c ∷ˢ s) =
    let rest = cons_char c (take_bytes (n - len_utf8 (code c)) s) in
    if leb n 0 then some end_of_text else if leb (len_utf8 (code c)) n then rest else none

-- `&s[n..]`
unfoldable pub drop_bytes : ℕ → String → Option String
drop_bytes n end_of_text = if leb n 0 then some end_of_text else none
drop_bytes n (c ∷ˢ s) =
    let rest = drop_bytes (n - len_utf8 (code c)) s in
    if leb n 0 then some (c ∷ˢ s) else if leb (len_utf8 (code c)) n then rest else none

-- `&s[from..to]`
abbrev pub slice : ℕ → ℕ → String → Option String
slice from to s = take_bytes to s >>= drop_bytes from

abbrev pub IsAscii : String → Type 0
IsAscii end_of_text = Unit
IsAscii (c ∷ˢ s) = (code c < 0x80) × IsAscii s

-- Every cut of an ASCII text within its length is one.
pub take_bytes-IsAscii :
    (n : ℕ) (s : String)
    → IsAscii s
    → n ≤ byte_len s
    → (t : String) × (take_bytes n s ≡ some t) × IsAscii t × (byte_len t ≡ n)
unfolding take_bytes byte_len len_utf8
take_bytes-IsAscii n end_of_text h k = (end_of_text, ground arith, tt, omega arith)
take_bytes-IsAscii zero (c ∷ˢ s) h k = (end_of_text, refl, tt, refl)
take_bytes-IsAscii (suc n) (c ∷ˢ s) h k =
    let (t, e, ascii, size) = take_bytes-IsAscii n s h.1 (ground arith) in
    (c ∷ˢ t, ground arith, (h.0, ascii), ground arith)

pub drop_bytes-IsAscii :
    (n : ℕ) (s : String) → IsAscii s → n ≤ byte_len s → (t : String) × (drop_bytes n s ≡ some t)
unfolding drop_bytes byte_len len_utf8
drop_bytes-IsAscii n end_of_text h k = (end_of_text, ground arith)
drop_bytes-IsAscii zero (c ∷ˢ s) h k = (c ∷ˢ s, refl)
drop_bytes-IsAscii (suc n) (c ∷ˢ s) h k =
    let (t, e) = drop_bytes-IsAscii n s h.1 (ground arith) in (t, ground arith)

pub slice-IsAscii :
    (from to : ℕ) (s : String)
    → IsAscii s
    → from ≤ to
    → to ≤ byte_len s
    → (t : String) × (slice from to s ≡ some t)
slice-IsAscii from to s h k l =
    let (t, e, ascii, size) = take_bytes-IsAscii to s h l in
    let (u, d) = drop_bytes-IsAscii from t ascii (omega arith) in (u, rw e d)

-- The bytes of a character may not be parted.
inside_a_character : take_bytes 1 "é" ≡ none
unfolding take_bytes len_utf8
inside_a_character = refl
