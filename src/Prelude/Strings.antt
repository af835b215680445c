-- ===== src/Prelude/Strings.antt =====
-- Go strings as sequences of bytes, and the functions of Go's `strings` and `strconv` packages
-- that the code calls.
use Prim.Native.Char.{code}
use Prim.Native.String.{String}
use Prim.Native.Nat.{ℕ, zero, suc, ◌+◌, ◌-◌, ◌/◌, ◌%◌}
use mathlib.Core.Path.{◌≡◌, refl}
use mathlib.Core.Bool.{Bool, true, false, ◌&&◌, ◌||◌}
use mathlib.Core.List.{List, [], ◌∷◌, ◌++◌, map}
use native.Mathlib.Omega.{arith}
use otel_policy_lab.Prelude.Tests.{if◌then◌else◌, ltb, leb, nat_eq, text_eq, text_eq_iff, Eq}

abbrev pub Text : Type 0
Text = List ℕ

instance abbrev pub text_Eq : Eq Text
text_Eq = record { beq = text_eq; beq_iff = text_eq_iff }

-- The bytes of an ASCII literal.
abbrev pub codes : String → Text
codes String.[] = []
codes (String.◌∷◌ c s) = code c ∷ codes s

-- `s < t` on strings: the order of the bytes, a proper prefix first.
unfoldable pub text_lt : Text → Text → Bool
text_lt s [] = false
text_lt [] (d ∷ t) = true
text_lt (c ∷ s) (d ∷ t) = ltb c d || (nat_eq c d && text_lt s t)

pub text_lt_irrefl : (s : Text) → text_lt s s ≡ false
unfolding text_lt
text_lt_irrefl [] = refl
text_lt_irrefl (c ∷ s) = ground (arith, text_lt_irrefl s)

pub text_lt_trans : (r s t : Text) → text_lt r s ≡ true → text_lt s t ≡ true → text_lt r t ≡ true
unfolding text_lt
text_lt_trans r s [] h k = ground arith
text_lt_trans r [] (e ∷ t) h k = ground arith
text_lt_trans [] (d ∷ s) (e ∷ t) h k = refl
text_lt_trans (c ∷ r) (d ∷ s) (e ∷ t) h k = ground (arith, text_lt_trans r s t)

pub text_lt_connected : (s t : Text) → text_lt s t ≡ false → text_lt t s ≡ false → s ≡ t
unfolding text_lt
text_lt_connected [] [] h k = refl
text_lt_connected [] (d ∷ t) h k = ground arith
text_lt_connected (c ∷ s) [] h k = ground arith
text_lt_connected (c ∷ s) (d ∷ t) h k = ground (arith, text_lt_connected s t)

-- `strings.HasPrefix(s, p)`
unfoldable pub has_prefix : Text → Text → Bool
has_prefix s [] = true
has_prefix [] (c ∷ p) = false
has_prefix (d ∷ s) (c ∷ p) = nat_eq d c && has_prefix s p

-- `strings.Contains(s, p)`
unfoldable pub contains_text : Text → Text → Bool
unfolding has_prefix
contains_text [] p = has_prefix [] p
contains_text (c ∷ s) p = has_prefix (c ∷ s) p || contains_text s p

-- `strings.ReplaceAll(s, old, new)` for a text `old` of one byte
unfoldable pub replace_byte : ℕ → Text → Text → Text
replace_byte old new [] = []
replace_byte old new (c ∷ s) = (if nat_eq c old then new else c ∷ []) ++ replace_byte old new s

-- `strings.SplitN(s, sep, 2)[0]` and `strings.Split(s, sep)[0]` for a separator of one byte
unfoldable pub before : ℕ → Text → Text
before sep [] = []
before sep (c ∷ s) = if nat_eq c sep then [] else c ∷ before sep s

-- `strings.Join(parts, sep)`
unfoldable pub join : Text → List Text → Text
join sep [] = []
join sep (p ∷ []) = p
join sep (p ∷ q ∷ rest) = p ++ (sep ++ join sep (q ∷ rest))

-- The digits of `n` in front of `rest`. The fuel bounds the number of digits.
unfoldable pub digits : ℕ → ℕ → Text → Text
digits zero n rest = rest
digits (suc f) n rest =
    let more = digits f (n / 10) ((b'0' + n % 10) ∷ rest) in
    if ltb n 10 then (b'0' + n) ∷ rest else more

-- `strconv.Itoa(n)` of a number that is not negative
unfoldable pub itoa : ℕ → Text
unfolding digits
itoa n = digits (suc n) n []

abbrev pub is_ascii : Text → Bool
is_ascii [] = true
is_ascii (c ∷ s) = ltb c 128 && is_ascii s

unfoldable pub lower_byte : ℕ → ℕ
lower_byte c = if leb b'A' c && leb c b'Z' then c + 32 else c

unfoldable pub upper_byte : ℕ → ℕ
upper_byte c = if leb b'a' c && leb c b'z' then c - 32 else c

-- `strings.ToLower` and `strings.ToUpper`: bytes of an ASCII text are mapped one by one, any other
-- text goes through the Unicode tables, which are the parameter.
unfoldable pub to_lower : (Text → Text) → Text → Text
unfolding lower_byte
to_lower unicode s = if is_ascii s then map lower_byte s else unicode s

unfoldable pub to_upper : (Text → Text) → Text → Text
unfolding upper_byte
to_upper unicode s = if is_ascii s then map upper_byte s else unicode s
