-- ===== src/Text.antt =====
-- `std::string` as its bytes, with what the engine uses of it: comparison in the order of
-- `std::map` keys, `starts_with`, `find`, `substr`, `trim`, and `std::to_string` of an `int`.
pub mod Order
pub mod Decimal
pub mod Parts
use Prim.Native.Char.{code}
use Prim.Native.String.{String}
use smartmet_engine_sputnik.Prelude.{
  ℕ, zero, suc, ◌+◌, ◌-◌, ◌*◌, ◌/◌, ◌%◌, Bool, true, false, not, ◌&&◌, ◌||◌, List, [], ◌∷◌, ◌++◌,
  Option, none, some, ltb, leb, ◌==◌, if◌then◌else◌, ℤ, pos, negsuc,
}
use mathlib.Core.List.{reverse}

abbrev pub Str : Type 0
Str = List ℕ

-- The bytes of an ASCII literal.
abbrev pub codes : String → Str
codes String.[] = []
codes (String.◌∷◌ c s) = code c ∷ codes s

unfoldable pub str_eq : Str → Str → Bool
str_eq [] [] = true
str_eq [] (b ∷ t) = false
str_eq (a ∷ s) [] = false
str_eq (a ∷ s) (b ∷ t) = a == b && str_eq s t

-- `operator<` compares the bytes as unsigned numbers.
unfoldable pub str_lt : Str → Str → Bool
str_lt s [] = false
str_lt [] (b ∷ t) = true
str_lt (a ∷ s) (b ∷ t) = ltb a b || (a == b && str_lt s t)

-- `starts_with s p`: does `s` begin with `p`?
unfoldable pub starts_with : Str → Str → Bool
starts_with s [] = true
starts_with [] (b ∷ p) = false
starts_with (a ∷ s) (b ∷ p) = a == b && starts_with s p

-- `find(c)` with the two calls of `substr` that follow it: what stands before the first `c`, and
-- what stands behind it. `none` is `npos`.
unfoldable pub split_at : ℕ → Str → Option (Str × Str)
split_at c [] = none
split_at c (a ∷ s) =
    if a == c
    then some ([], s)
    else elim (split_at c s) [ none ↦ none | some (l, r) ↦ some (a ∷ l, r) ]

-- The parts between the separators `c`, as `boost::algorithm::split` gives them: at least one.
unfoldable pub split_go : ℕ → Str → Str → List Str
split_go c part [] = reverse part ∷ []
split_go c part (a ∷ s) =
    let done = reverse part ∷ split_go c [] s in
    let more = split_go c (a ∷ part) s in if a == c then done else more

unfoldable pub split : ℕ → Str → List Str
unfolding split_go
split c s = split_go c [] s

-- `std::isspace` in the classic locale.
abbrev pub is_space : ℕ → Bool
is_space c = c == 32 || (leb 9 c && leb c 13)

unfoldable pub trim_left : Str → Str
trim_left [] = []
trim_left (a ∷ s) = if is_space a then trim_left s else a ∷ s

unfoldable pub trim : Str → Str
unfolding trim_left
trim s = reverse (trim_left (reverse (trim_left s)))

-- `std::to_string`. The fuel is a number above the value; each round divides the value by ten.
unfoldable pub digits : ℕ → ℕ → Str
digits zero n = []
digits (suc f) n =
    let more = digits f (n / 10) ++ (b'0' + n % 10) ∷ [] in
    if ltb n 10 then (b'0' + n) ∷ [] else more

unfoldable pub to_string : ℤ → Str
unfolding digits
to_string (pos n) = digits (suc n) n
to_string (negsuc n) = b'-' ∷ digits (suc (suc n)) (suc n)
