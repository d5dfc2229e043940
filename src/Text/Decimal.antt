-- ===== src/Text/Decimal.antt =====
-- `to_string` is injective, and so is a name followed by a colon and a number.
use smartmet_engine_sputnik.Prelude.{
  ℕ, zero, suc, ◌+◌, ◌-◌, ◌*◌, ◌/◌, ◌%◌, ◌<◌, ◌≡◌, refl, sym, ap, ◌∙◌, Bool, true, false, ◌||◌, [],
  ◌∷◌, ◌++◌, ltb, ◌==◌, Bool-cases, inl, inr, ℤ, pos, negsuc, arith,
}
use smartmet_engine_sputnik.Text.{Str, digits, to_string}

contains : ℕ → Str → Bool
contains c [] = false
contains c (a ∷ s) = a == c || contains c s

contains-append_cons : (c : ℕ) (s t : Str) → contains c (s ++ c ∷ t) ≡ true
unfolding contains
contains-append_cons c [] t = ground arith
contains-append_cons c (a ∷ s) t = ground (arith, contains-append_cons c s t)

contains-append_one :
    (c d : ℕ) (s : Str) → contains c s ≡ false → (d == c) ≡ false → contains c (s ++ d ∷ []) ≡ false
unfolding contains
contains-append_one c d [] h k = ground arith
contains-append_one c d (a ∷ s) h k = ground (arith, contains-append_one c d s)

-- The digits are digits.
contains-digits : (c f n : ℕ) → c < 48 → contains c (digits f n) ≡ false
unfolding contains digits
contains-digits c zero n h = refl
contains-digits c (suc f) n h = elim (Bool-cases (ltb n 10)) [
  | inl small ↦ rw small (ground arith)
  | inr large ↦ rw large (
      contains-append_one c (48 + n % 10) (digits f (n / 10)) (contains-digits c f (n / 10) h)
        (ground arith))
]

contains_colon-digits : (f n : ℕ) → contains b':' (digits f n) ≡ false
unfolding contains digits
contains_colon-digits zero n = refl
contains_colon-digits (suc f) n = elim (Bool-cases (ltb n 10)) [
  | inl small ↦ rw small (ground arith)
  | inr large ↦ rw large (
      contains-append_one b':' (48 + n % 10) (digits f (n / 10)) (contains_colon-digits f (n / 10))
        (ground arith))
]

contains_colon-to_string : (a : ℤ) → contains b':' (to_string a) ≡ false
unfolding contains to_string
contains_colon-to_string (pos n) = contains_colon-digits (suc n) n
contains_colon-to_string (negsuc n) = contains_colon-digits (suc (suc n)) (suc n)

value : ℕ → Str → ℕ
value acc [] = acc
value acc (c ∷ s) = value (acc * 10 + (c - 48)) s

value-append_one : (acc d : ℕ) (s : Str) → value acc (s ++ d ∷ []) ≡ value acc s * 10 + (d - 48)
unfolding value
value-append_one acc d [] = refl
value-append_one acc d (a ∷ s) = value-append_one (acc * 10 + (a - 48)) d s

-- With fuel above the number its digits stand for it.
value-digits : (f n : ℕ) → n < f → value 0 (digits f n) ≡ n
unfolding value digits
value-digits zero n h = absurd (omega arith)
value-digits (suc f) n h = elim (Bool-cases (ltb n 10)) [
  | inl small ↦ rw small (omega arith)
  | inr large ↦
      let ih : value 0 (digits f (n / 10)) ≡ n / 10 = value-digits f (n / 10) (ground arith) in
      rw large (value-append_one 0 (48 + n % 10) (digits f (n / 10)) ∙ omega arith)
]

to_string_minus : (m n : ℕ) (t : Str) → digits (suc m) n ≡ b'-' ∷ t → ⊥
unfolding contains
to_string_minus m n t e =
    let free : contains b'-' (digits (suc m) n) ≡ false =
      contains-digits b'-' (suc m) n (omega arith) in
    cc (sym (ap (contains b'-') e) ∙ free)

pub to_string_injective : (a b : ℤ) → to_string a ≡ to_string b → a ≡ b
unfolding to_string
to_string_injective (pos m) (pos n) e = ap pos (
    sym (value-digits (suc m) m (omega arith))
    ∙ ap (value 0) e
    ∙ value-digits (suc n) n (omega arith))
to_string_injective (pos m) (negsuc n) e = absurd (to_string_minus m m _ e)
to_string_injective (negsuc m) (pos n) e = absurd (to_string_minus n n _ (sym e))
to_string_injective (negsuc m) (negsuc n) e =
    let v : value 0 (b'-' ∷ digits (suc (suc m)) (suc m))
        ≡ value 0 (b'-' ∷ digits (suc (suc n)) (suc n)) =
      ap (value 0) e in
    let l = value-digits (suc (suc m)) (suc m) (omega arith) in
    let r = value-digits (suc (suc n)) (suc n) (omega arith) in
    ap negsuc (unfold value in omega arith)

tail_of : Str → Str
tail_of [] = []
tail_of (a ∷ s) = s

-- A colon that nothing but colon-free text follows is the last one.
colon_injective :
    (s t d e : Str)
    → contains b':' d ≡ false
    → contains b':' e ≡ false
    → s ++ b':' ∷ d ≡ t ++ b':' ∷ e
    → (s ≡ t) × (d ≡ e)
unfolding tail_of
colon_injective [] [] d e h k p = (refl, ap tail_of p)
colon_injective [] (b ∷ t) d e h k p =
    let q = ap tail_of p in cc (sym h ∙ ap (contains b':') q ∙ contains-append_cons b':' t e)
colon_injective (a ∷ s) [] d e h k p =
    let q = ap tail_of p in cc (sym k ∙ ap (contains b':') (sym q) ∙ contains-append_cons b':' s d)
colon_injective (a ∷ s) (b ∷ t) d e h k p =
    let ih = colon_injective s t d e h k (ap tail_of p) in (cc (p, ih.0), ih.1)

-- `name + ":" + std::to_string(port)` tells name and port apart, whatever bytes the name has.
pub name_number_injective :
    (s t : Str) (a b : ℤ) → s ++ b':' ∷ to_string a ≡ t ++ b':' ∷ to_string b → (s ≡ t) × (a ≡ b)
name_number_injective s t a b p =
    let r =
      colon_injective s t (to_string a) (to_string b) (contains_colon-to_string a)
        (contains_colon-to_string b) p in
    (r.0, to_string_injective a b r.1)
