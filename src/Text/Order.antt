-- ===== src/Text/Order.antt =====
-- Laws of the comparisons of strings.
use smartmet_engine_sputnik.Prelude.{◌≡◌, refl, ◌↔◌, true, false, [], ◌∷◌, ◌++◌, arith}
use smartmet_engine_sputnik.Text.{Str, str_eq, str_lt, starts_with}

pub str_eq_refl : (s : Str) → str_eq s s ≡ true
unfolding str_eq
str_eq_refl [] = refl
str_eq_refl (a ∷ s) = ground (arith, str_eq_refl s)

pub str_eq_sound : (s t : Str) → str_eq s t ≡ true → s ≡ t
unfolding str_eq
str_eq_sound [] [] h = refl
str_eq_sound [] (b ∷ t) h = cc
str_eq_sound (a ∷ s) [] h = cc
str_eq_sound (a ∷ s) (b ∷ t) h = ground (arith, str_eq_sound s t)

pub str_eq_iff : (s t : Str) → (str_eq s t ≡ true) ↔ (s ≡ t)
str_eq_iff s t = (str_eq_sound s t, λ e. ground (arith, str_eq_refl s))

pub str_eq_sym : (s t : Str) → str_eq s t ≡ str_eq t s
unfolding str_eq
str_eq_sym [] [] = refl
str_eq_sym [] (b ∷ t) = refl
str_eq_sym (a ∷ s) [] = refl
str_eq_sym (a ∷ s) (b ∷ t) = ground (arith, str_eq_sym s t)

pub str_lt_irrefl : (s : Str) → str_lt s s ≡ false
unfolding str_lt
str_lt_irrefl [] = refl
str_lt_irrefl (a ∷ s) = ground (arith, str_lt_irrefl s)

pub str_lt_trans : (r s t : Str) → str_lt r s ≡ true → str_lt s t ≡ true → str_lt r t ≡ true
unfolding str_lt
str_lt_trans r [] t h k = cc
str_lt_trans r (b ∷ s) [] h k = cc
str_lt_trans [] (b ∷ s) (c ∷ t) h k = refl
str_lt_trans (a ∷ r) (b ∷ s) (c ∷ t) h k = ground (arith, str_lt_trans r s t)

-- Of two different strings one is smaller.
pub str_lt_total : (s t : Str) → str_eq s t ≡ false → str_lt s t ≡ false → str_lt t s ≡ true
unfolding str_eq str_lt
str_lt_total [] [] h k = cc
str_lt_total [] (b ∷ t) h k = cc
str_lt_total (a ∷ s) [] h k = refl
str_lt_total (a ∷ s) (b ∷ t) h k = ground (arith, str_lt_total s t)

pub starts_with_refl : (s : Str) → starts_with s s ≡ true
unfolding starts_with
starts_with_refl [] = refl
starts_with_refl (a ∷ s) = ground (arith, starts_with_refl s)

pub starts_with_trans :
    (s p q : Str) → starts_with s p ≡ true → starts_with p q ≡ true → starts_with s q ≡ true
unfolding starts_with
starts_with_trans s p [] h k = refl
starts_with_trans s [] (c ∷ q) h k = cc
starts_with_trans [] (b ∷ p) (c ∷ q) h k = cc
starts_with_trans (a ∷ s) (b ∷ p) (c ∷ q) h k = ground (arith, starts_with_trans s p q)

-- Of two prefixes of one string, the one that is not larger is a prefix of the other.
pub starts_with_nested :
    (s p q : Str)
    → starts_with s p ≡ true
    → starts_with s q ≡ true
    → str_lt q p ≡ false
    → starts_with q p ≡ true
unfolding starts_with str_lt
starts_with_nested s [] q h k l = refl
starts_with_nested s (b ∷ p) [] h k l = cc
starts_with_nested [] (b ∷ p) (c ∷ q) h k l = cc
starts_with_nested (a ∷ s) (b ∷ p) (c ∷ q) h k l = ground (arith, starts_with_nested s p q)

-- A string that has a proper prefix is above it.
pub starts_with-not-lt : (s p : Str) → starts_with s p ≡ true → str_lt s p ≡ false
unfolding starts_with str_lt
starts_with-not-lt s [] h = refl
starts_with-not-lt [] (b ∷ p) h = cc
starts_with-not-lt (a ∷ s) (b ∷ p) h = ground (arith, starts_with-not-lt s p)

pub starts_with-append : (p s : Str) → starts_with (p ++ s) p ≡ true
unfolding starts_with
starts_with-append [] s = refl
starts_with-append (a ∷ p) s = ground (arith, starts_with-append p s)
