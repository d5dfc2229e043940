-- ===== src/Text/Parts.antt =====
-- Splitting and trimming of texts that are put together of parts.
use mathlib.Core.List.{append-nil, append_assoc, reverse, reverse-cons, reverse-reverse}
use smartmet_engine_sputnik.Prelude.{
  ℕ, ◌≡◌, refl, ap, ◌∙◌, Bool, true, not, [], ◌∷◌, ◌++◌, all, some, ◌==◌, arith,
}
use smartmet_engine_sputnik.Text.{Str, is_space, split_at, split_go, trim_left, trim}

-- The byte does not occur in the text.
abbrev pub lacks : ℕ → Str → Bool
lacks c s = all (λ a. not (a == c)) s

-- No byte of the text is white space.
abbrev pub solid : Str → Bool
solid s = all (λ a. not (is_space a)) s

pub all-append :
    (p : ℕ → Bool) (s t : Str) → all p s ≡ true → all p t ≡ true → all p (s ++ t) ≡ true
all-append p [] t h k = k
all-append p (a ∷ s) t h k = ground (arith, all-append p s t)

all-reverse : (p : ℕ → Bool) (s : Str) → all p s ≡ true → all p (reverse s) ≡ true
all-reverse p [] h = refl
all-reverse p (a ∷ s) h =
    rw (reverse-cons a s)
      (all-append p (reverse s) (a ∷ []) (all-reverse p s (ground arith)) (ground arith))

pub split_at-first : (c : ℕ) (s t : Str) → lacks c s ≡ true → split_at c (s ++ c ∷ t) ≡ some (s, t)
unfolding split_at
split_at-first c [] t h = ground arith
split_at-first c (a ∷ s) t h = ground (arith, split_at-first c s t)

-- The last part, and one before another.
pub split_go-last :
    (c : ℕ) (part s : Str) → lacks c s ≡ true → split_go c part s ≡ (reverse part ++ s) ∷ []
unfolding split_go
split_go-last c part [] h = rw (append-nil (reverse part)) refl
split_go-last c part (a ∷ s) h =
    let e : reverse (a ∷ part) ++ s ≡ reverse part ++ (a ∷ s) =
      rw (reverse-cons a part) (append_assoc (reverse part) (a ∷ []) s) in
    ground (arith, h, split_go-last c (a ∷ part) s, e)

pub split_go-part :
    (c : ℕ) (part s rest : Str)
    → lacks c s ≡ true
    → split_go c part (s ++ c ∷ rest) ≡ (reverse part ++ s) ∷ split_go c [] rest
unfolding split_go
split_go-part c part [] rest h = rw (append-nil (reverse part)) (ground arith)
split_go-part c part (a ∷ s) rest h =
    let e : reverse (a ∷ part) ++ s ≡ reverse part ++ (a ∷ s) =
      rw (reverse-cons a part) (append_assoc (reverse part) (a ∷ []) s) in
    ground (arith, h, split_go-part c (a ∷ part) s rest, e)

trim_left-solid : (s : Str) → solid s ≡ true → trim_left s ≡ s
unfolding trim_left
trim_left-solid [] h = refl
trim_left-solid (a ∷ s) h = ground arith

-- White space in front goes.
pub trim-solid :
    (space s : Str) → all is_space space ≡ true → solid s ≡ true → trim (space ++ s) ≡ s
unfolding trim trim_left
trim-solid [] s h k =
    rw (trim_left-solid s k) (
      rw (trim_left-solid (reverse s) (all-reverse (λ a. not (is_space a)) s k))
        (reverse-reverse s))
trim-solid (a ∷ space) s h k =
    let e : trim_left (a ∷ (space ++ s)) ≡ trim_left (space ++ s) = ground (arith, h) in
    ap (λ (y : Str). reverse (trim_left (reverse y))) e ∙ trim-solid space s (ground arith) k
