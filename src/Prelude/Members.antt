-- ===== src/Prelude/Members.antt =====
-- Members of lists, and properties of all of them.
use mathlib.Core.List.{Memᴰ, List, [], ◌∷◌, ◌++◌, map}
use mathlib.Core.Path.{◌≡◌, refl, sym, ap, ◌∙◌, subst}
use mathlib.Core.Bool.{Bool, true, false}
use mathlib.Core.Logic.{inl, inr}
use mathlib.Core.Option.{some, some-injective}
use Prim.Native.Nat.{ℕ, zero, suc}
use native.Mathlib.Omega.{arith}
use smartmet_engine_sputnik.Prelude.Tests.{if◌then◌else◌, Bool-cases}
use smartmet_engine_sputnik.Prelude.Lists.{All, keep, get_elem?, is_empty}

module _ {A : Type 0} (Q : A → Type 0) where
  pub All-append : (xs ys : List A) → All Q xs → All Q ys → All Q (xs ++ ys)
  All-append [] ys a b = b
  All-append (x ∷ xs) ys a b = (a.0, All-append xs ys a.1 b)

  pub All-drop : (xs ys : List A) → All Q (xs ++ ys) → All Q ys
  All-drop [] ys a = a
  All-drop (x ∷ xs) ys a = All-drop xs ys a.1

  pub All-keep : (p : A → Bool) (xs : List A) → All Q xs → All Q (keep p xs)
  All-keep p [] a = tt
  All-keep p (x ∷ xs) a = ground (arith, All-keep p xs a.1)

  pub All-Mem : (xs : List A) {x : A} → All Q xs → Memᴰ x xs → Q x
  All-Mem [] a i = elim i [ ]
  All-Mem (y ∷ xs) a (Memᴰ.head e) = subst Q (sym e) a.0
  All-Mem (y ∷ xs) a (Memᴰ.tail i) = All-Mem xs a.1 i

pub get_elem?-Mem : {A : Type 0} (xs : List A) (i : ℕ) {x : A} → get_elem? xs i ≡ some x → Memᴰ x xs
get_elem?-Mem [] i e = absurd (cc)
get_elem?-Mem (y ∷ xs) zero e = Memᴰ.head (sym (some-injective _ _ e))
get_elem?-Mem (y ∷ xs) (suc i) e = Memᴰ.tail (get_elem?-Mem xs i e)

pub All-imply :
    {A : Type 0} (Q R : A → Type 0) → ((x : A) → Q x → R x) → (xs : List A) → All Q xs → All R xs
All-imply Q R f [] a = tt
All-imply Q R f (x ∷ xs) a = (f x a.0, All-imply Q R f xs a.1)

pub Mem-append_left : {A : Type 0} (xs ys : List A) {x : A} → Memᴰ x xs → Memᴰ x (xs ++ ys)
Mem-append_left [] ys i = elim i [ ]
Mem-append_left (x ∷ xs) ys (Memᴰ.head e) = Memᴰ.head e
Mem-append_left (x ∷ xs) ys (Memᴰ.tail i) = Memᴰ.tail (Mem-append_left xs ys i)

pub Mem-append_right : {A : Type 0} (xs ys : List A) {x : A} → Memᴰ x ys → Memᴰ x (xs ++ ys)
Mem-append_right [] ys i = i
Mem-append_right (x ∷ xs) ys i = Memᴰ.tail (Mem-append_right xs ys i)

pub Mem-if :
    {A : Type 0} (c : Bool) (xs : List A) {x : A}
    → c ≡ true
    → Memᴰ x xs
    → Memᴰ x (if c then xs else [])
Mem-if c xs e i = rw e i

pub Mem-keep :
    {A : Type 0} (p : A → Bool) (xs : List A) {x : A} → p x ≡ true → Memᴰ x xs → Memᴰ x (keep p xs)
Mem-keep p [] t i = elim i [ ]
Mem-keep p (y ∷ xs) t (Memᴰ.head e) = rw (ap p (sym e) ∙ t) (Memᴰ.head e)
Mem-keep p (y ∷ xs) t (Memᴰ.tail i) = elim (Bool-cases (p y)) [
  | inl e ↦ rw e (Memᴰ.tail (Mem-keep p xs t i))
  | inr e ↦ rw e (Mem-keep p xs t i)
]

pub is_empty-map_Mem :
    {A B : Type 0} (f : A → B) (xs : List A) {x : A} → Memᴰ x xs → is_empty (map f xs) ≡ false
is_empty-map_Mem f [] i = elim i [ ]
is_empty-map_Mem f (x ∷ xs) i = refl

pub Mem-map :
    {A B : Type 0} (f : A → B) (xs : List A) {y : B}
    → Memᴰ y (map f xs)
    → (x : A) × Memᴰ x xs × (y ≡ f x)
Mem-map f [] i = elim i [ ]
Mem-map f (x ∷ xs) (Memᴰ.head e) = (x, Memᴰ.head refl, e)
Mem-map f (x ∷ xs) (Memᴰ.tail i) = let (z, at, e) = Mem-map f xs i in (z, Memᴰ.tail at, e)
