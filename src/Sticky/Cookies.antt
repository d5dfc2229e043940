-- ===== src/Sticky/Cookies.antt =====
-- The Cookie header of a client, and the key that is made of it.
use mathlib.Core.List.{append-nil, reverse}
use smartmet_engine_sputnik.Prelude.{
  ◌≡◌, refl, ap, ◌∙◌, true, false, not, List, [], ◌∷◌, ◌++◌, all, All, some, if◌then◌else◌, ◌==◌,
  is_empty, arith,
}
use smartmet_engine_sputnik.Text.{Str, codes, str_eq, is_space, split_at, split_go, split, trim}
use smartmet_engine_sputnik.Text.Parts.{
  lacks, solid, all-append, split_at-first, split_go-last, split_go-part, trim-solid,
}
use smartmet_engine_sputnik.Spine.{Request}
use smartmet_engine_sputnik.Sticky.{
  find_cookie, parse_cookie, cookie_value, effective_ip, user_agent, extract_key,
}

-- A cookie: its name, and its value.
abbrev pub Cookie : Type 0
Cookie = Str × Str

-- The bytes that a browser sends: no white space, no `;`, and no `=` in the name.
pub record IsCookie (cookie : Cookie) : Type 0 where
  pub name_solid : solid cookie.0 ≡ true
  pub value_solid : solid cookie.1 ≡ true
  pub name_whole : lacks b';' cookie.0 ≡ true
  pub value_whole : lacks b';' cookie.1 ≡ true
  pub name_plain : lacks b'=' cookie.0 ≡ true

-- `name=value`, and such pairs with `; ` between them.
unfoldable pub pair_of : Cookie → Str
pair_of (name, value) = name ++ (b'=' ∷ value)

unfoldable pub header_of : List Cookie → Str
unfolding pair_of
header_of [] = []
header_of (x ∷ []) = pair_of x
header_of (x ∷ y ∷ cookies) = pair_of x ++ (b';' ∷ (32 ∷ header_of (y ∷ cookies)))

-- The value of the first cookie of a name, or nothing.
unfoldable pub value_in : Str → List Cookie → Str
value_in name [] = []
value_in name (x ∷ cookies) = if str_eq x.0 name then x.1 else value_in name cookies

pair_of-solid : (x : Cookie) → IsCookie x → solid (pair_of x) ≡ true
unfolding pair_of
pair_of-solid (name, value) v =
    all-append (λ a. not (is_space a)) name (b'=' ∷ value) v.name_solid
      (ground (arith, v.value_solid))

pair_of-lacks : (x : Cookie) → IsCookie x → lacks b';' (pair_of x) ≡ true
unfolding pair_of
pair_of-lacks (name, value) v =
    all-append (λ a. not (a == b';')) name (b'=' ∷ value) v.name_whole
      (ground (arith, v.value_whole))

split_at-pair_of : (x : Cookie) → IsCookie x → split_at b'=' (pair_of x) ≡ some x
unfolding pair_of
split_at-pair_of (name, value) v = split_at-first b'=' name value v.name_plain

-- The first part of a header, with white space in front of it.
find_cookie-first :
    (name space : Str) (x : Cookie) (parts : List Str)
    → IsCookie x
    → all is_space space ≡ true
    → find_cookie name ((space ++ pair_of x) ∷ parts)
      ≡ (if str_eq x.0 name then x.1 else find_cookie name parts)
unfolding find_cookie
find_cookie-first name space x parts v h =
    rw (find_cookie, trim-solid space (pair_of x) h (pair_of-solid x v), split_at-pair_of x v) refl

find_cookie-blank :
    (name space : Str) → all is_space space ≡ true → find_cookie name (space ∷ []) ≡ []
unfolding split_at find_cookie
find_cookie-blank name space h =
    let e : trim space ≡ [] = rw (← append-nil space) (trim-solid space [] h refl) in
    rw (find_cookie, e) refl

find_cookie-split :
    (name : Str) (space : Str) (cookies : List Cookie)
    → All IsCookie cookies
    → all is_space (reverse space) ≡ true
    → find_cookie name (split_go b';' space (header_of cookies)) ≡ value_in name cookies
unfolding header_of value_in split_go
find_cookie-split name space [] v h = find_cookie-blank name (reverse space) h
find_cookie-split name space (x ∷ []) v h =
    rw (split_go-last b';' space (pair_of x) (pair_of-lacks x v.0))
      (find_cookie-first name (reverse space) x [] v.0 h ∙ unfold find_cookie in refl)
find_cookie-split name space (x ∷ y ∷ cookies) v h =
    rw (split_go-part b';' space (pair_of x) (32 ∷ header_of (y ∷ cookies)) (pair_of-lacks x v.0)) (
      find_cookie-first name (reverse space) x _ v.0 h
      ∙ ap (λ (rest : Str). if str_eq x.0 name then x.1 else rest)
          (find_cookie-split name (32 ∷ []) (y ∷ cookies) v.1 refl))

pub parse_cookie-header_of :
    (name : Str) (cookies : List Cookie)
    → All IsCookie cookies
    → parse_cookie (header_of cookies) name ≡ value_in name cookies
unfolding parse_cookie split
parse_cookie-header_of name cookies v = find_cookie-split name [] cookies v refl

-- Let a browser send its cookies in a Cookie header, each as `name=value`, with `; ` between them,
-- where no name and no value has white space or a `;`, and no name a `=`. The key of the client is
-- made of the value of the first cookie that has the configured name, if there is one and its value
-- is not empty; otherwise of its address and its user agent. So a cookie whose name only ends with
-- the configured name does not count.
pub extract_key-header_of :
    (name : Str) (request : Request) (cookies : List Cookie)
    → is_empty name ≡ false
    → request.header (codes "Cookie") ≡ some (header_of cookies)
    → All IsCookie cookies
    → extract_key name request ≡ (
        if is_empty (value_in name cookies)
        then codes "u:" ++ (effective_ip request ++ (codes "|" ++ user_agent request))
        else codes "c:" ++ value_in name cookies)
unfolding extract_key cookie_value
extract_key-header_of name request cookies n e v =
    ground (arith, n, e, parse_cookie-header_of name cookies v)
