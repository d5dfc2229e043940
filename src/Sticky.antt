-- ===== src/Sticky.antt =====
-- sputnik/StickyForwarder.h and .cpp: the key of a client, its hash, and the choice among the
-- backends by rendezvous hashing. A `std::uint64_t` wraps by `% 2 ^ 64`.
pub mod Winner
pub mod Stability
pub mod Order
pub mod Cookies
use Prim.Native.Nat.{bit_xor}
use smartmet_engine_sputnik.Prelude.{
  ℕ, ◌+◌, ◌-◌, ◌*◌, ◌%◌, ◌^◌, Bool, true, false, ◌||◌, List, [], ◌∷◌, ◌++◌, Option, none, some, ltb,
  if◌then◌else◌, is_empty, ℤ, pos, negsuc, int_lt, int_min,
}
use smartmet_engine_sputnik.Text.{Str, codes, str_eq, split_at, split, trim, to_string}
use smartmet_engine_sputnik.Platform.{Platform}
use smartmet_engine_sputnik.Spine.{Reactor, Request}
use smartmet_engine_sputnik.Backend.{BackendInfo}

abbrev pub fnv_offset : ℕ
fnv_offset = 14695981039346656037

abbrev pub fnv_prime : ℕ
fnv_prime = 1099511628211

abbrev pub connection_slack : ℕ
connection_slack = 4

unfoldable pub fnv1a : Str → ℕ → ℕ
fnv1a [] hash = hash
fnv1a (c ∷ s) hash = fnv1a s (bit_xor hash c * fnv_prime % 2 ^ 64)

-- The loop over the parts of a Cookie header.
unfoldable pub find_cookie : Str → List Str → Str
find_cookie name [] = []
find_cookie name (part ∷ parts) =
    let rest = find_cookie name parts in
    elim (split_at b'=' (trim part)) [
      | none ↦ rest
      | some (left, value) ↦ if str_eq left name then value else rest
    ]

unfoldable pub parse_cookie : Str → Str → Str
unfolding find_cookie
parse_cookie header name = find_cookie name (split b';' header)

-- Step 1 of the key; `none` where the code goes on to step 2.
unfoldable pub cookie_value : Str → Request → Option Str
cookie_value cookie_name request =
    if is_empty cookie_name then none else elim (request.header (codes "Cookie")) [
      | none ↦ none
      | some header ↦
          if is_empty (parse_cookie header cookie_name)
          then none
          else some (parse_cookie header cookie_name)
    ]

-- Step 2: what stands before the first comma of X-Forwarded-For, or the peer.
unfoldable pub forwarded_ip : Request → Str
forwarded_ip request = elim (request.header (codes "X-Forwarded-For")) [
  | none ↦ []
  | some xff ↦ trim (elim (split_at b',' xff) [ none ↦ xff | some (left, right) ↦ left ])
]

unfoldable pub effective_ip : Request → Str
unfolding forwarded_ip
effective_ip request =
    if is_empty (forwarded_ip request) then request.client_ip else forwarded_ip request

unfoldable pub user_agent : Request → Str
user_agent request = elim (request.header (codes "User-Agent")) [ none ↦ [] | some agent ↦ agent ]

unfoldable pub extract_key : Str → Request → Str
unfolding cookie_value effective_ip user_agent
extract_key cookie_name request = elim (cookie_value cookie_name request) [
  | some value ↦ codes "c:" ++ value
  | none ↦ codes "u:" ++ (effective_ip request ++ (codes "|" ++ user_agent request))
]

-- `std::numeric_limits<int>::max()`
abbrev pub int_max : ℤ
int_max = pos 2147483647

abbrev pub connections_of : {F : Type 0} → Reactor → BackendInfo F → ℤ
connections_of r info = r.request_status info.host_name info.port

-- The first loop of `getBackend`.
unfoldable pub min_connections : {F : Type 0} → Reactor → ℤ → List (BackendInfo F) → ℤ
min_connections r least [] = least
min_connections r least (info ∷ infos) =
    min_connections r (int_min least (connections_of r info)) infos

-- The sum of an `int` and a slack, in 32 bits. A sum that is too large is undefined in C++, and is
-- what two's complement makes of it here.
abbrev pub add_slack : ℤ → ℕ → ℤ
add_slack (pos n) k = if ltb (n + k) (2 ^ 31) then pos (n + k) else negsuc (2 ^ 32 - 1 - (n + k))
add_slack (negsuc n) k = if ltb n k then pos (k - n - 1) else negsuc (n - k)

unfoldable pub factor_of : (P : Platform) → P.Float → P.Float
factor_of P coefficient = if P.lt P.one_f coefficient then coefficient else P.two_f

unfoldable pub threshold_of : (P : Platform) → P.Float → ℤ → ℤ
unfolding factor_of
threshold_of P coefficient least =
    add_slack (P.to_int (P.mul_double (factor_of P coefficient) (P.of_int least))) connection_slack

-- The variables of the second loop.
pub record Best : Type 0 where
  pub index : ℕ
  pub score : ℕ
  pub first : Bool

unfoldable pub score_of : {F : Type 0} → ℕ → BackendInfo F → ℕ
unfolding fnv1a
score_of key_hash info = fnv1a (info.host_name ++ (b':' ∷ to_string info.port)) key_hash

unfoldable pub select_step : {F : Type 0} → Reactor → ℤ → ℕ → ℕ → BackendInfo F → Best → Best
select_step r threshold key_hash i info b =
    if int_lt threshold (connections_of r info)
    then b
    else if b.first || ltb b.score (score_of key_hash info)
    then record { index = i; score = score_of key_hash info; first = false }
    else b

-- The second loop of `getBackend`, from index `i` on.
unfoldable pub select_loop : {F : Type 0} → Reactor → ℤ → ℕ → ℕ → List (BackendInfo F) → Best → Best
unfolding select_step
select_loop r threshold key_hash i [] b = b
select_loop r threshold key_hash i (info ∷ infos) b =
    select_loop r threshold key_hash (i + 1) infos (select_step r threshold key_hash i info b)

abbrev pub no_best : Best
no_best = record { index = 0; score = 0; first = true }

-- `getBackend` on a list that is not empty, with the cookie name and the coefficient.
unfoldable pub sticky_backend :
    (P : Platform) → P.Float → Str → Reactor → Request → List (BackendInfo P.Float) → ℕ
unfolding select_loop
sticky_backend P coefficient cookie_name r request infos =
    let threshold = threshold_of P coefficient (min_connections r int_max infos) in
    let key_hash = fnv1a (extract_key cookie_name request) fnv_offset in
    (select_loop r threshold key_hash 0 infos no_best).index
