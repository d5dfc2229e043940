-- ===== src/Tests/Strings.antt =====
-- Strings, prefixes, pauses and sentinels.
use smartmet_engine_sputnik.Prelude.{
  List, some, All, ◌≡◌, refl, true, false, [], ◌∷◌, none, pos, negsuc, arith, ◌==◌, ◌||◌, leb,
}
use smartmet_engine_sputnik.Text.{
  codes, to_string, split, split_at, trim, starts_with, str_lt, str_eq,
}
use smartmet_engine_sputnik.OrderedMap.{has_key, find, set_contains}
use smartmet_engine_sputnik.PrefixMap.{
  UriPrefixMap, translate, add_prefix, remove_backend, backend_service_id, ids_of,
}
use smartmet_engine_sputnik.PrefixMap.Lookup.{translate-shortest}
use smartmet_engine_sputnik.PrefixMap.Updates.{IsValid, remove_backend-add_prefix}
use smartmet_engine_sputnik.Sentinel.{BackendSentinel, get_alive, set_alive}
use smartmet_engine_sputnik.Sentinel.Throttle.{signals, get_alive-signals}
use smartmet_engine_sputnik.Pause.{Pause, set_pause_until}
use smartmet_engine_sputnik.Pause.Deadline.{answers, answers-set_pause_until}
use smartmet_engine_sputnik.Sticky.{parse_cookie, fnv1a, fnv_offset, extract_key}
use smartmet_engine_sputnik.Spine.{Request}
use smartmet_engine_sputnik.Sticky.Cookies.{
  Cookie, IsCookie, header_of, value_in, extract_key-header_of,
}
use smartmet_engine_sputnik.Tests.Data.{request, wms_uri, wms_on, server_a}

to_string_runs : to_string (negsuc 1204) ≡ codes "-1205"
unfolding to_string
to_string_runs = refl

parse_cookie_runs : parse_cookie (codes "userid=1; id=ab ;x") (codes "id") ≡ codes "ab"
unfolding parse_cookie split trim split_at str_eq
parse_cookie_runs = refl

abbrev cookies : List Cookie
cookies = (codes "uid", codes "7") ∷ (codes "id", codes "ab") ∷ []

-- A request of a browser with two cookies.
abbrev cookie_request : Request
cookie_request = record request { header = λ name. some (header_of cookies) }

cookies-AreCookies : All IsCookie cookies
cookies-AreCookies =
    let (uid, id) : IsCookie (codes "uid", codes "7") × IsCookie (codes "id", codes "ab") =
      (ground arith, ground arith) in
    (uid, (id, tt))

extract_key-header_of_example : extract_key (codes "id") cookie_request ≡ codes "c:ab"
unfolding value_in str_eq
extract_key-header_of_example =
    extract_key-header_of (codes "id") cookie_request cookies refl refl cookies-AreCookies

-- The published value of 64-bit FNV-1a for "a".
fnv1a_runs : fnv1a (codes "a") fnv_offset ≡ 0xaf63dc4c8601ec8c
unfolding fnv1a
fnv1a_runs = refl

abbrev prefixes : UriPrefixMap
prefixes = (codes "/w", codes "x" ∷ []) ∷ (codes "/wms", codes "y" ∷ []) ∷ []

prefixes-IsValid : IsValid prefixes
unfolding str_lt
prefixes-IsValid = record {
  sorted = ((refl, tt), (tt, tt));
  filled = (refl, (refl, tt));
  rising = ((tt, tt), ((tt, tt), tt));
}

translate-shortest_example :
    (has_key (translate prefixes (codes "/wms/1")) prefixes ≡ true)
    × (starts_with (codes "/wms/1") (translate prefixes (codes "/wms/1")) ≡ true)
    × (starts_with (codes "/wms") (translate prefixes (codes "/wms/1")) ≡ true)
unfolding has_key starts_with str_eq
translate-shortest_example =
    translate-shortest prefixes (codes "/wms/1") (codes "/wms") prefixes-IsValid.sorted refl refl

remove_backend-add_prefix_example :
    remove_backend wms_uri
      (wms_on server_a (pos 1))
      (add_prefix wms_uri (wms_on server_a (pos 1)) prefixes)
    ≡ prefixes
unfolding set_contains ids_of find backend_service_id str_eq to_string
remove_backend-add_prefix_example =
    remove_backend-add_prefix wms_uri (wms_on server_a (pos 1)) prefixes prefixes-IsValid refl

abbrev sentinel : BackendSentinel
sentinel = record { throttle = 2; current_throttle = 1 }

get_alive-signals_example :
    get_alive (signals 3 (set_alive sentinel)) ≡ (sentinel.throttle == 0 || leb 3 sentinel.throttle)
get_alive-signals_example = get_alive-signals sentinel 3 (omega arith)

abbrev running : Pause
running = record { paused = false; deadline = none }

answers-set_pause_until_example :
    answers (3 ∷ 5 ∷ 9 ∷ []) (set_pause_until 5 running) ≡ true ∷ false ∷ false ∷ []
answers-set_pause_until_example = answers-set_pause_until running 5 2 (3 ∷ 5 ∷ 9 ∷ []) (omega arith)
