-- ===== src/Locks/Calls.antt =====
-- Every call takes its locks in the order, gives back the last one first, and uses no data without
-- the lock that guards it.
use mathlib.Core.Path.{subst}
use smartmet_engine_sputnik.Prelude.{
  ◌≡◌, refl, sym, Bool, true, false, List, [], ◌∷◌, ◌++◌, Option, none, some, if◌then◌else◌, arith,
}
use smartmet_engine_sputnik.Text.{Str}
use smartmet_engine_sputnik.Text.Order.{str_eq_refl}
use smartmet_engine_sputnik.Locks.{
  Mutex, services, prefix_map, sentinels, pause, forwarder, sentinel, Mode, shared, exclusive,
  Action, acquire, release, access, under, update_prefix, translate_prefix, ask_forwarder, ask_if,
  read_sentinel, write_sentinel, when_known, get_service_locks, removals, remove_backend_locks,
  cleanings, latest_sequence_locks, list_service, renew_sentinel_locks, add_service_locks,
  query_sentinel_locks, update_sentinel_locks, list_backends_locks, report_locks,
  add_info_request_locks, set_pause_locks, is_paused_locks, Call, get_service, remove_backend,
  latest_sequence, add_service, query_sentinel, update_sentinel, list_backends, report,
  add_info_request, set_pause, is_paused, locks_of, locks_of_all,
}
use smartmet_engine_sputnik.Locks.Discipline.{
  Lock, mutex_eq, holds, drop_lock, moved, allowed, Leads,
}

pub mutex_eq_refl : (m : Mutex) → mutex_eq m m ≡ true
unfolding mutex_eq
mutex_eq_refl services = refl
mutex_eq_refl prefix_map = refl
mutex_eq_refl sentinels = refl
mutex_eq_refl pause = refl
mutex_eq_refl (forwarder uri) = str_eq_refl uri
mutex_eq_refl (sentinel name) = str_eq_refl name

pub Leads-append :
    (first second : List Action) (h h' h'' : List Lock)
    → Leads h first h'
    → Leads h' second h''
    → Leads h (first ++ second) h''
Leads-append [] second h h' h'' p q = subst (λ (x : List Lock). Leads x second h'') (sym p) q
Leads-append (a ∷ first) second h h' h'' p q =
    (p.0, Leads-append first second (moved a h) h' h'' p.1 q)

-- A block that leaves the locks as they are.
Leads-under :
    (m : Mutex) (mode : Mode) (body : List Action) (h : List Lock)
    → allowed (acquire m mode) h ≡ true
    → Leads (record { mutex = m; mode = mode } ∷ h) body (record { mutex = m; mode = mode } ∷ h)
    → Leads h (under m mode body) h
unfolding moved drop_lock allowed
Leads-under m mode body h free p = (
  free,
  Leads-append body (release m ∷ []) (record { mutex = m; mode = mode } ∷ h)
      (record { mutex = m; mode = mode } ∷ h) h p (mutex_eq_refl m, rw (mutex_eq_refl m) refl),
)

Leads-block :
    (h : List Lock) (first second : List Action)
    → Leads h first h
    → Leads h second h
    → Leads h (first ++ second) h
Leads-block h first second p q = Leads-append first second h h h p q

-- The registry locked in a mode.
abbrev registry : Mode → List Lock
registry mode = record { mutex = services; mode = mode } ∷ []

update_prefix-Leads : (mode : Mode) → Leads (registry mode) update_prefix (registry mode)
unfolding update_prefix moved drop_lock allowed holds mutex_eq
update_prefix-Leads mode = ground arith

translate_prefix-Leads : (mode : Mode) → Leads (registry mode) translate_prefix (registry mode)
unfolding translate_prefix moved drop_lock allowed holds mutex_eq
translate_prefix-Leads mode = ground arith

ask_forwarder-Leads :
    (uri : Str) (mode : Mode) → Leads (registry mode) (ask_forwarder uri) (registry mode)
unfolding ask_forwarder moved drop_lock allowed holds mutex_eq
ask_forwarder-Leads uri mode = ground (arith, str_eq_refl uri)

ask_if-Leads : (uri : Option Str) (mode : Mode) → Leads (registry mode) (ask_if uri) (registry mode)
unfolding ask_if
ask_if-Leads none mode = refl
ask_if-Leads (some uri) mode = ask_forwarder-Leads uri mode

shared_access : (mode : Mode) → allowed (access services shared) (registry mode) ≡ true
unfolding allowed holds mutex_eq
shared_access shared = refl
shared_access exclusive = refl

exclusive_access : allowed (access services exclusive) (registry exclusive) ≡ true
unfolding allowed holds mutex_eq
exclusive_access = refl

removals-Leads :
    (visits : List (Option Str)) → Leads (registry exclusive) (removals visits) (registry exclusive)
unfolding removals moved
removals-Leads [] = refl
removals-Leads (none ∷ later) = (
  shared_access exclusive,
  Leads-block (registry exclusive) update_prefix (access services shared ∷ removals later)
      (update_prefix-Leads exclusive) (shared_access exclusive, removals-Leads later),
)
removals-Leads (some uri ∷ later) =
    let rest = ask_forwarder uri ++ (access services exclusive ∷ removals later) in
    (
      shared_access exclusive,
      Leads-block (registry exclusive) update_prefix (access services shared ∷ rest)
          (update_prefix-Leads exclusive)
          (
            shared_access exclusive,
            Leads-block (registry exclusive) (ask_forwarder uri)
                (access services exclusive ∷ removals later) (ask_forwarder-Leads uri exclusive)
                (exclusive_access, removals-Leads later),
          ),
    )

cleanings-Leads :
    (visits : List (Option Str))
    → Leads (registry exclusive) (cleanings visits) (registry exclusive)
unfolding cleanings moved
cleanings-Leads [] = refl
cleanings-Leads (none ∷ later) = (shared_access exclusive, cleanings-Leads later)
cleanings-Leads (some uri ∷ later) = (
  shared_access exclusive,
  Leads-block (registry exclusive) (ask_forwarder uri) (access services exclusive ∷ cleanings later)
      (ask_forwarder-Leads uri exclusive) (exclusive_access, cleanings-Leads later),
)

read_known-Leads :
    (name : Option Str)
    → Leads
        (record { mutex = sentinels; mode = shared } ∷ [])
        (when_known read_sentinel name)
        (record { mutex = sentinels; mode = shared } ∷ [])
unfolding when_known read_sentinel moved drop_lock allowed holds mutex_eq
read_known-Leads none = refl
read_known-Leads (some name) = ground (arith, str_eq_refl name)

write_known-Leads :
    (name : Option Str)
    → Leads
        (record { mutex = sentinels; mode = shared } ∷ [])
        (when_known write_sentinel name)
        (record { mutex = sentinels; mode = shared } ∷ [])
unfolding when_known write_sentinel moved drop_lock allowed holds mutex_eq
write_known-Leads none = refl
write_known-Leads (some name) = ground (arith, str_eq_refl name)

add_prefix-Leads :
    (prefix : Bool)
    → Leads (registry exclusive) (if prefix then update_prefix else []) (registry exclusive)
add_prefix-Leads true = update_prefix-Leads exclusive
add_prefix-Leads false = refl

list_service-Leads :
    (known : Bool) (uri : Str)
    → Leads (registry exclusive) (list_service known uri) (registry exclusive)
unfolding list_service moved
list_service-Leads true uri = (exclusive_access, ask_forwarder-Leads uri exclusive)
list_service-Leads false uri =
    Leads-block (registry exclusive) (ask_forwarder uri) (access services exclusive ∷ [])
      (ask_forwarder-Leads uri exclusive) (exclusive_access, refl)

renew_sentinel-Leads : Leads (registry exclusive) renew_sentinel_locks (registry exclusive)
unfolding renew_sentinel_locks moved drop_lock allowed holds mutex_eq
renew_sentinel-Leads = ground arith

-- Every call begins and ends without locks.
locks_of-Leads : (call : Call) → Leads [] (locks_of call) []
unfolding get_service_locks remove_backend_locks latest_sequence_locks add_service_locks
    query_sentinel_locks update_sentinel_locks list_backends_locks report_locks
    add_info_request_locks set_pause_locks is_paused_locks moved drop_lock allowed holds mutex_eq
locks_of-Leads (get_service uri) =
    let rest = access services shared ∷ (ask_if uri ++ access services shared ∷ []) in
    Leads-under services shared (translate_prefix ++ rest) [] refl (
      Leads-block (registry shared) translate_prefix rest (translate_prefix-Leads shared) (
        refl,
        Leads-block (registry shared) (ask_if uri) (access services shared ∷ [])
            (ask_if-Leads uri shared) (refl, refl),
      ))
locks_of-Leads (remove_backend visits) =
    Leads-under services exclusive (removals visits ++ access services shared ∷ []) [] refl (
      Leads-block (registry exclusive) (removals visits) (access services shared ∷ [])
        (removals-Leads visits) (refl, refl))
locks_of-Leads (latest_sequence visits) =
    let rest = access services shared ∷ access services exclusive ∷ [] in
    Leads-under services exclusive (cleanings visits ++ rest) [] refl (
      Leads-block (registry exclusive) (cleanings visits) rest (cleanings-Leads visits)
        (refl, (refl, refl)))
locks_of-Leads (add_service prefix known uri) =
    let rest = access services shared ∷ (list_service known uri ++ renew_sentinel_locks) in
    Leads-under services exclusive ((if prefix then update_prefix else []) ++ rest) [] refl (
      Leads-block (registry exclusive) (if prefix then update_prefix else []) rest
        (add_prefix-Leads prefix)
        (
          refl,
          Leads-block (registry exclusive) (list_service known uri) renew_sentinel_locks
              (list_service-Leads known uri) renew_sentinel-Leads,
        ))
locks_of-Leads (query_sentinel name) =
    Leads-under sentinels shared (access sentinels shared ∷ when_known read_sentinel name) [] refl
      (refl, read_known-Leads name)
locks_of-Leads (update_sentinel name) =
    Leads-under sentinels shared (access sentinels shared ∷ when_known write_sentinel name) [] refl
      (refl, write_known-Leads name)
locks_of-Leads list_backends =
    Leads-under services shared (translate_prefix ++ access services shared ∷ []) [] refl (
      Leads-block (registry shared) translate_prefix (access services shared ∷ [])
        (translate_prefix-Leads shared) (refl, refl))
locks_of-Leads report = ground arith
locks_of-Leads add_info_request = ground arith
locks_of-Leads set_pause = ground arith
locks_of-Leads (is_paused true) = ground arith
locks_of-Leads (is_paused false) = ground arith

pub locks_of_all-Leads : (calls : List Call) → Leads [] (locks_of_all calls) []
unfolding locks_of_all
locks_of_all-Leads [] = refl
locks_of_all-Leads (call ∷ calls) =
    Leads-block [] (locks_of call) (locks_of_all calls) (locks_of-Leads call)
      (locks_of_all-Leads calls)
