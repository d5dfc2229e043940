-- ===== src/Locks.antt =====
-- The locks that the methods of sputnik/Services.cpp, BackendForwarder.cpp and its derived classes,
-- BackendSentinel.cpp, URIPrefixMap.cpp and the pause of Engine.cpp take, in the order in which they
-- take them, and the data that they use under them. A lock is held to the end of its block. What
-- depends on the data, such as which services a loop removes, is an argument of the call.
--
-- `setForwarding` and `setReactor` write members of the registry that other calls read, and take no
-- lock. They are not among the calls here: `launch` makes them before it starts the thread. A call
-- of them at another time would be a data race.
-- The pause mutex is taken by writers and by the upgrade lock of `isPaused`, which excludes them
-- and other upgrade locks: it is exclusive from the start, and its upgrade waits for nobody.
pub mod Discipline
pub mod Calls
pub mod Threads
pub mod Invariant
pub mod Races
pub mod Progress
pub mod Ends
use smartmet_engine_sputnik.Prelude.{
  ℕ, Bool, true, false, List, [], ◌∷◌, ◌++◌, Option, none, some, if◌then◌else◌,
}
use smartmet_engine_sputnik.Text.{Str}

-- The mutexes, and the data that they guard: of the registry, of its prefix map, of the forwarder of
-- a URI, of the map of the sentinels, of one sentinel, and of the pause.
pub data Mutex : Type 0 where
  services prefix_map sentinels pause : Mutex
  forwarder sentinel : Str → Mutex

pub data Mode : Type 0 where
  shared exclusive : Mode

-- `access`: a read of the data that the mutex guards, or a write.
pub data Action : Type 0 where
  acquire : Mutex → Mode → Action
  release : Mutex → Action
  access : Mutex → Mode → Action

-- A block under a lock: `ReadLock`, `WriteLock` or `unique_lock`.
abbrev pub under : Mutex → Mode → List Action → List Action
under m mode body = acquire m mode ∷ (body ++ release m ∷ [])

-- `URIPrefixMap`: `addPrefix` and `removeBackend`, and `operator()`
unfoldable pub update_prefix : List Action
update_prefix = under prefix_map exclusive (access prefix_map exclusive ∷ [])

unfoldable pub translate_prefix : List Action
translate_prefix = under prefix_map exclusive (access prefix_map shared ∷ [])

-- `addBackend`, `removeBackend` and `getBackend` of a forwarder
unfoldable pub ask_forwarder : Str → List Action
ask_forwarder uri =
    under (forwarder uri) exclusive
      (access (forwarder uri) shared ∷ access (forwarder uri) exclusive ∷ [])

-- The forwarder of a URI, if the code comes to call it.
unfoldable pub ask_if : Option Str → List Action
unfolding ask_forwarder
ask_if none = []
ask_if (some uri) = ask_forwarder uri

-- `BackendSentinel`: `getAlive`, and `setAlive` or `signalSentConnection`
unfoldable pub read_sentinel : Str → List Action
read_sentinel name = under (sentinel name) shared (access (sentinel name) shared ∷ [])

unfoldable pub write_sentinel : Str → List Action
write_sentinel name = under (sentinel name) exclusive (access (sentinel name) exclusive ∷ [])

unfoldable pub when_known : (Str → List Action) → Option Str → List Action
when_known call none = []
when_known call (some name) = call name

-- `Services::getService`: the URI of the forwarder that chooses, if there is a list that is not empty
unfoldable pub get_service_locks : Option Str → List Action
unfolding translate_prefix ask_if
get_service_locks uri =
    under services shared
      (translate_prefix ++ (access services shared ∷ (ask_if uri ++ access services shared ∷ [])))

-- The loop of `Services::removeBackend`, by what it does with each service: the URI if it removes
-- the service, and nothing if it keeps it.
unfoldable pub removals : List (Option Str) → List Action
unfolding update_prefix ask_forwarder
removals [] = []
removals (none ∷ later) =
    access services shared ∷ (update_prefix ++ (access services shared ∷ removals later))
removals (some uri ∷ later) =
    access services shared
    ∷ (update_prefix
        ++ (access services shared
            ∷ (ask_forwarder uri ++ (access services exclusive ∷ removals later))))

unfoldable pub remove_backend_locks : List (Option Str) → List Action
unfolding removals
remove_backend_locks visits =
    under services exclusive (removals visits ++ access services shared ∷ [])

-- The same for the loop of `Services::latestSequence` over the services.
unfoldable pub cleanings : List (Option Str) → List Action
unfolding ask_forwarder
cleanings [] = []
cleanings (none ∷ later) = access services shared ∷ cleanings later
cleanings (some uri ∷ later) =
    access services shared ∷ (ask_forwarder uri ++ (access services exclusive ∷ cleanings later))

-- Behind it stands the loop over the info requests.
unfoldable pub latest_sequence_locks : List (Option Str) → List Action
unfolding cleanings
latest_sequence_locks visits =
    under services exclusive
      (cleanings visits ++ access services shared ∷ access services exclusive ∷ [])

-- The two branches of `Services::addService`, on a URI that is known and on one that is not.
unfoldable pub list_service : Bool → Str → List Action
unfolding ask_forwarder
list_service true uri = access services exclusive ∷ ask_forwarder uri
list_service false uri = ask_forwarder uri ++ access services exclusive ∷ []

unfoldable pub renew_sentinel_locks : List Action
renew_sentinel_locks =
    under sentinels exclusive (access sentinels shared ∷ access sentinels exclusive ∷ [])

-- `Services::addService`: is it a prefix, and is the URI known?
unfoldable pub add_service_locks : Bool → Bool → Str → List Action
unfolding update_prefix list_service renew_sentinel_locks
add_service_locks prefix known uri = under services exclusive (
    (if prefix then update_prefix else [])
    ++ (access services shared ∷ (list_service known uri ++ renew_sentinel_locks)))

-- `Services::queryBackendAlive`, and `setBackendAlive` or `signalBackendConnection`: the name of the
-- sentinel, if there is one
unfoldable pub query_sentinel_locks : Option Str → List Action
unfolding when_known read_sentinel
query_sentinel_locks name =
    under sentinels shared (access sentinels shared ∷ when_known read_sentinel name)

unfoldable pub update_sentinel_locks : Option Str → List Action
unfolding when_known write_sentinel
update_sentinel_locks name =
    under sentinels shared (access sentinels shared ∷ when_known write_sentinel name)

-- `Services::backends` and `Services::getBackendList`
unfoldable pub list_backends_locks : List Action
unfolding translate_prefix
list_backends_locks = under services shared (translate_prefix ++ access services shared ∷ [])

-- `getInfoRequestBackendList`, `getInfoRequestNames` and `status` of Services
unfoldable pub report_locks : List Action
report_locks = under services shared (access services shared ∷ [])

unfoldable pub add_info_request_locks : List Action
add_info_request_locks =
    under services exclusive (access services shared ∷ access services exclusive ∷ [])

-- `setPause`, `setPauseUntil` and `setContinue`
unfoldable pub set_pause_locks : List Action
set_pause_locks = under pause exclusive (access pause exclusive ∷ [])

-- `isPaused`: has the deadline expired?
unfoldable pub is_paused_locks : Bool → List Action
is_paused_locks expired =
    under pause exclusive
      (access pause shared ∷ (if expired then access pause exclusive ∷ [] else []))

-- The calls that come from the thread of the io service, from the threads that serve requests, and
-- from those that pause Sputnik, with the arguments of their locks.
pub data Call : Type 0 where
  get_service : Option Str → Call
  remove_backend latest_sequence : List (Option Str) → Call
  add_service : Bool → Bool → Str → Call
  query_sentinel update_sentinel : Option Str → Call
  list_backends report add_info_request set_pause : Call
  is_paused : Bool → Call

abbrev pub locks_of : Call → List Action
locks_of (get_service uri) = get_service_locks uri
locks_of (remove_backend visits) = remove_backend_locks visits
locks_of (latest_sequence visits) = latest_sequence_locks visits
locks_of (add_service prefix known uri) = add_service_locks prefix known uri
locks_of (query_sentinel name) = query_sentinel_locks name
locks_of (update_sentinel name) = update_sentinel_locks name
locks_of list_backends = list_backends_locks
locks_of report = report_locks
locks_of add_info_request = add_info_request_locks
locks_of set_pause = set_pause_locks
locks_of (is_paused expired) = is_paused_locks expired

-- What a thread does that makes these calls in turn.
unfoldable pub locks_of_all : List Call → List Action
locks_of_all [] = []
locks_of_all (call ∷ calls) = locks_of call ++ locks_of_all calls
