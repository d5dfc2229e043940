-- ===== src/Locks/Discipline.antt =====
-- What it means to take locks in one order, to give back the last one first, and to use no data
-- without the lock that guards it.
use smartmet_engine_sputnik.Prelude.{
  ℕ, ◌≡◌, Bool, true, false, ◌&&◌, ◌||◌, List, [], ◌∷◌, all, ltb, if◌then◌else◌,
}
use smartmet_engine_sputnik.Text.{str_eq}
use smartmet_engine_sputnik.Locks.{
  Mutex, services, prefix_map, sentinels, pause, forwarder, sentinel, Mode, shared, exclusive,
  Action, acquire, release, access,
}

-- A lock that a thread holds.
pub record Lock : Type 0 where
  pub mutex : Mutex
  pub mode : Mode

-- The place of a mutex in the order.
abbrev pub rank : Mutex → ℕ
rank services = 0
rank prefix_map = 1
rank (forwarder uri) = 2
rank sentinels = 3
rank (sentinel name) = 4
rank pause = 5

unfoldable pub mutex_eq : Mutex → Mutex → Bool
mutex_eq services services = true
mutex_eq prefix_map prefix_map = true
mutex_eq sentinels sentinels = true
mutex_eq pause pause = true
mutex_eq (forwarder u) (forwarder v) = str_eq u v
mutex_eq (sentinel u) (sentinel v) = str_eq u v
mutex_eq m m' = false

-- A lock in the mode allows an access in the mode.
abbrev pub covers : Mode → Mode → Bool
covers exclusive kind = true
covers shared shared = true
covers shared exclusive = false

-- Is the mutex held, in a mode that allows such an access?
unfoldable pub holds : Mutex → Mode → List Lock → Bool
holds m kind [] = false
holds m kind (l ∷ held) = (mutex_eq l.mutex m && covers l.mode kind) || holds m kind held

unfoldable pub drop_lock : Mutex → List Lock → List Lock
drop_lock m [] = []
drop_lock m (l ∷ held) = if mutex_eq l.mutex m then held else l ∷ drop_lock m held

-- What a thread holds after an action.
unfoldable pub moved : Action → List Lock → List Lock
unfolding drop_lock
moved (acquire m mode) held = record { mutex = m; mode = mode } ∷ held
moved (release m) held = drop_lock m held
moved (access m kind) held = held

abbrev pub is_last : Mutex → List Lock → Bool
is_last m [] = false
is_last m (l ∷ held) = mutex_eq l.mutex m

-- A lock behind those held, a release of the last one, an access under a lock.
unfoldable pub allowed : Action → List Lock → Bool
unfolding holds
allowed (acquire m mode) held = all (λ l. ltb (rank l.mutex) (rank m)) held
allowed (release m) held = is_last m held
allowed (access m kind) held = holds m kind held

-- The actions are allowed, and lead from the one to the other.
abbrev pub Leads : List Lock → List Action → List Lock → Type 0
Leads held [] held' = held ≡ held'
Leads held (a ∷ later) held' = (allowed a held ≡ true) × Leads (moved a held) later held'
