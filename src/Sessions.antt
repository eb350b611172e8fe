-- ===== src/Sessions.antt =====
-- sandbox/sessions.py: the sessions of one container and their manager. Clock readings, the random
-- number and the outcomes of the file system are arguments. A time is a number of ticks, `tick` of which
-- make a second.
pub mod Invariant
pub mod Lookup
pub mod Collector
pub mod Isolation
pub mod Specification
pub mod Performed
pub mod Refinement
pub mod Startup
use otari_sandbox_container.Base.{
  ℕ, ◌*◌, ◌≡◌, Bool, true, false, ◌||◌, Option, none, some, List, [], ◌∷◌, ◌++◌, map, if◌then◌else◌,
  ltb, leb, Text, codes, ℤ, pos, ltb_ℤ, ◌-ℤ◌, length, take, ◌==◌, nat_beq, text_eq, int_eq,
}
use otari_sandbox_container.Base.Dict.{Dict, lookup, insert, erase}
use otari_sandbox_container.Decimal.{show_nat}
use otari_sandbox_container.Limits.{ResourceLimits}
use otari_sandbox_container.Limits.Rlimits.{scale}
use otari_sandbox_container.RunnerPool.{RunnerProcess, Stopping, stop}

pub record Session : Type 0 where
  pub session_id : Text
  pub workspace_dir : Text
  pub stub_dir : Text
  pub runner : RunnerProcess
  pub idle_timeout_seconds : ℤ
  pub max_lifetime_seconds : ℤ
  pub created_at : ℕ
  pub last_activity_at : ℕ
  pub undo_stack : Dict Text (List Text)

-- The manager, and the session directories that it has made and not removed.
pub record SessionManager : Type 0 where
  pub root : Text
  pub max_sessions : ℕ
  pub sessions : Dict Text Session
  pub dirs : List Text

-- `touch`
unfoldable pub touch : Session → ℕ → Session
touch s now = record s { last_activity_at = now }

abbrev at_time : Option ℕ → ℕ → ℕ
at_time none clock = clock
at_time (some now) clock = now

-- `is_idle(now)`, where `clock` is the reading that it takes without an argument.
unfoldable pub is_idle : ℕ → Session → Option ℕ → ℕ → Bool
is_idle tick s now clock =
    ltb_ℤ (scale s.idle_timeout_seconds tick) (pos (at_time now clock) -ℤ pos s.last_activity_at)

-- `is_expired(now)`
unfoldable pub is_expired : ℕ → Session → Option ℕ → ℕ → Bool
is_expired tick s now clock =
    ltb_ℤ (scale s.max_lifetime_seconds tick) (pos (at_time now clock) -ℤ pos s.created_at)

abbrev pub has_slash : Text → Bool
has_slash [] = false
has_slash (c ∷ path) = nat_beq c 47 || has_slash path

-- `parent / name`, for a resolved parent.
abbrev pub path_join : Text → Text → Text
path_join parent name = parent ++ (codes "/" ++ name)

-- `path.parent`, for a path that holds a slash after its first character: what is before the last slash.
unfoldable pub parent : Text → Text
parent [] = []
parent (c ∷ path) = let rest = parent path in if has_slash path then c ∷ rest else []

-- `value or default`
abbrev pub or_default : Option ℤ → ℤ → ℤ
or_default none default = default
or_default (some n) default = if n == pos 0 then default else n

-- What `create` reads from outside: the hexadecimal digits of the random number, whether each directory
-- can be made, the limits of the environment (none where a variable is no number) and two clock readings.
pub record Fresh : Type 0 where
  pub uuid_hex : Text
  pub workspace_made : Bool
  pub stub_made : Bool
  pub limits : Option ResourceLimits
  pub created_at : ℕ
  pub last_activity_at : ℕ

pub data Created : Type 0 where
  created : Session → Created
  limit_exceeded : Text → Created
  os_error : Created
  value_error : Created

-- `DEFAULT_IDLE_TIMEOUT_SECONDS` and `DEFAULT_MAX_LIFETIME_SECONDS`.
pub record Lifetimes : Type 0 where
  pub idle_timeout_seconds : ℤ
  pub max_lifetime_seconds : ℤ

abbrev pub builtin_lifetimes : Lifetimes
builtin_lifetimes = record { idle_timeout_seconds = pos 900; max_lifetime_seconds = pos 7200 }

abbrev pub id_of : Fresh → Text
id_of f = codes "sbx_" ++ take 24 f.uuid_hex

abbrev pub new_session :
    SessionManager → Lifetimes → Option ℤ → Option ℤ → Fresh → ResourceLimits → Session
new_session m defaults idle life f limits =
    let session_dir = path_join m.root (id_of f) in
    record {
      session_id = id_of f;
      workspace_dir = path_join session_dir (codes "workspace");
      stub_dir = path_join session_dir (codes "lib");
      runner = record {
        workspace = path_join session_dir (codes "workspace");
        extra_python_path = some (path_join session_dir (codes "lib"));
        proc = none;
        limits = limits;
      };
      idle_timeout_seconds = or_default idle defaults.idle_timeout_seconds;
      max_lifetime_seconds = or_default life defaults.max_lifetime_seconds;
      created_at = f.created_at;
      last_activity_at = f.last_activity_at;
      undo_stack = [];
    }

abbrev with_dir : SessionManager → Text → SessionManager
with_dir m dir = record m { dirs = dir ∷ m.dirs }

-- `create`
unfoldable pub create :
    SessionManager → Lifetimes → Option ℤ → Option ℤ → Fresh → Created × SessionManager
create m defaults idle life f =
    let m' : SessionManager = with_dir m (path_join m.root (id_of f)) in
    if leb m.max_sessions (length m.sessions)
    then (
      limit_exceeded (
          codes "sandbox holds "
          ++ (show_nat (length m.sessions)
              ++ (codes " sessions (max=" ++ (show_nat m.max_sessions ++ codes ")")))),
      m,
    )
    else if f.workspace_made
    then (if f.stub_made
        then elim f.limits [
          | none ↦ (value_error, m')
          | some limits ↦
              let s = new_session m defaults idle life f limits in
              (created s, record m' { sessions = insert (id_of f) s m.sessions })
        ]
        else (os_error, m'))
    else (os_error, m)

abbrev without : Text → List Text → List Text
without d [] = []
without d (e ∷ ds) = let rest = without d ds in if e == d then rest else e ∷ rest

-- `destroy`: whether a directory can be removed is given, and however the process ends, it goes on.
-- The session leaves the manager first, so neither outcome keeps it.
unfoldable pub destroy : (Text → Bool) → Text → SessionManager → SessionManager
destroy removable sid m = elim (lookup sid m.sessions) [
  | none ↦ m
  | some s ↦ record m {
    sessions = erase sid m.sessions;
    dirs =
        if removable (parent s.workspace_dir)
        then without (parent s.workspace_dir) m.dirs
        else m.dirs;
  }
]

-- `get`; `none` is `SessionNotFoundError`.
unfoldable pub get : Text → SessionManager → Option Session
get sid m = lookup sid m.sessions

-- `list_ids`
unfoldable pub list_ids : SessionManager → List Text
list_ids m = map (λ (e : Text × Session). e.0) m.sessions

-- `count`
unfoldable pub count : SessionManager → ℕ
count m = length m.sessions

-- A handler's `session.touch()` on a session that `get` found.
unfoldable pub touch_session : Text → ℕ → SessionManager → SessionManager
touch_session sid now m = elim (get sid m) [
  | none ↦ m
  | some s ↦ record m { sessions = insert sid (touch s now) m.sessions }
]

-- The first half of `reap_idle`, under the lock: the sessions past one of their limits.
unfoldable pub overdue : ℕ → ℕ → Dict Text Session → List Text
overdue tick now [] = []
overdue tick now ((sid, s) ∷ rest) =
    let others = overdue tick now rest in
    if is_idle tick s (some now) now || is_expired tick s (some now) now
    then sid ∷ others
    else others

-- The second half, outside the lock; also the loop of `shutdown`.
unfoldable pub destroy_all : (Text → Bool) → List Text → SessionManager → SessionManager
destroy_all removable [] m = m
destroy_all removable (sid ∷ sids) m = destroy_all removable sids (destroy removable sid m)

-- `reap_idle` where nothing else runs between its halves.
unfoldable pub reap_idle : ℕ → (Text → Bool) → ℕ → SessionManager → List Text × SessionManager
reap_idle tick removable now m =
    let sids = overdue tick now m.sessions in (sids, destroy_all removable sids m)

-- `shutdown`
unfoldable pub shutdown : (Text → Bool) → SessionManager → SessionManager
shutdown removable m = destroy_all removable (list_ids m) m
