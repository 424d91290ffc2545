-- ===== src/Resources.antt =====
-- What the processes of the propagators and of the destinations acquire and release. A release of
-- what is not held is undefined behaviour, here `none`.
use mathlib.Core.Option.{bind}
use ikp_data_propagator.Prelude.{
  ℕ, Bool, false, Option, none, some, List, [], ◌∷◌, ◌==◌, if◌then◌else◌,
}

pub data Resource : Type 0 where
  wsa context id_text critical_section queue listener processor listen_socket log_file exit_event :
      Resource
  connections dispatcher thread_pool listener_args shutdown_thread : Resource

abbrev pub code : Resource → ℕ
code wsa = 0
code context = 1
code id_text = 2
code critical_section = 3
code queue = 4
code listener = 5
code processor = 6
code listen_socket = 7
code log_file = 8
code exit_event = 9
code connections = 10
code dispatcher = 11
code thread_pool = 12
code listener_args = 13
code shutdown_thread = 14

-- The resources that are held, the latest first.
abbrev pub Held : Type 0
Held = List Resource

abbrev pub behind : Resource → Option Held → Option Held
behind x none = none
behind x (some h) = some (x ∷ h)

unfoldable pub release : Resource → Held → Option Held
release r [] = none
release r (x ∷ h) = let rest = release r h in if code r == code x then some h else behind x rest

unfoldable pub release_all : List Resource → Held → Option Held
unfolding release
release_all [] h = some h
release_all (r ∷ rs) h = bind (release r h) (λ h. release_all rs h)

-- A resource where a condition holds.
abbrev pub only_if : Bool → Resource → List Resource
only_if b r = if b then r ∷ [] else []

-- What a start that fails gives back, behind its releases.
abbrev pub refused : Option Held → Option (Bool × Held)
refused none = none
refused (some h) = some (false, h)
