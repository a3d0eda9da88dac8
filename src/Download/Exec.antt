-- ===== src/Download/Exec.antt =====
-- Actions that call the outside and leave a trace.
use mirror_maestro.Common.{ℕ, ◌+◌, List, ◌∷◌}
use mirror_maestro.Text.{Text}
use mirror_maestro.Errors.{Outcome, returned}
pub use mirror_maestro.Errors.Action.{pure, raise, lift, continue, ◌>>=◌, ◌>>◌}

-- A URL that passed the check, a request for a URL, a sleep of so many seconds.
pub data Event : Type 0 where
  allowed requested : Text → Event
  slept : ℕ → Event

pub record Net : Type 0 where
  pub calls : ℕ
  pub trace : List Event

abbrev pub Action : Type 0 → Type 0
Action A = Net → Outcome A × Net

abbrev counted : Net → Net
counted net = record net { calls = net.calls + 1 }

module _ {A : Type 0} where
  abbrev pub attempt : (ℕ → Outcome A) → Action A
  attempt f net = (f net.calls, counted net)

  abbrev pub outside_call : (ℕ → A) → Action A
  outside_call f net = (returned (f net.calls), counted net)

abbrev pub record_event : Event → Action Unit
record_event e net = (returned tt, record net { trace = e ∷ net.trace })
