-- ===== src/Port/LeaseHandles.antt =====
-- When a release of the port is answered, no handle of it is open: portlease.go under the
-- goroutines of serial.go.
use go_serial_cli.Common.{ℕ, ◌≡◌, refl, Bool, true, false, Option, none, some, not}
use go_serial_cli.Port.Lease.{current, new_port_lease}
use go_serial_cli.Port.LeaseSystem.{between, nobody, System, Step, Reach, new_system}
use go_serial_cli.Port.LeasePhases.{
  at_wait, Phase, held, asked, closes, tells, done, lent, opening, opened, ended, Step-closed,
}
use go_serial_cli.Port.LeaseHeld.{held_lem, asked_lem}
use go_serial_cli.Port.LeaseLent.{
  closes_lem, tells_lem, done_lem, lent_lem, opening_lem, opened_lem,
}

Step-Phase : {s t : System} → Phase s → Step s t → Phase t
Step-Phase (held p r a) st = held_lem p a st
Step-Phase (asked p r a) st = asked_lem p a st
Step-Phase (closes p) st = closes_lem p st
Step-Phase tells st = tells_lem st
Step-Phase done st = done_lem st
Step-Phase lent st = lent_lem st
Step-Phase opening st = opening_lem st
Step-Phase (opened p) st = opened_lem p st
Step-Phase (ended c) st = ended (Step-closed st c)

new_system-Phase : (p : ℕ) → Phase (new_system p)
unfolding new_system new_port_lease
new_system-Phase p = held p between at_wait

Reach-Phase : (p : ℕ) {s : System} → Reach (new_system p) s → Phase s
Reach-Phase p Reach.start = new_system-Phase p
Reach-Phase p (Reach.then_step r st) = Step-Phase (Reach-Phase p r) st

unfoldable pub is_open : Option ℕ → Bool
is_open none = false
is_open (some handle) = true

Phase-current :
    {s : System}
    → Phase s
    → s.lease.closed ≡ false
    → s.holder ≡ nobody
    → (s.handle ≡ current s.lease) × (is_open s.handle ≡ not s.lease.released)
unfolding current is_open
Phase-current (held p r a) c h = (refl, refl)
Phase-current (asked p r a) c h = absurd cc
Phase-current (closes p) c h = absurd cc
Phase-current tells c h = absurd cc
Phase-current done c h = absurd cc
Phase-current lent c h = (refl, refl)
Phase-current opening c h = absurd cc
Phase-current (opened p) c h = absurd cc
Phase-current (ended k) c h = absurd cc

-- In every state that a session with an open port reaches, by steps none of which is a release that
-- gives up waiting, in which no request is under way and the session has not ended: the port's open
-- handle is the one that the lease gives for writing, and there is one just if the lease is not
-- released.
pub Reach-current :
    (port : ℕ) {s : System}
    → Reach (new_system port) s
    → s.lease.closed ≡ false
    → s.holder ≡ nobody
    → (s.handle ≡ current s.lease) × (is_open s.handle ≡ not s.lease.released)
Reach-current port r c h = Phase-current (Reach-Phase port r) c h
