-- ===== src/ClientProgram/Stops.antt =====
-- asio/echo/co_client.cc and asio/echo/client.cc: how the threads of Shutdown.Client move, with `stop` set or not.
use snippets_cc.Prelude.{
  ℕ, ◌≤◌, ◌<◌, ◌≡◌, ◌≢◌, ◌⊎◌, refl, sym, ap, Bool, true, false, if◌then◌else◌, Bool-cases, inl, inr,
  arith,
}
use snippets_cc.Shutdown.Client
use snippets_cc.Shutdown.Client.{
  Monitor, Main, making, polling, stopping, joining, returned, monitor_is_finished,
}
use snippets_cc.Shutdown.Client.Places
use snippets_cc.Shutdown.Client.Places.{monitor_is_made}
use snippets_cc.Shutdown.Client.Steps.{step-Nearer}
use snippets_cc.Shutdown.Client.Returns.{step-stop}
use snippets_cc.ClientProgram.Runs.{left}

-- `monitor` is at its end only after `stop` has been set.
abbrev pub Stops : Client.System → Type 0
Stops s = monitor_is_finished s.monitor ≡ true → s.stop ≡ true

main_at-Stops : (m : Main) (s : Client.System) → Stops s → Stops (Client.main_at m s)
unfolding Client.main_at
main_at-Stops (making i) s h = ground (arith, h)
main_at-Stops polling s h = ground (arith, h)
main_at-Stops (stopping i) s h = ground (arith, h)
main_at-Stops (joining i) s h = ground (arith, h)
main_at-Stops returned s h = h

monitor_at-Stops :
    (m : Monitor) (b c : Bool) (s : Client.System)
    → s.monitor ≡ m
    → Stops s
    → Stops (Client.monitor_at m b c s)
unfolding Client.monitor_at
monitor_at-Stops Monitor.unmade b c s p h = h
monitor_at-Stops Monitor.establishing b c s p h = ground (arith, h)
monitor_at-Stops Monitor.established b c s p h = ground (arith, h)
monitor_at-Stops Monitor.reporting b c s p h = ground (arith, h)
monitor_at-Stops Monitor.stopping b c s p h = λ f. refl
monitor_at-Stops Monitor.finished b c s p h = h

pub threads-Stops : (a : Client.Action) (s : Client.System) → Stops s → Stops (Client.step a s)
unfolding Client.step Client.main_step Client.monitor_step
threads-Stops Client.interrupt s h = λ f. refl
threads-Stops Client.main_turn s h = main_at-Stops s.main s h
threads-Stops (Client.monitor_turn b c) s h = monitor_at-Stops s.monitor b c s refl h
threads-Stops (Client.worker_turn i t) s h = ground (arith, h)

-- One as long as `stop` is not set.
abbrev pub unset : Client.System → ℕ
unset s = if s.stop then 0 else 1

pub unset-step : (a : Client.Action) (s : Client.System) → unset (Client.step a s) ≤ unset s
unset-step a s = ground (arith, step-stop a s)

interrupt_moves :
    (s : Client.System)
    → (record s { stop = true } ≡ s) ⊎ (left (record s { stop = true }) < left s)
unfolding left Places.left
interrupt_moves s = elim (Bool-cases s.stop) [
  | inl on ↦ inl (ap (λ b. record s { stop = b }) (sym on))
  | inr off ↦ inr (rw off (omega arith))
]

-- An action of the threads changes nothing, or leaves less to do; the handler of SIGINT may set `stop`.
pub threads_move :
    {n : ℕ} {s : Client.System} (a : Client.Action)
    → Places.Inv n s
    → (Client.step a s ≡ s) ⊎ (left (Client.step a s) < left s)
unfolding left Client.step
threads_move {n} {s} a v = elim (step-Nearer a v) [
  | inl signal ↦ rw signal (interrupt_moves s)
  | inr (inl same) ↦ inl same
  | inr (inr less) ↦ inr (omega (arith, less, unset-step a s))
]

-- With every session ended, `monitor` goes on until it has set `stop`.
pub monitor_at-ne :
    (m : Monitor) (s : Client.System)
    → s.stop ≡ false
    → monitor_is_made m ≡ true
    → monitor_is_finished m ≡ false
    → (Client.monitor_at m true true s).monitor ≢ m
unfolding Client.monitor_at
monitor_at-ne Monitor.unmade s off made unfinished same = cc
monitor_at-ne Monitor.establishing s off made unfinished same = ground arith
monitor_at-ne Monitor.established s off made unfinished same = ground arith
monitor_at-ne Monitor.reporting s off made unfinished same = ground arith
monitor_at-ne Monitor.stopping s off made unfinished same = ground arith
monitor_at-ne Monitor.finished s off made unfinished same = cc
