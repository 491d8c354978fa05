-- ===== src/Tests/Workers.antt =====
-- Concrete runs of native/include/serial_queue.h.
use flatpak_dart.Base.{ℕ, ◌≤◌, ◌≡◌, refl, true, List, [], ◌∷◌, ◌++◌, arith}
use flatpak_dart.SerialQueue
use flatpak_dart.SerialQueue.{push_of, request_stop, work, running, exited}
use flatpak_dart.SerialQueue.Conservation.{accepted, answered}
use flatpak_dart.SerialQueue.Service.{pending}
use flatpak_dart.SerialQueue.Shutdown.{accepted-run_stopped, runs-run_stopped, works, rounds, Owes}
use flatpak_dart.Spec.Fifo.{Serves}
use flatpak_dart.SerialQueue.Service.{seen, serial_queue-Serves}

-- Two pushes around a round of the worker, a stop, and a push that comes too late.
abbrev schedule : List (SerialQueue.Action ℕ)
schedule = push_of 1 ∷ work ∷ push_of 2 ∷ []

few_rounds : let s = (SerialQueue.run schedule SerialQueue.start).0 in rounds s.worker s.queue ≤ 8
unfolding SerialQueue.run SerialQueue.start SerialQueue.step SerialQueue.push SerialQueue.loop_at
    SerialQueue.wake SerialQueue.take_front
few_rounds = omega arith

accepted-run_stopped_example :
    let (s', es) = SerialQueue.run (schedule ++ request_stop ∷ works 8) SerialQueue.start in
    (s'.worker ≡ exited) × (accepted es ≡ answered es)
accepted-run_stopped_example = accepted-run_stopped schedule 8 few_rounds

abbrev closing : SerialQueue.SerialQueue ℕ
closing = record { queue = 2 ∷ 3 ∷ []; stop_ = true; worker = running 1 }

runs-run_stopped_example : Owes closing (SerialQueue.run (push_of 4 ∷ works 5) closing)
runs-run_stopped_example = runs-run_stopped (push_of 4 ∷ works 5) closing refl

serial_queue-Serves_example :
    let (s, es) = SerialQueue.run schedule SerialQueue.start in Serves [] (seen es) (pending s)
serial_queue-Serves_example = serial_queue-Serves schedule
