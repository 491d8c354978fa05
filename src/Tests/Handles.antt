-- ===== src/Tests/Handles.antt =====
-- Concrete runs over the lives of handles, buffers and objects (native/src).
use flatpak_dart.Base.{
  ℕ, ◌+◌, ◌≡◌, ◌⊎◌, refl, true, false, none, some, List, [], ◌∷◌, bytes, ltb, count, if◌then◌else◌,
}
use flatpak_dart.Launch.Queue
use flatpak_dart.Launch.Queue.{Thread, waiting, cancelling, returned}
use flatpak_dart.SerialQueue.{draining, exited}
use flatpak_dart.Reader.Refresh.{AppstreamRequest}
use flatpak_dart.Base.{Bool}
use flatpak_dart.Reader.Lifetime.{
  Phase, alive, launch_stopped, refresh_stopped, refresh_joined, launch_joined, closed,
}
use flatpak_dart.Post.Owned.{BufferAction, posts, collects, buffer_run}
use flatpak_dart.Post.Owned.Freed.{no_buffers, freed-once}
use flatpak_dart.Reader.Lifetime.{InstallationReader, new_reader, Reaches, launch_turns}
use flatpak_dart.Reader.Lifetime.{appstream_turns, tells_launches, tells_refreshes, joins_refreshes}
use flatpak_dart.Reader.Lifetime.{joins_launches, drops_installation, here, onward, launch_round}
use flatpak_dart.Reader.Lifetime.{refresh_round, stop_launches, stop_refreshes, join_refreshes}
use flatpak_dart.Reader.Lifetime.{join_launches, drop_installation}
use flatpak_dart.Reader.Lifetime.Finish.{Turn, launch_turn, appstream_turn, late_refresh}
use flatpak_dart.Reader.Lifetime.Finish.{launch_turns_in, refresh_turns_in, launch_rounds_left}
use flatpak_dart.Reader.Lifetime.Finish.{refresh_rounds_left, before_refresh_join}
use flatpak_dart.Reader.Lifetime.Finish.{before_launch_join, destructor-Returns}
use flatpak_dart.Base.{◌≤◌, arith}
use flatpak_dart.Launch.Queue.{launch}
use flatpak_dart.Reader.Lifetime.{launched, calls_launch, asked}
use flatpak_dart.Reader.Lifetime.Finish.{before_refresh_stop}
use flatpak_dart.Launch.Queue.{LaunchRequest}
use flatpak_dart.Reader.Lifetime.Destroyed.{IsOver, Reaches-IsOver}
use flatpak_dart.SerialQueue
use flatpak_dart.Tests.Queries.{launcher}
use flatpak_dart.Tests.Transactions.{one_install}
use flatpak_dart.Transaction.Handle.{submit}
use flatpak_dart.Transaction.Objects.{BridgeAction, creates, calls_on, turns, bridge_run}
use flatpak_dart.Transaction.Objects.Accounting.{new_bridge}
use flatpak_dart.Transaction.Objects.Leaked.{held, leaked, owned-given_up}
use flatpak_dart.Transaction.Objects.{add_handle, call_at, bridge_step, stops}
use flatpak_dart.Transaction.Worker
use flatpak_dart.Transaction.Worker.{enqueue, loop_at, wake, take_front, destroy}
use flatpak_dart.Transaction.Handle.{
  call, flatpak_tx_submit, submit_tx, flatpak_tx_create, flatpak_tx_destroy,
}

-- A message that the VM takes, one that it refuses, and the collection of the first.
abbrev messages : List BufferAction
messages =
    posts (record { port = 9; bytes = 0xFF ∷ [] }) true
    ∷ posts (record { port = 9; bytes = 0xFF ∷ [] }) false
    ∷ collects 0
    ∷ []

freed-once_example :
    let b = (buffer_run messages no_buffers).0 in
    count 1 b.freed + count 1 b.in_vm ≡ (if ltb 1 b.allocated then 1 else 0)
freed-once_example = freed-once 1 messages

-- Two handles are submitted; the worker is told to stop while it runs the first transaction.
abbrev two_handles : List BridgeAction
two_handles =
    creates (some 100) none 101 9
    ∷ creates (some 200) none 201 10
    ∷ calls_on 0 submit
    ∷ calls_on 1 submit
    ∷ turns one_install
    ∷ stops
    ∷ turns one_install
    ∷ turns one_install
    ∷ turns one_install
    ∷ []

owned-given_up_example :
    let b = bridge_run two_handles new_bridge in
    (count 100 b.made ≡ count 100 b.given_up + count 100 (held b) + count 100 (leaked b))
    × (b.worker.stop_ ≡ false → leaked b ≡ [])
owned-given_up_example = owned-given_up two_handles 100

-- The second transaction is neither given up nor held: it is leaked.
second_leaked : leaked (bridge_run two_handles new_bridge) ≡ 101 ∷ 100 ∷ []
unfolding bridge_run bridge_step Worker.start add_handle flatpak_tx_create flatpak_tx_destroy
    call_at call flatpak_tx_submit submit_tx enqueue loop_at wake take_front destroy
second_leaked = refl

-- A reader with empty queues.
abbrev idle_reader :
    Phase → ℕ → Thread → Bool → SerialQueue.Worker AppstreamRequest → Bool → InstallationReader
idle_reader phase references thread b worker c = record {
  phase = phase;
  references = references;
  launches = record { launch_queue = []; launch_stop = b; launch_thread = thread };
  appstream_queue = record { queue = []; stop_ = c; worker = worker };
}

abbrev closed_reader : InstallationReader
closed_reader = idle_reader closed 0 returned true exited true

from_launch_joined : Reaches (idle_reader launch_joined 1 returned true exited true) closed_reader
unfolding new_reader launch_round stop_launches stop_refreshes refresh_round join_refreshes
    join_launches drop_installation Queue.loop_at Queue.wake Queue.destroy SerialQueue.loop_at
    SerialQueue.wake SerialQueue.stop
from_launch_joined = onward (drops_installation refl) here

from_return : Reaches (idle_reader refresh_joined 1 returned true exited true) closed_reader
unfolding new_reader launch_round stop_launches stop_refreshes refresh_round join_refreshes
    join_launches drop_installation Queue.loop_at Queue.wake Queue.destroy SerialQueue.loop_at
    SerialQueue.wake SerialQueue.stop
from_return = onward (joins_launches refl refl) from_launch_joined

from_cancel : Reaches (idle_reader refresh_joined 1 (cancelling []) true exited true) closed_reader
unfolding new_reader launch_round stop_launches stop_refreshes refresh_round join_refreshes
    join_launches drop_installation Queue.loop_at Queue.wake Queue.destroy SerialQueue.loop_at
    SerialQueue.wake SerialQueue.stop
from_cancel = onward (launch_turns launcher) from_return

from_refresh_joined : Reaches (idle_reader refresh_joined 1 waiting true exited true) closed_reader
unfolding new_reader launch_round stop_launches stop_refreshes refresh_round join_refreshes
    join_launches drop_installation Queue.loop_at Queue.wake Queue.destroy SerialQueue.loop_at
    SerialQueue.wake SerialQueue.stop
from_refresh_joined = onward (launch_turns launcher) from_cancel

from_exit : Reaches (idle_reader refresh_stopped 1 waiting true exited true) closed_reader
unfolding new_reader launch_round stop_launches stop_refreshes refresh_round join_refreshes
    join_launches drop_installation Queue.loop_at Queue.wake Queue.destroy SerialQueue.loop_at
    SerialQueue.wake SerialQueue.stop
from_exit = onward (joins_refreshes refl refl) from_refresh_joined

from_drain : Reaches (idle_reader refresh_stopped 1 waiting true (draining []) true) closed_reader
unfolding new_reader launch_round stop_launches stop_refreshes refresh_round join_refreshes
    join_launches drop_installation Queue.loop_at Queue.wake Queue.destroy SerialQueue.loop_at
    SerialQueue.wake SerialQueue.stop
from_drain = onward (appstream_turns) from_exit

from_refresh_stopped :
    Reaches (idle_reader refresh_stopped 1 waiting true SerialQueue.waiting true) closed_reader
unfolding new_reader launch_round stop_launches stop_refreshes refresh_round join_refreshes
    join_launches drop_installation Queue.loop_at Queue.wake Queue.destroy SerialQueue.loop_at
    SerialQueue.wake SerialQueue.stop
from_refresh_stopped = onward (appstream_turns) from_drain

from_launch_stopped :
    Reaches (idle_reader launch_stopped 1 waiting true SerialQueue.waiting false) closed_reader
unfolding new_reader launch_round stop_launches stop_refreshes refresh_round join_refreshes
    join_launches drop_installation Queue.loop_at Queue.wake Queue.destroy SerialQueue.loop_at
    SerialQueue.wake SerialQueue.stop
from_launch_stopped = onward (tells_refreshes refl) from_refresh_stopped

from_alive : Reaches (idle_reader alive 1 waiting false SerialQueue.waiting false) closed_reader
unfolding new_reader launch_round stop_launches stop_refreshes refresh_round join_refreshes
    join_launches drop_installation Queue.loop_at Queue.wake Queue.destroy SerialQueue.loop_at
    SerialQueue.wake SerialQueue.stop
from_alive = onward (tells_launches refl) from_launch_stopped

closed_reader-Reaches : Reaches new_reader closed_reader
unfolding new_reader Queue.start SerialQueue.start
closed_reader-Reaches = from_alive

Reaches-IsOver_example : (closed_reader.references ≡ 1) ⊎ IsOver closed_reader
Reaches-IsOver_example = Reaches-IsOver closed_reader closed_reader-Reaches

abbrev maps_request : LaunchRequest
maps_request = record {
  port = 9;
  app_id = bytes "org.gnome.Maps";
  arch = [];
  branch = [];
  commit = [];
}

abbrev busy_reader : InstallationReader
busy_reader = launched maps_request new_reader

new_reader-alive : new_reader.phase ≡ alive
unfolding new_reader
new_reader-alive = refl

busy_reader-alive : busy_reader.phase ≡ alive
unfolding launched new_reader
busy_reader-alive = refl

-- A late call between the stops, a round of each thread before the first join, and the other rounds.
abbrev early_turns : List Turn
early_turns = late_refresh (record { port = 9; remote = bytes "flathub"; arch = [] }) ∷ []

abbrev first_turns : List Turn
first_turns = appstream_turn ∷ launch_turn launcher ∷ appstream_turn ∷ appstream_turn ∷ []

abbrev last_turns : List Turn
last_turns = launch_turn launcher ∷ appstream_turn ∷ launch_turn launcher ∷ []

enough_refreshes :
    refresh_rounds_left (before_refresh_stop early_turns busy_reader) ≤ refresh_turns_in first_turns
unfolding launched new_reader launch SerialQueue.start Queue.start stop_launches asked
    SerialQueue.push Queue.destroy
enough_refreshes = omega arith

enough_launches :
    launch_rounds_left busy_reader
    ≤ launch_turns_in early_turns + launch_turns_in first_turns + launch_turns_in last_turns
unfolding launched new_reader launch SerialQueue.start Queue.start
enough_launches = omega arith

destructor-Returns_example :
    let s = before_refresh_join early_turns first_turns busy_reader in
    let s' = before_launch_join early_turns first_turns last_turns busy_reader in
    let over = drop_installation (join_launches s') in
    (s.appstream_queue.worker ≡ exited)
    × (s'.launches.launch_thread ≡ returned)
    × Reaches busy_reader over
    × (over.phase ≡ closed)
    × (over.references ≡ 0)
destructor-Returns_example =
    destructor-Returns busy_reader early_turns first_turns last_turns
      (onward (calls_launch maps_request new_reader-alive) here) busy_reader-alive enough_refreshes
      enough_launches
