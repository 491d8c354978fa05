-- ===== src/Lib.antt =====
-- Verification of the native bridge of flatpak_dart, the C++ library between Dart and libflatpak.
--
-- Dart calls the C ABI (native/include/flatpak_bridge.h) and gets its answers as messages on a port:
-- frames of a discriminator byte and a payload, the payload in the binary format that
-- native/include/glaze_meta.h writes and reads. Queries run on the caller's thread; launches,
-- transactions and catalog refreshes run on background threads with a queue each.
--
-- Which file models what (each has its proofs in the modules below it):
--   Beve         native/include/glaze_meta.h: glz::Writer, glz::Reader, read_binary, write_binary over
--                schemas (Schema), with the buffer's addresses (Reader)
--   Wire         native/include/flatpak_types.h: the structs and their glz::meta, one instance of
--                Reflectable each (Reflect); a receiver that listens on a port (Receiver)
--   Post, Reply  native/include/flatpak_post.h and the post_* helpers of
--                native/src/installation_reader.cpp: frames, what a reply is made of, and the buffers
--                that the Dart VM takes over (Owned)
--   Spec         what several parts implement: a first-come-first-served service (Fifo), the interface
--                of a background queue to its client (Answering), and bags (Bag)
--   SerialQueue  native/include/serial_queue.h
--   Transaction  native/src/transaction_bridge.cpp, native/include/transaction_bridge.h: the signal
--                handlers and execute (Transaction), the worker (Worker), the C ABI of handles (Handle),
--                and all handles with the worker (Objects), with the backlog that a stop leaks
--                (Objects.Leaked)
--   Handles      the lives of the handles of all four translation units of the C ABI: opening an
--                installation by name, create and destroy
--   Flatpak      the objects of libflatpak as records of their getters' answers
--   Launch       native/src/installation_reader.cpp: get_installed_app_ref and resolve_launch_target
--                (Target), reread_child_pid (Reread), launch_impl (Run), launch and launch_loop (Queue)
--   Process      native/src/installation_reader.cpp: read_start_time (Stat), signal_instance_process and
--                the two escalations (Signal), stop and list_running (Stop)
--   Reader       native/src/installation_reader.cpp: the lists (Listing), the other queries (Details), and
--                all of them in one type (Requests); the catalog refreshes (Refresh); the reader's
--                life (Lifetime); what the lists should tell, written without the code (Told), and
--                what is heard of them (Heard, Delivery)
--   Metadata     native/src/app_metadata.cpp
--   Remote       native/src/user_remote_bridge.cpp: decode_config and apply_config (Config), the calls
--                (Bridge); what a change request asks for, field by field (Config.Applied)
--   Monitor      native/src/flatpak_bridge.cpp: the update monitor
--   Reaper       native/src/child_reaper.cpp
--   Base         shared names and lemmas; Tests: concrete runs
--
-- State and operations. A method is a function of its object's state, of its arguments and of what
-- libflatpak, GLib and the kernel answer, to the new state and the frames or calls that it makes, in
-- order. Code outside the repository is always an argument. The threaded parts (SerialQueue,
-- Transaction.Worker, Launch.Queue, Reaper) are a step function on the state under the mutex, one action
-- for each stretch that holds it, and a list of actions is one interleaving of the callers and the
-- worker.
--
-- Numbers. Native naturals; a machine word is its bit pattern. Addresses and lengths wrap at 2^64, a
-- C int at 2^32 with its negative half above 2^31; std::string's limit is 2^63 - 2, and what a
-- vector's reserve takes is the parameter `limit`.
--
-- Bounds. reread_child_pid recurses on 14 rounds of fuel: its delays double from 1 to 64 ms and stop at
-- 500 ms, which takes 13 of them. read_start_time counts down the 19 fields before field 22. All other
-- loops are structural.
--
-- Interfaces. The refreshes know their queue by Spec.Answering, which SerialQueue fills; the three
-- queues are implementations of Spec.Fifo. A reader is a launch queue and a serial queue under one
-- reference on the installation, and its destructor a sequence of phases between their steps.
--
-- Taken for granted of libflatpak and the kernel: a call of the remotes' bridge that fails has set its
-- error, as GLib asks of a call that takes a GError; an installed ref has an arch and a branch; each
-- running instance has a process of its own, so one signal does not change what the next one returns.
--
-- Not modelled: flatpak_bridge_init and GLib's main loop, which are calls of other libraries, the wake
-- pipe of the child reaper, the order of two callers of one lock, the vendored headers of the Dart SDK,
-- and the Dart code.
pub mod Base
pub mod Beve
pub mod Wire
pub mod Post
pub mod Spec
pub mod SerialQueue
pub mod Transaction
pub mod Flatpak
pub mod Handles
pub mod Launch
pub mod Remote
pub mod Process
pub mod Reply
pub mod Metadata
pub mod Reader
pub mod Monitor
pub mod Reaper
pub mod Tests
