-- ===== src/Reader/Refresh.antt =====
-- native/src/installation_reader.cpp, the catalog refreshes: `refresh_appstream`, and the queue with its
-- two handlers that the constructor makes. The queue is known by its interface.
use flatpak_dart.Base.{
  ℕ, Bool, true, false, Option, some, List, [], ◌∷◌, ◌++◌, Bytes, bytes, safe_str,
}
use flatpak_dart.Post.{Frame}
use flatpak_dart.Reader.{Installation}
use flatpak_dart.Reader.Requests.{refresh_appstream_impl}
use flatpak_dart.Reply.{post_error}
use flatpak_dart.Spec.Answering.{Turn, runs, cancels, AnsweringQueue}
pub mod Arrivals
pub mod Answers

pub record AppstreamRequest : Type 0 where
  pub port : ℕ
  pub remote : Bytes
  pub arch : Bytes

-- The handlers of the refresh queue: one for a request that runs, one for what a stop leaves behind.
unfoldable pub refresh_runs : Installation → AppstreamRequest → List Frame
unfolding refresh_appstream_impl
refresh_runs inst req = refresh_appstream_impl inst req.port req.remote (some req.arch)

unfoldable pub refresh_cancels : AppstreamRequest → List Frame
unfolding post_error
refresh_cancels req = post_error req.port (bytes "reader closed before appstream refresh started")

unfoldable pub refused_if : ℕ → Bool → List Frame
unfolding post_error
refused_if port true = []
refused_if port false = post_error port (bytes "reader is closed")

unfoldable pub refresh_turn : Installation → Turn AppstreamRequest → List Frame
unfolding refresh_runs refresh_cancels
refresh_turn inst (runs req) = refresh_runs inst req
refresh_turn inst (cancels req) = refresh_cancels req

unfoldable pub refresh_turns : Installation → List (Turn AppstreamRequest) → List Frame
unfolding refresh_turn
refresh_turns inst [] = []
refresh_turns inst (t ∷ ts) = refresh_turn inst t ++ refresh_turns inst ts

-- A call of `refresh_appstream`, the destructor's stop, and a round of the worker, whose handlers meet
-- the installation of that moment.
pub data RefreshAction : Type 0 where
  asks : ℕ → Option Bytes → Option Bytes → RefreshAction
  closes : RefreshAction
  refreshes : Installation → RefreshAction

unfoldable pub appstream_request : ℕ → Option Bytes → Option Bytes → AppstreamRequest
unfolding safe_str
appstream_request port remote arch = record {
  port = port;
  remote = safe_str remote;
  arch = safe_str arch;
}

module _ (queue : AnsweringQueue AppstreamRequest) where
  unfoldable pub refresh_appstream :
      ℕ → Option Bytes → Option Bytes → queue.Queue → queue.Queue × List Frame
  unfolding refused_if appstream_request
  refresh_appstream port remote arch q =
      let (q', taken) = queue.push (appstream_request port remote arch) q in
      (q', refused_if port taken)

  unfoldable pub refresh_step : RefreshAction → queue.Queue → queue.Queue × List Frame
  unfolding refresh_appstream refresh_turns
  refresh_step (asks port remote arch) q = refresh_appstream port remote arch q
  refresh_step closes q = (queue.stop q, [])
  refresh_step (refreshes inst) q = let (q', ts) = queue.round q in (q', refresh_turns inst ts)

  unfoldable pub refresh_run : List RefreshAction → queue.Queue → queue.Queue × List Frame
  unfolding refresh_step
  refresh_run [] q = (q, [])
  refresh_run (a ∷ acts) q =
      let (q', now) = refresh_step a q in
      let (q'', later) = refresh_run acts q' in (q'', now ++ later)
