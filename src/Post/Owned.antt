-- ===== src/Post/Owned.antt =====
-- native/include/flatpak_post.h, `post_owned`: who frees the buffer of a message that is not copied. An
-- allocation is known by its number; the state is what the bridge has allocated, what the Dart VM holds,
-- and what was freed.
use flatpak_dart.Base.{ℕ, zero, suc, Bool, true, false, List, [], ◌∷◌, ◌++◌, Bytes, if◌then◌else◌}
use flatpak_dart.Post.{Frame}
pub mod Freed

pub record Buffers : Type 0 where
  pub allocated : ℕ
  pub in_vm : List ℕ
  pub freed : List ℕ

-- The bridge posts a buffer, and the VM takes the message or not; or the VM collects one of those that it
-- holds, by its place, and calls the finalizer.
pub data BufferAction : Type 0 where
  posts : Frame → Bool → BufferAction
  collects : ℕ → BufferAction

unfoldable pub release_buffer : ℕ → Buffers → Buffers
release_buffer peer b = record b { freed = peer ∷ b.freed }

-- `posted` is what `Dart_PostCObject_DL` returns.
unfoldable pub post_owned : ℕ → Bytes → Bool → Buffers → Buffers × List Frame
unfolding release_buffer
post_owned port buf posted b =
    let owned = b.allocated in
    let b' = record b { allocated = suc b.allocated } in
    if posted
    then (record b' { in_vm = owned ∷ b'.in_vm }, record { port = port; bytes = buf } ∷ [])
    else (release_buffer owned b', [])

-- The VM runs the finalizer of a message once, and then forgets it.
unfoldable pub collect_at : ℕ → List ℕ → List ℕ × List ℕ
collect_at i [] = ([], [])
collect_at zero (peer ∷ peers) = (peers, peer ∷ [])
collect_at (suc i) (peer ∷ peers) = let (kept, gone) = collect_at i peers in (peer ∷ kept, gone)

unfoldable pub finalize : List ℕ → Buffers → Buffers
unfolding release_buffer
finalize [] b = b
finalize (peer ∷ peers) b = finalize peers (release_buffer peer b)

unfoldable pub buffer_step : BufferAction → Buffers → Buffers × List Frame
unfolding post_owned collect_at finalize
buffer_step (posts f posted) b = post_owned f.port f.bytes posted b
buffer_step (collects i) b =
    let (kept, gone) = collect_at i b.in_vm in (finalize gone (record b { in_vm = kept }), [])

unfoldable pub buffer_run : List BufferAction → Buffers → Buffers × List Frame
unfolding buffer_step
buffer_run [] b = (b, [])
buffer_run (a ∷ acts) b =
    let (b', now) = buffer_step a b in let (b'', later) = buffer_run acts b' in (b'', now ++ later)
