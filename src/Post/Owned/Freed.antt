-- ===== src/Post/Owned/Freed.antt =====
-- No buffer of native/include/flatpak_post.h is freed twice, or while the Dart VM holds it, or lost.
use flatpak_dart.Base.{ℕ, zero, suc, ◌+◌, ◌≡◌, refl, Bool, true, false, List, [], ◌∷◌, Bytes}
use flatpak_dart.Base.{count, ltb, if◌then◌else◌, arith}
use flatpak_dart.Post.Owned.{Buffers, BufferAction, posts, collects, release_buffer, post_owned}
use flatpak_dart.Post.Owned.{collect_at, finalize, buffer_step, buffer_run}

abbrev pub no_buffers : Buffers
no_buffers = record { allocated = 0; in_vm = []; freed = [] }

module _ (n : ℕ) where
  -- The allocation `n` is held or freed once, if it was made.
  abbrev OwnedOnce : Buffers → Type 0
  OwnedOnce b = count n b.freed + count n b.in_vm ≡ (if ltb n b.allocated then 1 else 0)

  post_owned-OwnedOnce :
      (port : ℕ) (buf : Bytes) (posted : Bool) (b : Buffers)
      → OwnedOnce b
      → OwnedOnce (post_owned port buf posted b).0
  unfolding post_owned release_buffer
  post_owned-OwnedOnce port buf true b h = ground (arith, h)
  post_owned-OwnedOnce port buf false b h = ground (arith, h)

  collect_at-count :
      (i : ℕ) (peers : List ℕ)
      → let (kept, freed) = collect_at i peers in count n peers ≡ count n freed + count n kept
  unfolding collect_at
  collect_at-count i [] = omega arith
  collect_at-count zero (peer ∷ peers) = omega arith
  collect_at-count (suc i) (peer ∷ peers) = omega (arith, collect_at-count i peers)

  finalize-count :
      (peers : List ℕ) (b : Buffers)
      → let b' = finalize peers b in
        (count n b'.freed ≡ count n peers + count n b.freed)
        × (b'.in_vm ≡ b.in_vm)
        × (b'.allocated ≡ b.allocated)
  unfolding finalize release_buffer
  finalize-count [] b = (omega arith, refl, refl)
  finalize-count (peer ∷ peers) b =
      let (c, v, a) = finalize-count peers (release_buffer peer b) in (omega (arith, c), v, a)

  step-OwnedOnce : (a : BufferAction) (b : Buffers) → OwnedOnce b → OwnedOnce (buffer_step a b).0
  unfolding buffer_step
  step-OwnedOnce (posts f posted) b h = post_owned-OwnedOnce f.port f.bytes posted b h
  step-OwnedOnce (collects i) b h =
      let (kept, freed) = collect_at i b.in_vm in
      let (c, v, a) = finalize-count freed (record b { in_vm = kept }) in
      rw (v, a) (omega (arith, h, c, collect_at-count i b.in_vm))

  run-OwnedOnce :
      (acts : List BufferAction) (b : Buffers) → OwnedOnce b → OwnedOnce (buffer_run acts b).0
  unfolding buffer_run
  run-OwnedOnce [] b h = h
  run-OwnedOnce (a ∷ acts) b h = run-OwnedOnce acts (buffer_step a b).0 (step-OwnedOnce a b h)

  -- However the bridge's threads post and the VM takes, refuses and collects messages: a buffer that was
  -- allocated is either held by the VM or has been freed once, and never both.
  pub freed-once :
      (acts : List BufferAction)
      → let b = (buffer_run acts no_buffers).0 in
        count n b.freed + count n b.in_vm ≡ (if ltb n b.allocated then 1 else 0)
  freed-once acts = run-OwnedOnce acts no_buffers (ground arith)
