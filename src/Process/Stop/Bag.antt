-- ===== src/Process/Stop/Bag.antt =====
-- The answer of `stop` (native/src/installation_reader.cpp) forgets the order in which libflatpak lists the
-- running instances: it is a function on their bag.
use flatpak_dart.Base.{ℕ, ◌≡◌, refl, sym, ap, ◌∙◌, Bool, ◌&&◌, some, List}
use flatpak_dart.Base.{[], ◌∷◌, Bytes, arith, Bool-cases, inl, inr, if◌then◌else◌}
use flatpak_dart.Flatpak.{FlatpakInstance, same_text, is_positive}
use flatpak_dart.Process.Stop.{stop_target, is_match, instances_of, stop}
use flatpak_dart.Process.Stop.Verdict.{some_running, some_signalled, reaches, verdict, stop-verdict}
use flatpak_dart.Spec.Bag.{any_of, of_list, some_in, some_in-of_list}

-- The instances that `stop` is for, in plain words: those with the application's id that run.
abbrev pub runs : Bytes → FlatpakInstance → Bool
runs app_id i = i.is_running && same_text i.app (some app_id)

-- A signal goes to the child where there is one, and otherwise to the outer process.
abbrev pub signals : (ℕ → Bool) → FlatpakInstance → Bool
signals signal i =
    if is_positive i.child_pid then signal i.child_pid else is_positive i.pid && signal i.pid

module _ (signal : ℕ → Bool) (port : ℕ) (app_id : Bytes) where
  -- A running instance of the application that could be signalled.
  abbrev pub is_signalled : FlatpakInstance → Bool
  is_signalled i = runs app_id i && signals signal i

  is_match-runs : (i : FlatpakInstance) → is_match app_id i ≡ runs app_id i
  unfolding is_match
  is_match-runs i = ground arith

  reaches-signals : (i : FlatpakInstance) → reaches signal (stop_target i) ≡ signals signal i
  unfolding stop_target
  reaches-signals i = elim (Bool-cases (is_positive i.child_pid)) [
    | inl e ↦ rw e refl
    | inr e ↦ elim (Bool-cases (is_positive i.pid)) [
      | inl k ↦ rw (e, k) refl
      | inr k ↦ rw (e, k) refl
    ]
  ]

  some_running-any_of :
      (is : List FlatpakInstance) → some_running app_id is ≡ any_of (runs app_id) is
  some_running-any_of [] = refl
  some_running-any_of (i ∷ is) = rw (is_match-runs i, some_running-any_of is) refl

  some_signalled-any_of :
      (is : List FlatpakInstance) → some_signalled signal app_id is ≡ any_of is_signalled is
  some_signalled-any_of [] = refl
  some_signalled-any_of (i ∷ is) =
      rw (is_match-runs i, reaches-signals i, some_signalled-any_of is) refl

  -- `stop` answers what is a function of the bag of running instances, in whatever order they are
  -- listed, where what signalling answers depends on the process alone: "not found" when no instance
  -- that runs has the application's id, a failure when one has but none could be signalled, and success
  -- when one was. What is signalled of an instance is its child where that has a pid, and else its outer
  -- process, where that has one.
  pub stop-Bag :
      (is : List FlatpakInstance)
      → stop signal port app_id (some is)
        ≡ verdict port (some_in (runs app_id) (of_list is)) (some_in is_signalled (of_list is))
  unfolding instances_of
  stop-Bag is =
      stop-verdict signal port app_id (some is)
      ∙ ap (λ b. verdict port b (some_signalled signal app_id is))
          (some_running-any_of is ∙ sym (some_in-of_list (runs app_id) is))
      ∙ ap (verdict port (some_in (runs app_id) (of_list is)))
          (some_signalled-any_of is ∙ sym (some_in-of_list is_signalled is))
