-- ===== src/Examples/Cancellation.antt =====
-- The worker's process: a directive that comes before the handler's cancel function.
use task_forge.Base.{◌≡◌, refl, true, some, [], ◌∷◌}
use task_forge.Table.{find, put}
use task_forge.Worker.Registry.{Directive, Entry, deliver, empty_registry, register, bind}
use task_forge.Worker.Registry.Laws.{
  registers, binds, after, after_all, is_signaled, directive_reaches_handler,
}
use task_forge.Examples.{fence}

abbrev directive : Directive
directive = record { job_id = 10; attempt_id = 20; lease_id = 21 }

abbrev bound_entry : Entry
bound_entry = record { fence = fence; cancel = some 1; canceled = true }

delivered_first : (deliver (after_all empty_registry (registers fence ∷ [])) directive).1 ≡ true
unfolding deliver after_all after register find put
delivered_first = refl

entry_found :
    find 20
      (after_all
        (deliver (after_all empty_registry (registers fence ∷ [])) directive).0
        (binds 20 1 ∷ [])).entries
    ≡ some bound_entry
unfolding deliver after_all after register bind find put
entry_found = refl

directive_reaches_handler_example :
    (bound_entry.canceled ≡ true)
    × (is_signaled 1
          (after_all
            (deliver (after_all empty_registry (registers fence ∷ [])) directive).0
            (binds 20 1 ∷ [])).signaled
        ≡ true)
directive_reaches_handler_example =
    directive_reaches_handler (registers fence ∷ []) (binds 20 1 ∷ []) directive bound_entry 1
      delivered_first refl entry_found refl
