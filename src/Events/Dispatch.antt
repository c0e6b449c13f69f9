-- ===== src/Events/Dispatch.antt =====
-- The order of the callbacks.
use aether_vm.Prelude.{suc, false, List, [], ◌∷◌, ◌++◌, length, All, ◌≡◌, refl}
use aether_vm.Events.{EventResult, continue, Event, is_continue, handle_event}

-- The callbacks are called in the order of their registration up to the first that does not answer
-- `Continue`; its answer is the answer, and no later one is called.
pub handle_event-first :
    (before rest : List (Event → EventResult)) (callback : Event → EventResult) (event : Event)
    → All (λ f. f event ≡ continue) before
    → is_continue (callback event) ≡ false
    → handle_event (before ++ callback ∷ rest) event ≡ (callback event, suc (length before))
unfolding handle_event
handle_event-first [] rest callback event h e = rw e refl
handle_event-first (f ∷ before) rest callback event h e =
    rw (h.0, handle_event-first before rest callback event h.1 e) refl
