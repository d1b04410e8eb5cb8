-- ===== src/Automation/Outbox/Tests.antt =====
-- Three pending events and their subscriptions.
use delmos.Base.{◌≡◌, ◌+◌, refl, arith, true, false, none, [], ◌∷◌, All, length}
use delmos.Automation.Outbox.{
  Queue, emit_event, route, pending_rows, mark_dispatched, dispatch_rows, dispatch_pending,
}
use delmos.Automation.Outbox.Dispatch.{
  Routes, total_audience, dispatch_pending-Routed, dispatch_pending-again,
}

abbrev idle : Queue
idle = record {
  outbox = [];
  subscriptions =
      record { id = 71; trigger_key = "a"; event_key = "saved"; active = true }
      ∷ record { id = 72; trigger_key = "b"; event_key = "saved"; active = false }
      ∷ record { id = 73; trigger_key = "c"; event_key = "saved"; active = true }
      ∷ [];
  deliveries = [];
  next_id = 1;
}

abbrev busy : Queue
busy = emit_event 900 5 "saved" none none 901 [] (emit_event 902 6 "lost" none none 903 [] idle)

two_deliveries : length (dispatch_pending 9 busy).0.deliveries ≡ 2
unfolding dispatch_pending dispatch_rows route mark_dispatched pending_rows
two_deliveries = refl

dispatch_pending-Routed_example :
    All
      (λ r. Routes r busy.subscriptions (dispatch_pending 9 busy).0.deliveries)
      (pending_rows 100 busy.outbox)
    × (length (dispatch_pending 9 busy).0.deliveries
        ≡ length busy.deliveries + total_audience (pending_rows 100 busy.outbox) busy.subscriptions)
dispatch_pending-Routed_example = dispatch_pending-Routed 9 busy

dispatch_pending-again_example :
    dispatch_pending 12 (dispatch_pending 9 busy).0 ≡ ((dispatch_pending 9 busy).0, 0)
dispatch_pending-again_example = dispatch_pending-again 9 12 busy (omega arith)
