-- ===== src/Tests/Responses.antt =====
-- Responses that reach the engine.
use proctssor.Prelude.{
  ◌++◌, map, String, ◌==◌, ◌≡◌, refl, true, false, List, [], ◌∷◌, none, ok, err, length,
  if◌then◌else◌,
}
use proctssor.Responses.{
  ResponseStatus, ServiceResponse, Message, ResponseHandler, JetStream, delivered, processed,
  handlers_set, instance_subscribed, started, stopped, Event, capacity, run,
}
use proctssor.Responses.Queue.{gather, queued_in}
use proctssor.Responses.Handled.{calls_in, calls_of, run-handles}
use proctssor.Responses.Kept.{kept_in, settled_in, deliveries, AllKept, settlement, run-keeps}
use Prim.Native.Nat.{◌≤◌}

abbrev paid : ServiceResponse
paid = record {
  command_id = "c1";
  instance_id = "order";
  token_id = "t1";
  node_id = "pay";
  status = ResponseStatus.success;
  output_variables = [];
  error_message = "";
  error_code = "";
  processed_at = 0;
}

abbrev jet_stream : JetStream
jet_stream = record {
  decode = λ content. if content == "paid" then ok paid else err "no JSON";
  publishes = λ subject content. none;
  subscribe = λ subject. none;
  unsubscribe = λ subject. none;
}

abbrev message : String → Message
message content = record { subject = "wf.resp.order"; content = content }

abbrev events : List Event
events =
    started
    ∷ handlers_set true true
    ∷ instance_subscribed "order"
    ∷ delivered 5 (message "paid")
    ∷ delivered 6 (message "broken")
    ∷ processed
    ∷ delivered 7 (message "paid")
    ∷ stopped
    ∷ []

abbrev parking : ResponseHandler
parking = record {
  subscriptions = [];
  response_chan = [];
  success_set = false;
  error_set = false;
  dlq = true;
}

abbrev busy : ResponseHandler
busy = record parking { success_set = true; error_set = true }

-- The one response that is taken is handed to the success handler.
run-handles_example :
    (gather calls_in (run jet_stream busy events).0
        ++ calls_of (run jet_stream busy events).1.response_chan
      ≡ calls_of ([] ++ gather queued_in (run jet_stream busy events).0))
    × (0 ≤ capacity → length (run jet_stream busy events).1.response_chan ≤ capacity)
run-handles_example =
    run-handles jet_stream busy events (refl, refl)
      (tt, ((refl, refl), (tt, (tt, (tt, (tt, (tt, (tt, tt))))))))

run-keeps_example :
    AllKept jet_stream (deliveries events) (gather kept_in (run jet_stream parking events).0)
    × (gather settled_in (run jet_stream parking events).0
        ≡ map (settlement jet_stream) (deliveries events))
run-keeps_example = run-keeps jet_stream parking events (λ subject content. refl) refl
