-- ===== src/Demo/Adapters.antt =====
-- packages/dogos_demo/adapters.py: the adapters without hardware. What they keep of earlier dispatches,
-- the trace of the simulation, is the list of commands that the world counts.
use dogos_memory.Base.{
  Bool, List, Result, Text, codes, err, false, if◌then◌else◌, none, ok, some, true,
}
use dogos_memory.Demo.Models.{DemoError, validation_error}
use dogos_memory.Demo.Session.{
  ActionCommand, ActionReceipt, CommandReport, CompletionSource, ReceiptStatus, check_receipt,
  service_acknowledged,
}
use dogos_memory.Demo.World.{ActionAdapter}

-- `SimulationAdapter.execute`
unfoldable pub simulate : Text → ActionCommand → ActionReceipt
simulate adapter_id c = record {
  status = ReceiptStatus.completed;
  command_id = c.command_id;
  adapter_id = adapter_id;
  occurred_at_ms = c.issued_at_ms;
  source = some CompletionSource.simulation;
  detail = codes "software simulation completed; physical effect not claimed";
}

-- `ServiceAcknowledgementAdapter.execute`
unfoldable pub acknowledge : Text → ActionCommand → ActionReceipt
acknowledge adapter_id c = record {
  status = service_acknowledged;
  command_id = c.command_id;
  adapter_id = adapter_id;
  occurred_at_ms = c.issued_at_ms;
  source = none;
  detail = codes "service acknowledged request; physical completion unverified";
}

-- the constructor call `ActionReceipt(...)`
abbrev received : ActionReceipt → Result DemoError ActionReceipt
received r = if check_receipt r then ok r else err validation_error

unfoldable pub simulation_adapter : Text → ActionAdapter
simulation_adapter id = record { adapter_id = id; respond = λ before c. received (simulate id c) }

unfoldable pub acknowledgement_adapter : Text → ActionAdapter
acknowledgement_adapter id = record {
  adapter_id = id;
  respond = λ before c. received (acknowledge id c);
}

-- `StopToken.should_stop` after a request, and `NeverStop.should_stop`
abbrev pub stop_requested_at_once : List CommandReport → Bool
stop_requested_at_once reports = true

abbrev pub never_stop : List CommandReport → Bool
never_stop reports = false
