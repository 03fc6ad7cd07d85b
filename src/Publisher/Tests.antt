-- ===== src/Publisher/Tests.antt =====
-- The publisher over the controller of the controller's own tests.
use metrika_agent.Prelude.{false, none, List}
use metrika_agent.Model.{Body, Message}
use metrika_agent.Buf.Queue.{Item}
use metrika_agent.Buf.Buffer.Fill.{priority_buffer}
use metrika_agent.Buf.Ctrl.Tests.{controller}
use metrika_agent.Publisher.{Publisher}

abbrev publisher : Publisher priority_buffer.State (List Item)
publisher = record {
  buf_ctrl = controller;
  once = false;
  last_err = none;
  protocol = "flow";
  version = "v1";
}

abbrev family : Message
family = record { name = "up"; value = Body.metric_family "up" }
