-- ===== src/Flow.antt =====
-- From the orchestrator to the inventory service: StartBooking
-- (orchestrator/internal/service/saga.go), the relay (pkg/outbox), the consumer (pkg/kafka) and the
-- router and handler of inventory/internal.
use go_saga_outbox.Base.{◌≡◌}
use go_saga_outbox.Runtime.{Env}
use go_saga_outbox.Runtime.Ends.{Ends}
use go_saga_outbox.Contracts.Inventory.{ReserveSeat}
use go_saga_outbox.Inbox.Ends.{Unwritten}
use go_saga_outbox.Kafka.{Message}
use go_saga_outbox.Orchestrator.Service.Shared
use go_saga_outbox.Reservations.Model.{SeatDb}
use go_saga_outbox.Reservations
use go_saga_outbox.Reservations.{consumer_name}
use go_saga_outbox.Reservations.Reserving.{SoldOut, ReservedEffect}

-- What the inventory service does with the command `cmd`, in one of the ways of the handler.
pub data Served (e : Env) (c : Reservations.Codecs) (cmd : ReserveSeat) (msg : Message)
    (d d' : SeatDb) : Type 0 where
  unwritten : Unwritten e consumer_name msg.message_id d d' → Served e c cmd msg d d'
  sold_out : (h : SoldOut e c msg d d') → h.cmd ≡ cmd → Served e c cmd msg d d'
  reserved : (h : ReservedEffect e c msg d d') → h.cmd ≡ cmd → Served e c cmd msg d d'
