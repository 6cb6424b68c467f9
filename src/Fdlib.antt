-- ===== src/Fdlib.antt =====
-- fdlib/fdlib.go: the failure detector. A method of `FD`, and a turn of a goroutine's loop, is one
-- step from a state of the library to the next. What the sockets and the clock answer in a step is an
-- argument of it. Times are in nanoseconds, and round trip times have no bound; the age of an ack
-- that comes before the first heartbeat is not Go's, which is the largest duration. The channel of the
-- notifications is read before it is full.
pub mod Turn
pub mod Run
mod Unacked
mod Silent
mod Numbers
mod Sound
mod Tests
use blockafile.Base.{
  ℕ, zero, suc, ◌+◌, ◌-◌, ◌*◌, ◌/◌, ◌%◌, ◌^◌, ◌≡◌, Bool, true, false, not, ◌&&◌, ◌||◌, Option, none,
  some, List, [], ◌∷◌, ◌++◌, Bytes, bytes_eq, leb, ltb, ◌==◌, if◌then◌else◌,
}
use blockafile.Base.Dict.{Dict, lookup, insert, erase}
use blockafile.Base.Result.{Result, ok, err}

abbrev pub uint8_size : ℕ
uint8_size = 256

abbrev pub uint64_size : ℕ
uint64_size = 2 ^ 64

pub record HbeatMessage : Type 0 where
  pub epoch_nonce : ℕ
  pub seq_num : ℕ

pub record AckMessage : Type 0 where
  pub hbeat_epoch_nonce : ℕ
  pub hbeat_seq_num : ℕ

-- The variables of `monitorNode`.
pub record Monitor : Type 0 where
  pub lost_msg_thresh : ℕ
  pub count_lost_msgs : ℕ
  pub one_heartbeat_sent : Bool
  pub last_heartbeat_sent_at : ℕ

-- `fdlib`. Of a `monitoringInfo` it keeps `lostMsgThresh`. `running` has the goroutines that monitor,
-- `heartbeats` what was written to each node, in the order in which the sequence numbers were taken
-- (two monitors may write in another order than that), and `notified` what went into the channel.
pub record Fd : Type 0 where
  pub epoch_nonce : ℕ
  pub monitoring_nodes : Dict ℕ
  pub running : Dict Monitor
  pub responding_on : Bytes
  pub curr_seq_num : ℕ
  pub round_trip_times : Dict ℕ
  pub heartbeats : List (Bytes × HbeatMessage)
  pub notified : List Bytes

pub data FdError : Type 0 where
  multiple_initialize multiple_start_responding socket_error : FdError

-- `InitializeFDLib`, from the instance that there is and `IgnoreInstanceCheck`.
unfoldable pub initialize_fd_lib : Option Fd → Bool → ℕ → Result FdError Fd
initialize_fd_lib instance_before ignore_check epoch_nonce =
    let fresh : Fd = record {
      epoch_nonce = epoch_nonce;
      monitoring_nodes = [];
      running = [];
      responding_on = [];
      curr_seq_num = 0;
      round_trip_times = [];
      heartbeats = [];
      notified = [];
    } in
    elim instance_before [
      | none ↦ ok fresh
      | some fd ↦ if ignore_check then ok fresh else err multiple_initialize
    ]

-- `StartResponding`; `listens` is whether the address resolves and can be listened on.
unfoldable pub start_responding : Fd → Bytes → Bool → Result FdError Fd
start_responding fd local_ip_port listens =
    if not (bytes_eq fd.responding_on [])
    then err multiple_start_responding
    else if listens
    then ok (record fd { responding_on = local_ip_port })
    else err socket_error

-- `StopResponding`
unfoldable pub stop_responding : Fd → Fd
stop_responding fd = record fd { responding_on = [] }

-- What a turn of `respondToNodes` reads, and whether it can encode and write its answer.
pub data Heard : Type 0 where
  read_failed undecodable : Heard
  heartbeat : HbeatMessage → Bool → Bool → Heard

-- A turn of `respondToNodes`: the ack that is written to where the heartbeat came from.
unfoldable pub respond_to_nodes : Heard → Option AckMessage
respond_to_nodes read_failed = none
respond_to_nodes undecodable = none
respond_to_nodes (heartbeat h encodes writes) =
    if encodes && writes
    then some (record { hbeat_epoch_nonce = h.epoch_nonce; hbeat_seq_num = h.seq_num })
    else none

-- 3 seconds
abbrev pub first_round_trip_time : ℕ
first_round_trip_time = 3000000000

abbrev pub new_monitor : ℕ → Monitor
new_monitor lost_msg_thresh = record {
  lost_msg_thresh = lost_msg_thresh;
  count_lost_msgs = 0;
  one_heartbeat_sent = false;
  last_heartbeat_sent_at = 0;
}

-- The case `newThresh := <-mInfo.updateThreshChannel` of `monitorNode`.
abbrev pub updated : Bytes → ℕ → Dict Monitor → Dict Monitor
updated remote new_thresh running = elim (lookup remote running) [
  | none ↦ running
  | some m ↦ insert remote (record m { lost_msg_thresh = new_thresh }) running
]

-- `AddMonitor`; `dials` is whether both addresses resolve and the connection is made. A threshold
-- that is sent is taken by the goroutine, which the send waits for.
unfoldable pub add_monitor : Fd → Bytes → ℕ → Bool → Result FdError Fd
add_monitor fd remote thresh dials = elim (lookup remote fd.monitoring_nodes) [
  | some old_thresh ↦
      if old_thresh == thresh
      then ok fd
      else ok (record fd { running = updated remote thresh fd.running })
  | none ↦
      if dials
      then ok (record fd {
        monitoring_nodes = insert remote thresh fd.monitoring_nodes;
        running = insert remote (new_monitor thresh) fd.running;
        round_trip_times = insert remote first_round_trip_time fd.round_trip_times;
      })
      else err socket_error
]

-- Of a node that is monitored: its goroutine ends, and its entry is deleted.
abbrev pub dropped : Bytes → Fd → Fd
dropped remote fd = record fd {
  monitoring_nodes = erase remote fd.monitoring_nodes;
  running = erase remote fd.running;
}

-- `RemoveMonitor`
unfoldable pub remove_monitor : Fd → Bytes → Fd
remove_monitor fd remote = elim (lookup remote fd.monitoring_nodes) [
  | none ↦ fd
  | some old_thresh ↦ dropped remote fd
]

abbrev pub drop_all : Dict ℕ → Fd → Fd
drop_all [] fd = fd
drop_all ((remote, old_thresh) ∷ nodes) fd = drop_all nodes (dropped remote fd)

-- `StopMonitoring`
unfoldable pub stop_monitoring : Fd → Fd
stop_monitoring fd = drop_all fd.monitoring_nodes fd
