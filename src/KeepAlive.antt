-- ===== src/KeepAlive.antt =====
-- src/core/nc_keep_alive.c: when to send keep-alive packets and when to give a connection up.
-- A function that changes `*ctx` returns the new context. The timer is the platform's event queue:
-- a call of it is returned as a `QueueCall`. A division by zero is undefined in C: `none`.
pub mod Polls
pub mod Settings
pub mod Packets
mod Tests
use nabto_embedded_sdk.Base.{
  ℕ, ◌+◌, ◌/◌, ◌%◌, ◌^◌, Bool, true, false, not, ◌&&◌, ◌||◌, Option, none, some, List, [], ◌∷◌,
  ◌++◌, ltb, ◌==◌, if◌then◌else◌, take, drop, replicate,
}

abbrev pub u32 : ℕ → ℕ
u32 n = n % 2 ^ 32

abbrev pub default_interval : ℕ
default_interval = 30000

abbrev pub default_retry_interval : ℕ
default_retry_interval = 2000

abbrev default_max_retries : ℕ
default_max_retries = 15

-- `struct nc_keep_alive_context` without the platform and the event
pub record KeepAlive : Type 0 where
  pub ka_interval : ℕ  -- uint32_t, as the counters below
  pub ka_retry_interval : ℕ
  pub ka_max_retries : ℕ
  pub last_recv_count : ℕ
  pub last_sent_count : ℕ
  pub lost_keep_alives : ℕ
  pub n : ℕ
  pub is_sending : Bool
  pub send_buffer : List ℕ  -- 18 bytes

pub data Action : Type 0 where
  do_nothing send_ka ka_timeout : Action

-- Calls of the event queue for the event of the context.
pub data QueueCall : Type 0 where
  create_event cancel_event : QueueCall
  post_timed_event : ℕ → QueueCall

-- `pl` is set, and creating the event is the last call; its error is the caller's.
pub init : KeepAlive → KeepAlive × QueueCall
init c = (
  record c {
    ka_interval = default_interval;
    ka_retry_interval = default_retry_interval;
    ka_max_retries = default_max_retries;
    last_recv_count = 0;
    last_sent_count = 0;
    lost_keep_alives = 0;
    n = default_interval / default_retry_interval;
  },
  create_event,
)

pub stop : KeepAlive → KeepAlive × QueueCall
stop c = (c, cancel_event)

pub reset : KeepAlive → KeepAlive × QueueCall
reset c = (
  record c {
    ka_interval = default_interval;
    ka_retry_interval = default_retry_interval;
    ka_max_retries = default_max_retries;
    last_recv_count = 0;
    last_sent_count = 0;
    lost_keep_alives = 0;
  },
  cancel_event,
)

pub set_settings : KeepAlive → ℕ → ℕ → ℕ → Option KeepAlive
set_settings c interval retry_interval max_retries =
    if retry_interval == 0
    then none
    else some (record c {
      ka_interval = interval;
      ka_retry_interval = retry_interval;
      ka_max_retries = max_retries;
      n = interval / retry_interval;
    })

pub should_send : KeepAlive → ℕ → ℕ → KeepAlive × Action
should_send c recv_count sent_count =
    if ltb c.last_recv_count recv_count && ltb c.last_sent_count sent_count
    then (
      record c { lost_keep_alives = 0; last_recv_count = recv_count; last_sent_count = sent_count },
      do_nothing,
    )
    else if ltb (u32 (c.ka_max_retries + c.n)) c.lost_keep_alives
    then (c, ka_timeout)
    else let c' = record c { lost_keep_alives = u32 (c.lost_keep_alives + 1) } in
      (c', if not c'.is_sending && ltb c'.n c'.lost_keep_alives then send_ka else do_nothing)

unfoldable pub wait : KeepAlive → KeepAlive × QueueCall
wait c = (c, post_timed_event c.ka_retry_interval)

abbrev pub at_keep_alive : ℕ
at_keep_alive = 4

abbrev pub ct_keep_alive_request : ℕ
ct_keep_alive_request = 3

abbrev ct_keep_alive_response : ℕ
ct_keep_alive_response = 4

-- The packet goes out through `*buffer` and `*length`: all 18 bytes of the send buffer.
pub create_request : KeepAlive → KeepAlive
create_request c = record c {
  send_buffer = at_keep_alive ∷ ct_keep_alive_request ∷ replicate 16 0;
  is_sending = true;
}

-- The second result is what the function returns; if it is true the send buffer goes out.
pub handle_request : KeepAlive → List ℕ → ℕ → KeepAlive × Bool
handle_request c req_buffer req_length = if ltb req_length 18 || c.is_sending then (c, false) else (
  record c {
    send_buffer = at_keep_alive ∷ ct_keep_alive_response ∷ take 16 (drop 2 req_buffer);
    is_sending = true;
  },
  true,
)

pub packet_sent : KeepAlive → KeepAlive
packet_sent c = record c { is_sending = false }
