-- ===== src/Connectors/Env.antt =====
-- What a connector stands on: the sockets, and the message buffer of the library libcc.
use servercc.Common.{Bool, List, Option, Outcome, [], done, some, true, ℕ, ◌++◌, ◌∷◌, ◌≡◌}
use servercc.Types.Status.{Status, ok_status}
use servercc.Types.Protocols.{
  internal_request_protocol, internal_request_end_protocol, internal_response_protocol,
  internal_response_end_protocol,
}
use servercc.Types.Message.{Message}
use servercc.Types.Posix.{Posix}

-- `ostp::libcc::data_structures::MessageBuffer<std::unique_ptr<Message>>`. `pop` may block, and
-- `pop_for` is told whether its time ran out.
pub record MessageBuffer : Type 1 where
  pub Buffer : Type 0
  pub new_buffer : Buffer
  pub push : Message → Buffer → Status × Buffer
  pub pop : Buffer → Outcome (Status × Option Message × Buffer)
  pub pop_for : Bool → Buffer → Outcome (Status × Option Message × Buffer)
  pub close_buffer : Buffer → Buffer

-- What the library promises of a buffer that is not closed: it takes every message, and gives them
-- back in order.
pub record Fifo (buffers : MessageBuffer) : Type 0 where
  pub contents : buffers.Buffer → List Message
  pub is_open : buffers.Buffer → Bool
  pub new_contents : contents buffers.new_buffer ≡ []
  pub new_open : is_open buffers.new_buffer ≡ true
  pub push_ok :
      (m : Message) (b : buffers.Buffer)
      → is_open b ≡ true
      → (buffers.push m b).0 ≡ ok_status
        × (contents (buffers.push m b).1 ≡ contents b ++ (m ∷ []))
        × (is_open (buffers.push m b).1 ≡ true)
  pub pop_first :
      (m : Message) (ms : List Message) (b : buffers.Buffer)
      → is_open b ≡ true
      → contents b ≡ m ∷ ms
      → (b' : buffers.Buffer) × (buffers.pop b ≡ done (ok_status, some m, b'))
        × (contents b' ≡ ms)
        × (is_open b' ≡ true)

pub record Env : Type 1 where
  pub posix : Posix
  pub open posix use *
  pub buffers : MessageBuffer
  pub open buffers use *

-- The template arguments of a channel manager.
pub record ChannelConfig : Type 0 where
  pub request_protocol : ℕ
  pub request_end_protocol : ℕ
  pub response_protocol : ℕ
  pub response_end_protocol : ℕ
  pub error_protocol : ℕ
  pub max_channels : ℕ

-- `connector_channel_manager_t` of connector_types.h.
abbrev pub connector_config : ChannelConfig
connector_config = record {
  request_protocol = internal_request_protocol;
  request_end_protocol = internal_request_end_protocol;
  response_protocol = internal_response_protocol;
  response_end_protocol = internal_response_end_protocol;
  error_protocol = internal_response_end_protocol;
  max_channels = 1024;
}
