-- ===== src/Connectors/Channel.antt =====
-- servercc/connectors/include/internal_channel.h: one channel.
use servercc.Common.{ℕ, ℤ, Bool, true, false, Option, Outcome, done, ◌>>=◌, if◌then◌else◌}
use servercc.Types.Status.{Status, error, failed_precondition}
use servercc.Types.Memory.{uint32, word32_bytes}
use servercc.Types.Message.{Message, wrap_message}
use servercc.Types.Stream.{write_message}
use servercc.Connectors.Env.{Env, ChannelConfig}

-- The two instances of the template: a channel that writes requests, and one that writes responses.
pub data Side : Type 0 where
  requests responses : Side

abbrev pub write_protocol : ChannelConfig → Side → ℕ
write_protocol config requests = config.request_protocol
write_protocol config responses = config.response_protocol

abbrev pub write_end_protocol : ChannelConfig → Side → ℕ
write_end_protocol config requests = config.request_end_protocol
write_end_protocol config responses = config.response_end_protocol

-- `side` stands for the template arguments and for the close callback, which the manager sets to
-- the removal of this channel from the array of its side.
pub record Channel (B : Type 0) : Type 0 where
  pub side : Side
  pub id : ℕ
  pub write_fd : ℤ
  pub is_closed : Bool
  pub message_buffer : B

module _ (config : ChannelConfig) (env : Env) where
  open env use {World, Buffer}

  unfoldable pub new_channel : Side → ℕ → ℤ → Channel Buffer
  new_channel side id write_fd = record {
    side = side;
    id = id;
    write_fd = write_fd;
    is_closed = false;
    message_buffer = env.new_buffer;
  }

  unfoldable pub read : Channel Buffer → Outcome (Status × Option Message × Channel Buffer)
  read c = do
    (status, message, buffer) ← env.pop c.message_buffer
    done (status, message, record c { message_buffer = buffer })

  unfoldable pub read_for :
      Bool → Channel Buffer → Outcome (Status × Option Message × Channel Buffer)
  read_for expired c = do
    (status, message, buffer) ← env.pop_for expired c.message_buffer
    done (status, message, record c { message_buffer = buffer })

  unfoldable pub write : Channel Buffer → Message → World → Outcome (Status × World)
  write c message w =
      if c.is_closed then done (error failed_precondition "Channel is closed", w) else do
        wrapped ← wrap_message uint32 (write_protocol config c.side) c.id message
        done (write_message env.posix c.write_fd wrapped w)

  unfoldable pub push : Channel Buffer → Message → Status × Channel Buffer
  push c message =
      if c.is_closed
      then (error failed_precondition "Channel is closed", c)
      else let (status, buffer) = env.push message c.message_buffer in
        (status, record c { message_buffer = buffer })

  unfoldable pub end_message : Channel Buffer → Message
  end_message c = record {
    header = record { length = 4; protocol = write_end_protocol config c.side };
    body = word32_bytes c.id;
  }

  -- `close` up to the close callback: a status that says the end message was not sent is only
  -- logged.
  unfoldable pub shut : Channel Buffer → World → Channel Buffer × World
  unfolding end_message
  shut c w =
      let (status, w') = write_message env.posix c.write_fd (end_message c) w in
      (record c { is_closed = true; message_buffer = env.close_buffer c.message_buffer }, w')
