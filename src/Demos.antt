-- ===== src/Demos.antt =====
-- demos/distributed_demo.cc: the echo service, its handler and its command in the shell.
pub mod Runs
pub mod Echo
use servercc.Common.{
  ℕ, ◌%◌, ◌^◌, not, List, Option, none, some, Outcome, done, undefined, ◌>>=◌, if◌then◌else◌,
  length,
}
use servercc.Types.Status.{Status, ok_status, is_ok, with_context}
use servercc.Types.Message.{Message}
use servercc.Connectors.Env.{Env, ChannelConfig}
use servercc.Connectors.Manager.{State, create_request_channel}
use servercc.Connectors.InternalRequest.{
  InternalRequest, new_internal_request, send_message, receive_message, terminate,
}

abbrev pub echo_protocol : ℕ
echo_protocol = 20

-- The length of the text is assigned to a word of 32 bits.
abbrev pub echo_message : List ℕ → Message
echo_message text = record {
  header = record { length = length text % 2 ^ 32; protocol = echo_protocol };
  body = text;
}

module _ (config : ChannelConfig) (env : Env) where
  -- The handler returns, and its request is destroyed.
  unfoldable pub end_with :
      Status → InternalRequest → State env → Outcome (Option Status × State env)
  end_with status r s = do s' ← terminate config env r s; done (some status, s')

  -- A turn of the handler's loop: `none` where it goes on, and otherwise the status that the handler
  -- returns.
  unfoldable pub echo_turn : InternalRequest → State env → Outcome (Option Status × State env)
  unfolding end_with
  echo_turn r s = do
    (received, message, s') ← receive_message config env r s
    if not (is_ok received) then end_with ok_status r s' else elim message [
      | none ↦ undefined
      | some m ↦ do
        (sent, s'') ← send_message config env m r s'
        if is_ok sent
            then done (none, s'')
            else end_with (with_context "Failed to send echo reply" sent) r s''
    ]

  -- The shell sends a text to a peer that is a client, with this manager; `none` where it breaks off.
  unfoldable pub send_echo : List ℕ → State env → Outcome (Option InternalRequest × State env)
  send_echo text s = do
    (opened, channel, s') ← create_request_channel config env s
    if not (is_ok opened) then done (none, s') else elim channel [
      | none ↦ undefined
      | some ref ↦ do
        (sent, s'') ← send_message config env (echo_message text) (new_internal_request ref) s'
        if is_ok sent
            then done (some (new_internal_request ref), s'')
            else do s''' ← terminate config env (new_internal_request ref) s''; done (none, s''')
    ]

  -- It waits for the reply, and its request is destroyed; `none` where there is no reply.
  unfoldable pub receive_echo : InternalRequest → State env → Outcome (Option Message × State env)
  receive_echo r s = do
    (received, reply, s') ← receive_message config env r s
    s'' ← terminate config env r s'
    done (if is_ok received then reply else none, s'')
