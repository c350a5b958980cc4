-- ===== src/Tests/Conversation.antt =====
-- A request and its response between the two ends of a connection, at concrete inputs.
use servercc.Common.{◌≡◌, refl, pos, false, List, [], ◌∷◌, some, none, done, arith}
use servercc.Types.Status.{ok_status}
use servercc.Types.Message.{Message}
use servercc.Connectors.Channel.{Channel, Side, requests, responses, write, new_channel}
use servercc.Connectors.Manager.{State, new_manager, free_ids, allocate, forward_message}
use servercc.Connectors.Manager.Invariant.{IsValid, new_manager-IsValid}
use servercc.Connectors.Manager.Opening.{opened, popped, opened_request-IsValid}
use servercc.Connectors.Manager.Delivery.{IsWrappable, Arrives, delivered}
use servercc.Connectors.InternalRequest.{InternalRequest, receive_message}
use servercc.Connectors.Conversation.{request-received, response-received}
use servercc.Fixtures.{
  local_env, local_addr, small_config, small_config-IsConfig, loopback_stream, list_fifo, Net, idle,
  greeting, greeting-IsHeader,
}

abbrev fresh : State local_env
fresh = new_manager small_config local_env (pos 5) idle

greeting-IsWrappable : IsWrappable greeting
greeting-IsWrappable = record { header_fits = greeting-IsHeader; room = omega arith }

abbrev channel : Side → Channel (List Message)
channel side = record {
  side = side;
  id = 1;
  write_fd = pos 5;
  is_closed = false;
  message_buffer = [];
}

-- The request channel 1 is open.
abbrev asking : State local_env
asking = opened small_config local_env requests 1 (popped small_config local_env (0 ∷ []) 1 fresh)

asking-IsValid : IsValid small_config local_env asking
unfolding new_manager free_ids
asking-IsValid =
    opened_request-IsValid small_config local_env 1 1 (0 ∷ []) fresh
      (new_manager-IsValid small_config local_env (pos 5) idle) refl refl

asking-heap : asking.heap 0 ≡ some (channel requests)
unfolding new_manager allocate new_channel
asking-heap = refl

asking-request_channel : asking.request_channel 1 ≡ some 0
unfolding new_manager allocate
asking-request_channel = refl

fresh-response_channel : fresh.response_channel 1 ≡ none
unfolding new_manager
fresh-response_channel = refl

request-received_example :
    (sent : Message) × (w' : Net) × (s' : State local_env) × (s'' : State local_env) × (write
        small_config local_env
        (channel requests)
        greeting
        idle
      ≡ done (ok_status, w'))
    × Arrives small_config local_env
        (pos 6)
        (channel requests)
        (loopback_stream (pos 5) (pos 6))
        sent
        w'
    × (forward_message small_config local_env sent fresh
        ≡ done (ok_status, 7, some fresh.next_ref, s'))
    × (receive_message small_config local_env
          (record { protocol = 7; addr = local_addr; channel = fresh.next_ref })
          s'
        ≡ done (ok_status, some (delivered greeting), s''))
request-received_example =
    request-received small_config local_env list_fifo (pos 6) (channel requests)
      (loopback_stream (pos 5) (pos 6)) greeting local_addr idle fresh small_config-IsConfig
      greeting-IsWrappable refl refl (omega arith) refl refl (omega arith) fresh-response_channel

abbrev asked_request : InternalRequest
asked_request = record { protocol = 0; addr = local_addr; channel = 0 }

response-received_example :
    (sent : Message) × (w' : Net) × (s' : State local_env) × (s'' : State local_env) × (write
        small_config local_env
        (channel responses)
        greeting
        idle
      ≡ done (ok_status, w'))
    × Arrives small_config local_env
        (pos 6)
        (channel responses)
        (loopback_stream (pos 5) (pos 6))
        sent
        w'
    × (forward_message small_config local_env sent asking ≡ done (ok_status, 7, none, s'))
    × (receive_message small_config local_env asked_request s'
        ≡ done (ok_status, some (delivered greeting), s''))
response-received_example =
    response-received small_config local_env list_fifo (pos 6) (channel responses)
      (loopback_stream (pos 5) (pos 6)) greeting idle asking asked_request (channel requests)
      small_config-IsConfig greeting-IsWrappable refl refl (omega arith) refl refl asking-IsValid
      asking-request_channel asking-heap refl refl
