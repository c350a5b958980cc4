-- ===== src/Tests/Managers.antt =====
-- The channel managers of servercc/connectors at concrete inputs.
use servercc.Common.{
  ℕ, ◌<◌, ◌≡◌, ◌⊎◌, inl, inr, refl, pos, true, false, List, [], ◌∷◌, some, none, done, undefined,
  arith,
}
use servercc.Types.Status.{Status, ok_status, error, failed_precondition}
use servercc.Types.Header.{header_of_bytes}
use servercc.Types.Memory.{uint32, copy_from}
use servercc.Types.Message.{Message, unwrap_message}
use servercc.Connectors.Channel.{Channel, Side, requests, responses, new_channel}
use servercc.Connectors.Manager.{
  State, new_manager, allocate, call_depth, close, create_request_channel, forward_message,
  forward_request, destroy_manager,
}
use servercc.Connectors.Manager.Retire.{slot, remove_from}
use servercc.Connectors.Manager.Invariant.{IsValid, new_manager-IsValid}
use servercc.Connectors.Manager.Opening.{
  opened, RequestOpened, create_request_channel-RequestOpened, create_response_channel-IsValid,
}
use servercc.Connectors.Manager.Closing.{
  close-eq-remove_from, Closed, close-Closed, destroy_manager-closes,
}
use servercc.Connectors.Manager.Forwarding.{Handled, WrappedInRange, forward_message-Handled}
use servercc.Connectors.Manager.Unchecked.{
  forward_message-undefined, forward_end-undefined, forward_request-channel,
}
use servercc.Connectors.InternalRequest
use servercc.Connectors.InternalRequest.{InternalRequest, new_internal_request, terminate-ends}
use servercc.Fixtures.{local_env, small_config, small_config-IsConfig, idle, greeting}

abbrev pub fresh : State local_env
fresh = new_manager small_config local_env (pos 5) idle

fresh-IsValid : IsValid small_config local_env fresh
fresh-IsValid = new_manager-IsValid small_config local_env (pos 5) idle

abbrev pub channel_one : Channel (List Message)
channel_one = record {
  side = responses;
  id = 1;
  write_fd = pos 5;
  is_closed = false;
  message_buffer = [];
}

-- The response channel 1 is open.
abbrev pub one_open : State local_env
one_open = opened small_config local_env responses 1 fresh

pub one_open-IsValid : IsValid small_config local_env one_open
unfolding new_manager
one_open-IsValid =
    elim (create_response_channel-IsValid small_config local_env 1 fresh fresh-IsValid
      (omega arith)) [ inl (ref, taken, run) ↦ cc | inr (free, run, valid) ↦ valid ]

one_open-heap : one_open.heap 0 ≡ some channel_one
unfolding new_manager allocate new_channel
one_open-heap = refl

create_request_channel-RequestOpened_example :
    RequestOpened small_config local_env one_open
      (create_request_channel small_config local_env one_open)
create_request_channel-RequestOpened_example =
    create_request_channel-RequestOpened small_config local_env one_open one_open-IsValid

close-Closed_example :
    (s' : State local_env) × (close small_config local_env call_depth 0 one_open ≡ done s')
    × Closed small_config local_env 0 one_open s'
close-Closed_example =
    close-Closed small_config local_env 0 channel_one one_open one_open-IsValid one_open-heap

close-eq-remove_from_example :
    close small_config local_env call_depth 0 one_open
    ≡ remove_from small_config local_env responses call_depth 1 one_open
close-eq-remove_from_example =
    close-eq-remove_from small_config local_env 0 channel_one one_open one_open-IsValid
      one_open-heap refl

destroy_manager-closes_example :
    (s' : State local_env) × (destroy_manager small_config local_env one_open ≡ done s')
    × ((side : Side) (i : ℕ) → i < 2 → slot s' side i ≡ none)
    × ((ref : ℕ) (c : Channel (List Message)) → s'.heap ref ≡ some c → c.is_closed ≡ true)
destroy_manager-closes_example =
    destroy_manager-closes small_config local_env one_open one_open-IsValid

-- A request for channel 1, without a body of its own.
abbrev pub request_one : Message
request_one = record {
  header = record { length = 12; protocol = 1 };
  body = 0 ∷ 0 ∷ 0 ∷ 0 ∷ 7 ∷ 0 ∷ 0 ∷ 0 ∷ 1 ∷ 0 ∷ 0 ∷ 0 ∷ [];
}

pub request_one-WrappedInRange : WrappedInRange small_config local_env request_one
unfolding unwrap_message copy_from
request_one-WrappedInRange id inner run = ground arith

forward_message-Handled_example :
    Handled small_config local_env one_open
      (forward_message small_config local_env request_one one_open)
forward_message-Handled_example =
    forward_message-Handled small_config local_env request_one one_open one_open-IsValid refl
      (λ end. ground arith) (λ other. request_one-WrappedInRange)

-- The same for channel 9, which does not exist.
abbrev request_nine : Message
request_nine = record {
  header = record { length = 12; protocol = 1 };
  body = 0 ∷ 0 ∷ 0 ∷ 0 ∷ 7 ∷ 0 ∷ 0 ∷ 0 ∷ 9 ∷ 0 ∷ 0 ∷ 0 ∷ [];
}

abbrev bodyless : Message
bodyless = record { header = record { length = 0; protocol = 7 }; body = [] }

request_nine-unwrap : unwrap_message uint32 request_nine ≡ done (ok_status, some (9, bodyless))
unfolding unwrap_message copy_from header_of_bytes
request_nine-unwrap = refl

forward_message-undefined_example :
    forward_message small_config local_env request_nine fresh ≡ undefined
forward_message-undefined_example =
    forward_message-undefined small_config local_env requests 9 request_nine bodyless fresh
      small_config-IsConfig refl request_nine-unwrap (omega arith)

abbrev end_nine : Message
end_nine = record { header = record { length = 4; protocol = 4 }; body = 9 ∷ 0 ∷ 0 ∷ 0 ∷ [] }

forward_end-undefined_example : forward_message small_config local_env end_nine fresh ≡ undefined
forward_end-undefined_example =
    forward_end-undefined small_config local_env responses end_nine fresh small_config-IsConfig refl
      (inr (omega arith, omega arith))

forward_request-channel_example :
    (status : Status) × (ref : ℕ) × (s' : State local_env) × (forward_request small_config local_env
        1 greeting one_open
      ≡ done (status, 7, some ref, s'))
    × (s'.response_channel 1 ≡ some ref)
    × ((one_open.response_channel 1 ≡ none) ⊎ (one_open.response_channel 1 ≡ some ref))
forward_request-channel_example =
    forward_request-channel small_config local_env 1 greeting one_open one_open-IsValid
      (omega arith)

terminate-ends_example :
    (s' : State local_env) × (InternalRequest.terminate small_config local_env
        (new_internal_request 0)
        one_open
      ≡ done s')
    × IsValid small_config local_env s'
    × (InternalRequest.terminate small_config local_env (new_internal_request 0) s' ≡ done s')
    × (InternalRequest.send_message small_config local_env greeting (new_internal_request 0) s'
        ≡ done (error failed_precondition "Channel is closed", s'))
unfolding new_internal_request
terminate-ends_example =
    terminate-ends small_config local_env (new_internal_request 0) channel_one greeting one_open
      one_open-IsValid one_open-heap
