-- ===== src/Servers/UdpRequest.antt =====
-- servercc/servers/src/udp_request.cc
use servercc.Common.{ℕ, Bool, Option, none, some}
use servercc.Types.Status.{Status, ok_status, error, not_found, unimplemented}
use servercc.Types.Message.{Message}
use servercc.Types.Posix.{SockAddr}

pub record UdpRequest : Type 0 where
  pub client_addr : SockAddr
  pub protocol : ℕ
  pub message : Option Message

unfoldable pub new_udp_request : SockAddr → Message → UdpRequest
new_udp_request addr message = record {
  client_addr = addr;
  protocol = message.header.protocol;
  message = some message;
}

unfoldable pub receive_message : UdpRequest → Status × Option Message × UdpRequest
receive_message r = elim r.message [
  | some m ↦ (ok_status, some m, record r { message = none })
  | none ↦ (error not_found "No remaining messages", none, r)
]

unfoldable pub receive_message_for : Bool → UdpRequest → Status × Option Message × UdpRequest
unfolding receive_message
receive_message_for expired r = receive_message r

unfoldable pub send_message : Message → UdpRequest → Status
send_message m r = error unimplemented "Cannot write to UDP socket"
