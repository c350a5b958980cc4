-- ===== src/Tests/Clients.antt =====
-- The clients of servercc/clients at concrete inputs.
use servercc.Common.{◌≡◌, refl, pos, negsuc, true, false, if◌then◌else◌}
use servercc.Types.Status.{is_ok}
use servercc.Clients.TcpClient
use servercc.Clients.TcpClient.{Client, new_client, connected_client}
use servercc.Clients.TcpClient.Sockets.{IsConsistent, Opens, open_socket-Opens}
use servercc.Clients.MulticastClient
use servercc.Clients.MulticastClient.{MulticastClient, new_multicast_client, open_socket-leaks}
use servercc.Fixtures.{loopback, loopback_descriptors, loopback_sockets, idle, local_addr}

new_client-IsConsistent : IsConsistent (new_client "host" 80)
unfolding new_client
new_client-IsConsistent = record { open_iff = refl }

abbrev connected : Client
connected = connected_client (pos 5) "host" 80 local_addr

connected-IsConsistent : IsConsistent connected
unfolding connected_client
connected-IsConsistent = record { open_iff = refl }

open_socket-Opens_example :
    Opens loopback loopback_descriptors loopback_sockets
      (new_client "host" 80)
      idle
      (TcpClient.open_socket loopback (new_client "host" 80) idle)
open_socket-Opens_example =
    open_socket-Opens loopback loopback_descriptors loopback_sockets (new_client "host" 80) idle
      new_client-IsConsistent

abbrev open_client : Client
open_client = record {
  server_address = "host";
  port = 80;
  client_fd = pos 5;
  is_socket_open = true;
  client_addr = local_addr;
}

abbrev unopened : MulticastClient
unopened = record {
  interface = "eth0";
  ttl = 1;
  addr = local_addr;
  client_fd = negsuc 0;
  is_socket_open = false;
  client_addr = local_addr;
}

open_socket-leaks_example :
    let (status, c', w') = MulticastClient.open_socket loopback unopened idle in
    (is_ok status ≡ c'.is_socket_open)
    × (w'.held ≡ 1)
    × (c' ≡ (
        if is_ok status
        then record unopened { client_addr = local_addr; client_fd = pos 0; is_socket_open = true }
        else unopened))
open_socket-leaks_example = open_socket-leaks loopback loopback_descriptors unopened idle refl
