-- ===== src/Fixtures/Duplex.antt =====
-- A network of one connection, on which the hypotheses on two ends are met.
use servercc.Common.{
  ℕ, zero, suc, refl, ap, ℤ, some, pos, negsuc, List, [], ◌++◌, arith, length, take, drop,
  length-take,
}
use servercc.Types.Posix.{Posix, ByteStream}
use servercc.Connectors.Env.{Env}
use servercc.Connectors.Link.{End, left, right, opposite, Wires}
use servercc.Fixtures.{local_addr, local_info, list_buffers}

-- The bytes on their way to each end.
pub record Duplex : Type 0 where
  pub to_right : List ℕ
  pub to_left : List ℕ

abbrev pub silent : Duplex
silent = record { to_right = []; to_left = [] }

-- Descriptor 0 is the left end, and every other the right.
abbrev send_from : ℤ → List ℕ → Duplex → ℤ × Duplex
send_from (pos zero) bs w = (pos (length bs), record w { to_right = w.to_right ++ bs })
send_from (pos (suc n)) bs w = (pos (length bs), record w { to_left = w.to_left ++ bs })
send_from (negsuc n) bs w = (negsuc 0, w)

abbrev receive_at : ℤ → ℕ → Duplex → ℤ × List ℕ × Duplex
receive_at (pos zero) n w =
    (pos (length (take n w.to_left)), take n w.to_left, record w { to_left = drop n w.to_left })
receive_at (pos (suc k)) n w =
    (pos (length (take n w.to_right)), take n w.to_right, record w { to_right = drop n w.to_right })
receive_at (negsuc k) n w = (negsuc 0, [], w)

abbrev pub duplex : Posix
duplex = record {
  World = Duplex;
  send = send_from;
  recv = receive_at;
  getaddrinfo = λ host port kind w. (pos 0, local_info, [], w);
  socket = λ family kind protocol w. (negsuc 0, w);
  setsockopt = λ fd option w. (pos 0, w);
  bind = λ fd addr w. (pos 0, w);
  listen = λ fd n w. (pos 0, w);
  connect = λ fd addr w. (pos 0, w);
  read_freed = λ info w. some info;
  sendto = λ fd bs addr w. (pos (length bs), w);
  recvfrom = λ fd n w. (negsuc 0, [], local_addr, w);
  accept = λ fd w. (negsuc 0, local_addr, w);
  fsync = λ fd w. w;
  close = λ fd w. w;
}

abbrev pub end_fd : End → ℤ
end_fd left = pos 0
end_fd right = pos 1

abbrev pub duplex_stream : (e : End) → ByteStream duplex (end_fd e) (end_fd (opposite e))
duplex_stream left = record {
  pending = λ w. w.to_right;
  send_result = λ bs w. refl;
  send_pending = λ bs w. refl;
  recv_result = λ n w h. ap pos (omega (arith, length-take n w.to_right));
  recv_bytes = λ n w h. refl;
  recv_pending = λ n w h. refl;
  fsync_pending = λ w. refl;
}
duplex_stream right = record {
  pending = λ w. w.to_left;
  send_result = λ bs w. refl;
  send_pending = λ bs w. refl;
  recv_result = λ n w h. ap pos (omega (arith, length-take n w.to_left));
  recv_bytes = λ n w h. refl;
  recv_pending = λ n w h. refl;
  fsync_pending = λ w. refl;
}

abbrev pub duplex_wires : Wires duplex
duplex_wires = record {
  fd = end_fd;
  fd_valid = elim [ left ↦ refl | right ↦ refl ];
  outgoing = duplex_stream;
  send_leaves = elim [ left ↦ λ bs w. refl | right ↦ λ bs w. refl ];
  fsync_leaves = elim [ left ↦ λ w. refl | right ↦ λ w. refl ];
  recv_leaves = elim [ left ↦ λ n w. refl | right ↦ λ n w. refl ];
}

abbrev pub duplex_env : Env
duplex_env = record { posix = duplex; buffers = list_buffers }
