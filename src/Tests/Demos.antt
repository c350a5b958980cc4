-- ===== src/Tests/Demos.antt =====
-- The echo service, at a concrete text.
use servercc.Common.{refl, [], ◌∷◌, arith, ◌≢◌}
use servercc.Connectors.Manager.{new_manager, free_ids}
use servercc.Connectors.Link.{left, right, connected, start}
use servercc.Demos.Echo.{Echoes, send_echo-Echoes}
use servercc.Fixtures.{local_addr, list_fifo, small_config, small_config-IsConfig}
use servercc.Fixtures.Duplex.{silent, duplex_env, duplex_wires}

free_at_left : ((connected small_config duplex_env duplex_wires silent).manager left).free_list ≢ []
unfolding new_manager free_ids
free_at_left e = ground arith

send_echo-Echoes_example :
    Echoes small_config duplex_env duplex_wires left
      (104 ∷ 105 ∷ [])
      local_addr
      (connected small_config duplex_env duplex_wires silent)
send_echo-Echoes_example =
    send_echo-Echoes small_config duplex_env list_fifo duplex_wires small_config-IsConfig
      (omega arith) silent (connected small_config duplex_env duplex_wires silent) left
      (104 ∷ 105 ∷ []) local_addr (elim [ left ↦ refl | right ↦ refl ]) start
      (elim [ left ↦ refl | right ↦ refl ]) (omega arith) free_at_left
