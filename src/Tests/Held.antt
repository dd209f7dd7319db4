-- ===== src/Tests/Held.antt =====
-- The handles of the client on a run with one connection, which `stop` ends.
use stream_monitor.Prelude.{◌≡◌, true, false, refl, [], ◌∷◌, some}
use stream_monitor.Client.Resources.{
  not_started, at_top, with_tunnel, connecting, receiving, receiving_done, ended, outside, to_close,
  to_join, to_close_tunnel, stopped, Held, close_socket, close_tunnel, make_tunnel, ensure_tunnel,
  begins, ends, tunnels, socket_made, connects, loop_ends, socket_closed, stop_begins, stop_closes,
  joins, stop_ends, Reachable, start, step, nothing_held,
}
use stream_monitor.Client.Resources.Released.{stopped_lem}

abbrev begun : Held
begun = record nothing_held { running = true }

abbrev tunneled : Held
tunneled = record begun { job = some 1; jobs = 1 ∷ []; process = some 2; processes = 2 ∷ [] }

abbrev connected : Held
connected = record tunneled { sock = some 3; sockets = 3 ∷ [] }

abbrev shut : Held
shut = record tunneled { running = false }

run : Reachable (not_started, outside, nothing_held) (ended, stopped, nothing_held)
unfolding ensure_tunnel make_tunnel close_socket close_tunnel
run =
    step (ended, to_close_tunnel, shut)
      (step (ended, to_join, shut)
        (step (at_top, to_join, shut)
          (step (receiving_done, to_join, shut)
            (step (receiving, to_join, shut)
              (step (receiving, to_close, record connected { running = false })
                (step (receiving, outside, connected)
                  (step (connecting 3, outside, record tunneled { sockets = 3 ∷ [] })
                    (step (with_tunnel, outside, tunneled)
                      (step (at_top, outside, begun)
                        (step (not_started, outside, nothing_held) start (begins nothing_held refl))
                        (tunnels false (some 1) (some 2) outside begun))
                      (socket_made 3 outside tunneled))
                    (connects 3 outside (record tunneled { sockets = 3 ∷ [] })))
                  (stop_begins receiving connected refl))
                (stop_closes receiving (record connected { running = false })))
              (loop_ends to_join shut))
            (socket_closed to_join shut))
          (ends to_join shut refl))
        (joins shut))
      (stop_ends ended shut)

stopped_lem_example :
    (ended ≡ ended)
    × (nothing_held.processes ≡ [])
    × (nothing_held.jobs ≡ [])
    × (nothing_held.sockets ≡ [])
stopped_lem_example = stopped_lem ended nothing_held run
