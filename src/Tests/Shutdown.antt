-- ===== src/Tests/Shutdown.antt =====
-- Two callbacks and two shutdowns.
use vault_search_mcp.Prelude.{false, [], ◌∷◌, ◌≡◌, length, suc, refl}
use vault_search_mcp.Shutdown.{
  ShutdownState, init, here, next, registers, register_callback, try_start_shutdown, reversed,
}
use vault_search_mcp.Shutdown.Once.{Reach-init-IsOnce, IsDistinct, IsCalled, run}

-- Both callbacks are registered.
abbrev registered : ShutdownState
registered = register_callback 2 (register_callback 1 init)

Reach-init-IsOnce_example :
    IsDistinct registered.called
    × IsCalled registered.runner registered.called
    × (registered.shutdown_in_progress ≡ false
        → (run
            (suc (suc (suc (length registered.callbacks))))
            (try_start_shutdown registered)).called
          ≡ reversed registered.callbacks)
Reach-init-IsOnce_example =
    Reach-init-IsOnce registered (next (next here (registers 1)) (registers 2))

-- The second caller changes nothing.
started_twice :
    (run 9 (try_start_shutdown (run 1 (try_start_shutdown registered)))).called ≡ 2 ∷ 1 ∷ []
unfolding run try_start_shutdown register_callback reversed
started_twice = refl
