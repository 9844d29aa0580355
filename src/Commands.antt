-- ===== src/Commands.antt =====
-- cmd/agent/main.go and cmd/server/main.go: the exit code of the two programs. Printing and logging
-- are left out.
use go_advanced.Base.{ℕ, Bool, none, some, if◌then◌else◌}
use go_advanced.ConfigReader.{Config, read_config}

-- `main` of cmd/server, on a new configuration; `run` is `Server.Run` on what was read
unfoldable pub server_main : (cfg : Config) → (cfg.State → Bool) → cfg.State → ℕ
server_main cfg run new =
    let (e, c) = read_config cfg new in elim e [ some e ↦ 1 | none ↦ if run c then 0 else 2 ]

-- `main` of cmd/agent, with `Agent.Run`
unfoldable pub agent_main : (cfg : Config) → (cfg.State → Bool) → cfg.State → ℕ
agent_main cfg run new =
    let (e, c) = read_config cfg new in elim e [ some e ↦ 1 | none ↦ if run c then 0 else 2 ]
