-- ===== src/Tests/Limited.antt =====
-- The start of the process in memory with a way to listen that panics at a low time limit.
use turl.Base.{ℕ, ◌≡◌, ap, true, false, arith, if◌then◌else◌}
use mathlib.Core.Path.{fun_ext}
use turl.Base.Int.{pos, ltb_ℤ}
use turl.Action.{Action, panic}
use turl.Handler.Build.{Handler}
use turl.Routing.Server.{Server}
use turl.Shutdown.{OptionFunc}
use turl.Cli.{Flags, server_start}
use turl.Cli.Limits.{IsLimited, server_start-limited}
use turl.Tests.Start.{process}

abbrev strict : Server ℕ → Handler ℕ → Action ℕ (OptionFunc ℕ)
strict s handler =
    if ltb_ℤ s.http.read_timeout (pos 1000000000) then panic else process.listen s handler

long_enough : (s : Server ℕ) → IsLimited s → ltb_ℤ s.http.read_timeout (pos 1000000000) ≡ false
unfolding ltb_ℤ
long_enough s limited = let read = limited.read in ground arith

agree : (s : Server ℕ) → IsLimited s → strict s ≡ process.listen s
agree s limited =
    fun_ext (λ h. ap (λ b. if b then panic else process.listen s h) (long_enough s limited))

abbrev flags : Flags
flags = record { file = "config.yaml"; readonly = false; debug = true }

server_start-limited_example :
    server_start (record process { listen = strict }) flags 0 ≡ server_start process flags 0
server_start-limited_example = server_start-limited process strict flags 0 agree
