-- ===== src/Arguments/Delays.antt =====
-- ext/asyncengine/ae_timer.c: the delays that the timers read.
use async_engine.Ruby.{Value}
use async_engine.World.{World}
use async_engine.Arguments.{delay_arg}
use async_engine.World.Monad.{ok, ◌>>=◌}
use async_engine.Base.{ℕ, ◌≡◌, ◌≤◌, arith}

-- A delay that is read from an argument is at least one millisecond, whatever the argument.
pub delay_arg_positive :
    (v : Value) (w u : World) (d : ℕ) → delay_arg v w ≡ ok d u → (1 ≤ d) × (u ≡ w)
unfolding delay_arg ◌>>=◌
delay_arg_positive v w u d e = ground arith
