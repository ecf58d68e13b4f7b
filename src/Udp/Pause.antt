-- ===== src/Udp/Pause.antt =====
-- ext/asyncengine/ae_udp.c: pausing a socket and what it receives.
use async_engine.Base.{Bool, List, arith, false, if◌then◌else◌, some, suc, true, ℕ, ◌≡◌}
use async_engine.World.Monad.{Env, ok, ◌>>=◌}
use async_engine.World.{Object, Sockaddr, Udp, World}
use async_engine.Udp.Callbacks.{ae_recv_callback, uv_recv_callback}
use async_engine.Udp.Send.{is_releasing}
use async_engine.Release.{ae_take_gvl_and_run_with_error_handler}
use async_engine.Base.Int.{pos}
use async_engine.Ruby.{qnil}
use async_engine.Udp.{udp_pause, udp_resume}
use async_engine.Base.Assoc.{update}

-- The state after the flag PAUSED of the socket is set or reset.
abbrev pub paused_world : ℕ → Udp → Bool → World → World
paused_world self cdata b w = record w {
  objects = update w.objects self (Object.udp (record cdata { paused = b }));
}

module _ (env : Env) (handle self n : ℕ) (bytes : List ℕ) (addr : Sockaddr) (cdata : Udp)
    (w : World) where
  -- On an open socket, a datagram that comes after #pause is dropped, with nothing else changed, and
  -- one that comes after #pause and #resume is passed to on_datagram_received under the error handler,
  -- unless the engine releases: then it is dropped too.
  pub udp_pause-uv_recv_callback :
      (p : ℕ)
      → w.uv_data handle ≡ some self
      → w.objects self ≡ Object.udp cdata
      → cdata.uv_handle ≡ some p
      → ((udp_pause self >>= λ _. uv_recv_callback env handle (pos (suc n)) bytes addr) w
          ≡ ok qnil (paused_world self cdata true w))
        × ((udp_pause self >>= λ _.
                udp_resume self >>= λ _. uv_recv_callback env handle (pos (suc n)) bytes addr)
              w
            ≡ (let v = paused_world self cdata false (paused_world self cdata true w) in
                if is_releasing w.status
                then ok qnil v
                else ae_take_gvl_and_run_with_error_handler env
                    (ae_recv_callback env self (suc n) bytes addr)
                    v))
  unfolding udp_pause udp_resume uv_recv_callback ◌>>=◌
  udp_pause-uv_recv_callback p data' here held = (ground arith, ground arith)
