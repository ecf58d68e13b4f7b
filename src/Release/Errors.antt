-- ===== src/Release/Errors.antt =====
-- ext/asyncengine/ae_handle_common.c, ae_run_with_error_handler: what an error of a callback does to the
-- running engine.
use async_engine.World.Monad.{Callback, Env, M, pure, raised, ◌>>=◌, ◌>>◌, Run, and_then, crash, ok}
use async_engine.Ruby.{Exn, Value, error, qnil}
use async_engine.Release.Quits.{Loaded, Never, Quit, Releases, ae_release_loop-Quits}
use async_engine.Release.Destroy.{Patient}
use async_engine.World.{World, running}
use async_engine.Release.{
  ae_release_loop, ae_run_with_error_handler, exit_error_of, is_stopped, run_protected,
  handle_error_with, release_with,
}
use async_engine.Base.{false, true, ◌≡◌}
use async_engine.Arguments.{is_nil}
use async_engine.World.Keeps.{Ends}

-- The state that the release of an unhandled error begins with.
abbrev pub failed_world : Exn → World → World
failed_world e v = record v { exit_error = error (exit_error_of e) }

module _ (env : Env) (f : M Value) (w v : World) (e : Exn) where
  unhandled :
      is_stopped w.status ≡ false
      → f w ≡ raised e v
      → v.status ≡ running
      → is_nil v.user_error_handler ≡ true
      → ae_run_with_error_handler env f w ≡ (ae_release_loop env >> pure qnil) (failed_world e v)
  unfolding ae_run_with_error_handler ae_release_loop run_protected handle_error_with release_with
      ◌>>=◌
  unhandled alive fails on handler = simp (alive, fails, on, handler)

after_release :
    (env : Env) (w : World)
    → Releases w (ae_release_loop env)
    → Releases w (ae_release_loop env >> pure qnil)
unfolding ◌>>=◌
after_release env w r = passed (ae_release_loop env w) r
  where
    passed :
        (m : Run (Unit {0})) → Ends ⊥ Never Quit m → Ends ⊥ Never Quit (and_then m (λ _. pure qnil))
    passed (ok a v) r = r
    passed (raised e v) r = r
    passed crash r = r

module _ (env : Env) (ruby : (c : Callback) → Patient (env.ruby c)) where
  -- A callback of the running engine that raises, with no handler of the user set, sets the engine's
  -- exit error to the exception and does then what AE.release_loop does, of which the callback's caller
  -- sees no error: it comes to its end, no assertion fails, its last calls of libuv close three handles,
  -- and the engine holds no loop handle and no proc any more. The Ruby code that the
  -- release calls may raise, but does not end the process, and leaves the status, the loop handles and
  -- the empty queues as they are.
  pub ae_run_with_error_handler-Quits :
      (f : M Value) (w v : World) (e : Exn)
      → is_stopped w.status ≡ false
      → f w ≡ raised e v
      → Loaded v
      → is_nil v.user_error_handler ≡ true
      → (ae_run_with_error_handler env f w ≡ (ae_release_loop env >> pure qnil) (failed_world e v))
        × Releases w (ae_run_with_error_handler env f)
  ae_run_with_error_handler-Quits f w v e alive fails l handler =
      let same = unhandled env f w v e alive fails l.status handler in
      (
        same,
        rw same (
            after_release env (failed_world e v) (
              ae_release_loop-Quits env ruby (failed_world e v)
                (record { status = l.status; idle = l.idle; async = l.async; ubf = l.ubf }))),
      )
