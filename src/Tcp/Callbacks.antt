-- ===== src/Tcp/Callbacks.antt =====
-- ext/asyncengine/ae_tcp.c: what libuv calls on a TCPSocket's handle, its requests and the timer of its
-- connection. The structs that pass a callback's arguments on, such as last_uv_read_callback_data,
-- are arguments here.
use async_engine.Base.{
  ℕ, zero, suc, Bool, true, false, not, List, [], ◌∷◌, Option, none, some, is_some, take, ◌==◌,
  if◌then◌else◌,
}
use async_engine.Base.Int.{ℤ, pos, negsuc, nonzero}
use async_engine.Ruby.{Value, qnil, string, object, Method}
use async_engine.World.{Event, connected, Request, send_data, write_data, getaddrinfo_data}
use async_engine.World.Monad.{
  M, crash, pure, assert, ◌>>=◌, ◌>>◌, invoke, Env, uv, alloc, xfree, handle_data, request_data,
}
use async_engine.HandleCommon.{
  ae_remove_handle, ae_close_uv_handle, ae_get_last_uv_error, ae_get_last_uv_error_int,
  ae_get_uv_error, ae_proc_call_1,
}
use async_engine.Release.{ae_take_gvl_and_run_with_error_handler}
use async_engine.Tcp.{
  get_cdata, set_cdata, ae_cancel_timer_connect_timeout, cancel_if_set, close_uv,
}

abbrev pub same_code : ℤ → ℤ → Bool
same_code (pos m) (pos n) = m == n
same_code (negsuc m) (negsuc n) = m == n
same_code _ _ = false

-- `uv_eof` and `uv_etimedout` are the codes UV_EOF and UV_ETIMEDOUT of libuv.
module _ (env : Env) (uv_eof uv_etimedout : ℤ) where
  -- _ae_connect_callback.
  unfoldable pub ae_connect_callback : ℕ → ℤ → M Value
  unfolding get_cdata ae_remove_handle ae_get_last_uv_error ae_get_uv_error
  ae_connect_callback self status = do
    cdata ← get_cdata self
    if not (nonzero status)
        then env.ruby (invoke (object cdata.ae_handle) Method.on_connected [])
        else (do
          ae_remove_handle cdata.ae_handle_id
          error ←
              if not cdata.flags.connect_timeout
              then ae_get_last_uv_error env
              else ae_get_uv_error env uv_etimedout
          env.ruby (invoke (object cdata.ae_handle) Method.on_connection_error (error ∷ [])))

  -- uv_shutdown, asserted to succeed, of a pointer that may be NULL.
  unfoldable pub shut_down : ℕ → Option ℕ → M (Unit {0})
  shut_down shutdown_req none = λ w. crash
  shut_down shutdown_req (some p) = do
    r ← uv env (Event.tcp_shutdown shutdown_req p)
    assert (not (nonzero r))

  -- uv_read_stop on one pointer, and uv_shutdown on another with a request of its own.
  unfoldable pub shutdown_asserted : ℕ → Option ℕ → M (Unit {0})
  unfolding shut_down
  shutdown_asserted handle uv_handle = do
    stopped ← uv env (Event.tcp_read_stop handle)
    assert (not (nonzero stopped))
    shutdown_req ← alloc
    shut_down shutdown_req uv_handle

  -- Both on cdata->_uv_handle.
  unfoldable pub shutdown_own : Option ℕ → M (Unit {0})
  unfolding shutdown_asserted
  shutdown_own none = λ w. crash
  shutdown_own (some p) = shutdown_asserted p (some p)

  -- What _uv_connect_callback does before it goes to Ruby. `handle` is the request's.
  unfoldable pub connect_done : ℕ → ℕ → ℤ → M (Unit {0})
  unfolding get_cdata set_cdata shutdown_own ae_close_uv_handle
  connect_done handle self status = do
    cdata ← get_cdata self
    if not (nonzero status)
        then (do
          if cdata.flags.shutdown_requested
              then shutdown_own cdata.uv_handle
              else (do r ← uv env (Event.tcp_read_start handle); assert (not (nonzero r)))
          set_cdata self (record cdata { status = connected }))
        else (do
          closing ← uv env (Event.is_closing handle)
          if not (nonzero closing)
              then (do
                ae_close_uv_handle env (some handle)
                set_cdata self (record cdata { uv_handle = none }))
              else pure tt)

  -- _uv_connect_callback.
  unfoldable pub uv_connect_callback : ℕ → ℕ → ℤ → M Value
  unfolding cancel_if_set connect_done ae_connect_callback
  uv_connect_callback handle req status = do
    self ← handle_data handle
    xfree req
    cancel_if_set env self
    connect_done handle self status
    ae_take_gvl_and_run_with_error_handler env (ae_connect_callback self status)

  -- _ae_read_callback on data, whose buffer it frees.
  unfoldable pub ae_read_data : ℕ → ℕ → ℕ → List ℕ → M Value
  unfolding get_cdata
  ae_read_data self nread base bytes = do
    cdata ← get_cdata self
    xfree base
    env.ruby (
        invoke (object cdata.ae_handle) Method.on_data_received
          (string cdata.encoding (take nread bytes) ∷ []))

  -- _ae_read_callback on a disconnection.
  unfoldable pub ae_read_error : ℕ → M Value
  unfolding get_cdata ae_remove_handle ae_get_last_uv_error
  ae_read_error self = do
    cdata ← get_cdata self
    error ← ae_get_last_uv_error env
    ae_remove_handle cdata.ae_handle_id
    env.ruby (invoke (object cdata.ae_handle) Method.on_disconnected (error ∷ []))

  unfoldable pub free_base : Option ℕ → M (Unit {0})
  free_base none = pure tt
  free_base (some base) = xfree base

  unfoldable pub read_disconnect : ℕ → ℕ → M Value
  unfolding get_cdata set_cdata close_uv shutdown_asserted ae_close_uv_handle ae_read_error
      ae_get_last_uv_error_int
  read_disconnect handle self = do
    code ← ae_get_last_uv_error_int env
    if same_code code uv_eof
        then (do
          cdata ← get_cdata self
          shutdown_asserted handle cdata.uv_handle
          cdata ← get_cdata self
          set_cdata self (record cdata { flags = record cdata.flags { eof_received = true } })
          pure qnil)
        else (do
          ae_close_uv_handle env (some handle)
          cdata ← get_cdata self
          set_cdata self (record cdata { uv_handle = none })
          ae_take_gvl_and_run_with_error_handler env (ae_read_error self))

  unfoldable pub read_data : ℕ → ℕ → Option ℕ → List ℕ → M Value
  unfolding get_cdata ae_read_data
  read_data self nread none bytes = λ w. crash
  read_data self nread (some base) bytes = do
    cdata ← get_cdata self
    if not cdata.flags.paused
        then ae_take_gvl_and_run_with_error_handler env (ae_read_data self nread base bytes)
        else (xfree base >> pure qnil)

  -- The branches on `nread`. libuv gives -1 for every error; another negative number goes to the last
  -- branch of the source, as data.
  unfoldable pub read_by_count : ℕ → ℕ → ℤ → Option ℕ → List ℕ → M Value
  unfolding free_base read_disconnect read_data ae_read_error
  read_by_count handle self (pos zero) base bytes = do free_base base; pure qnil
  read_by_count handle self (negsuc zero) base bytes = do
    free_base base
    read_disconnect handle self
  read_by_count handle self (pos (suc n)) base bytes = read_data self (suc n) base bytes
  read_by_count handle self (negsuc (suc n)) base bytes = do
    cdata ← get_cdata self
    if not cdata.flags.paused
        then ae_take_gvl_and_run_with_error_handler env (ae_read_error self)
        else free_base base >> pure qnil

  -- _uv_read_callback, with the base of the buffer and what it holds.
  unfoldable pub uv_read_callback : ℕ → ℤ → Option ℕ → List ℕ → M Value
  unfolding read_by_count
  uv_read_callback handle nread base bytes = do
    self ← handle_data handle
    read_by_count handle self nread base bytes

  -- _ae_write_callback.
  unfoldable pub ae_write_callback : ℕ → ℕ → Value → ℤ → M Value
  unfolding get_cdata ae_get_last_uv_error ae_proc_call_1
  ae_write_callback self on_write_block block status = do
    xfree on_write_block
    cdata ← get_cdata self
    if cdata.flags.releasing
        then pure qnil
        else (if not (nonzero status)
            then ae_proc_call_1 env block qnil
            else (do error ← ae_get_last_uv_error env; ae_proc_call_1 env block error))

  unfoldable pub run_on_write : ℕ → Option (ℕ × Value) → ℤ → M Value
  unfolding ae_write_callback
  run_on_write self none status = pure qnil
  run_on_write self (some (on_write_block, block)) status =
      ae_take_gvl_and_run_with_error_handler env
        (ae_write_callback self on_write_block block status)

  unfoldable pub free_write_data : ℕ → ℕ → Request → ℤ → M Value
  unfolding run_on_write
  free_write_data self req (write_data write_req_data base on_write_block) status = do
    xfree base
    xfree write_req_data
    xfree req
    run_on_write self on_write_block status
  free_write_data self req (send_data a b c) status = λ w. crash
  free_write_data self req (getaddrinfo_data a b) status = λ w. crash

  -- _uv_write_callback.
  unfoldable pub uv_write_callback : ℕ → ℕ → ℤ → M Value
  unfolding free_write_data
  uv_write_callback handle req status = do
    d ← request_data req
    self ← handle_data handle
    free_write_data self req d status

  -- _uv_timer_connect_timeout_callback.
  unfoldable pub uv_timer_connect_timeout_callback : ℕ → M (Unit {0})
  unfolding get_cdata set_cdata ae_cancel_timer_connect_timeout close_uv
  uv_timer_connect_timeout_callback handle = do
    self ← handle_data handle
    cdata ← get_cdata self
    assert (is_some cdata.timer_connect_timeout)
    ae_cancel_timer_connect_timeout env self
    cancelled ← get_cdata self
    set_cdata self (record cancelled { flags = record cancelled.flags { connect_timeout = true } })
    close_uv env self

  -- _ae_shutdown_callback.
  unfoldable pub ae_shutdown_callback : ℕ → M Value
  unfolding get_cdata ae_remove_handle ae_get_uv_error
  ae_shutdown_callback self = do
    cdata ← get_cdata self
    ae_remove_handle cdata.ae_handle_id
    if cdata.flags.eof_received
        then (do
          error ← ae_get_uv_error env uv_eof
          env.ruby (invoke (object cdata.ae_handle) Method.on_disconnected (error ∷ [])))
        else env.ruby (invoke (object cdata.ae_handle) Method.on_disconnected (qnil ∷ []))

  -- The handle is closed, and Ruby told, unless that has been done meanwhile.
  unfoldable pub finish_shutdown : ℕ → Option ℕ → M Value
  unfolding close_uv ae_shutdown_callback
  finish_shutdown self none = pure qnil
  finish_shutdown self (some uv_handle) = do
    closing ← uv env (Event.is_closing uv_handle)
    if not (nonzero closing)
        then (close_uv env self
            >> ae_take_gvl_and_run_with_error_handler env (ae_shutdown_callback self))
        else pure qnil

  -- _uv_shutdown_callback.
  unfoldable pub uv_shutdown_callback : ℕ → ℕ → ℤ → M Value
  unfolding get_cdata finish_shutdown
  uv_shutdown_callback handle req status = do
    self ← handle_data handle
    xfree req
    cdata ← get_cdata self
    finish_shutdown self cdata.uv_handle
