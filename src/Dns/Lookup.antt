-- ===== src/Dns/Lookup.antt =====
-- ext/asyncengine/ae_dns.c: a lookup from AE::DNS.resolve to its callback.
use async_engine.Dns.{
  AddrInfo, ae_getaddrinfo_callback, result_ips, start_request, uv_getaddrinfo_callback,
}
use async_engine.World.Monad.{Env, ok, raised, ◌>>=◌}
use async_engine.World.{Event, World, getaddrinfo_data}
use async_engine.Ruby.{Exn, Value, qnil, qtrue, strings}
use async_engine.Base.{List, arith, false, if◌then◌else◌, refl, some, suc, true, ℕ, ◌∷◌, ◌≡◌}
use async_engine.HandleCommon.{ae_get_last_uv_error, ae_proc_call_2}
use async_engine.Release.{ae_take_gvl_and_run_with_error_handler, is_releasing}
use async_engine.Base.Assoc.{erase, insert, lookup, update}
use async_engine.Arguments.{is_nil}
use async_engine.Base.Int.{nonzero, pos_part, ℤ}

-- The state after libuv refused a request, and after it took one.
abbrev pub refused_lookup : Env → List ℕ → ℤ → World → World
refused_lookup env hostname ai_family w =
    let handle = w.next_pointer in
    record w {
      next_pointer = suc (suc handle);
      requests =
          update w.requests handle (some (getaddrinfo_data (suc handle) (pos_part env.memory_int)));
      trace =
          Event.xfree handle
          ∷ Event.xfree (suc handle)
          ∷ Event.getaddrinfo handle hostname ai_family
          ∷ w.trace;
    }

abbrev pub pending_lookup : Env → List ℕ → ℤ → Value → World → World
pending_lookup env hostname ai_family callee w =
    let handle = w.next_pointer in
    let id = suc w.proc_long_id in
    record w {
      next_pointer = suc (suc handle);
      proc_long_id = id;
      procs = insert id callee w.procs;
      requests =
          update
            (update w.requests handle
              (some (getaddrinfo_data (suc handle) (pos_part env.memory_int))))
            handle (some (getaddrinfo_data (suc handle) id));
      trace = Event.getaddrinfo handle hostname ai_family ∷ w.trace;
    }

module _ (env : Env) (hostname : List ℕ) (ai_family : ℤ) (callee : Value) (w : World) where
  -- A lookup that libuv refuses raises the error, with both blocks freed and AE_procs as it was.
  pub start_request_refused :
      (e : Exn)
      → nonzero (env.uv w.trace (Event.getaddrinfo w.next_pointer hostname ai_family)) ≡ true
      → env.uv_errors (env.last_error (refused_lookup env hostname ai_family w).trace) ≡ some e
      → (start_request env hostname ai_family callee w
          ≡ raised e (refused_lookup env hostname ai_family w))
        × ((refused_lookup env hostname ai_family w).procs ≡ w.procs)
  unfolding start_request ◌>>=◌
  start_request_refused e fails known = (ground arith, refl)

  -- A lookup that libuv takes is answered once: its callback frees both blocks and then, under the
  -- error handler, the list of results, takes the proc out of AE_procs and calls it, with nil and the
  -- addresses or with the error and nil; while the engine releases, it is not called.
  pub uv_getaddrinfo_callback-start_request :
      (status : ℤ) (res : ℕ) (infos : List AddrInfo) (u : World)
      → is_nil callee ≡ false
      → nonzero (env.uv w.trace (Event.getaddrinfo w.next_pointer hostname ai_family)) ≡ false
      → lookup (suc w.proc_long_id) u.procs ≡ some callee
      → let handle = w.next_pointer in
        let id = suc w.proc_long_id in
        let v = pending_lookup env hostname ai_family callee w in
        let freed = record v { trace = Event.xfree handle ∷ Event.xfree (suc handle) ∷ v.trace } in
        let taken = λ (u : World). record u {
          procs = erase id u.procs;
          trace = Event.freeaddrinfo res ∷ u.trace;
        } in
        (start_request env hostname ai_family callee w ≡ ok qtrue v)
        × (uv_getaddrinfo_callback env handle status res infos v
            ≡ ae_take_gvl_and_run_with_error_handler env
                (ae_getaddrinfo_callback env status res infos id)
                freed)
        × (ae_getaddrinfo_callback env status res infos id u ≡ (
            if is_releasing u.status
            then ok qnil (taken u)
            else if nonzero status
            then (ae_get_last_uv_error env >>= λ e. ae_proc_call_2 env callee e qnil) (taken u)
            else ae_proc_call_2 env callee qnil
                (strings (result_ips env (env.memory_address.0) infos))
                (taken u)))
  unfolding start_request uv_getaddrinfo_callback ae_getaddrinfo_callback ◌>>=◌
  uv_getaddrinfo_callback-start_request status res infos u given accepted here =
      (ground arith, ground arith, ground arith)
