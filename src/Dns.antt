-- ===== src/Dns.antt =====
-- ext/asyncengine/ae_dns.c: AE::DNS.resolve, and the callback of uv_getaddrinfo.
pub mod Lookup
pub mod Results
use async_engine.World.Monad.{
  Env, M, alloc, crash, get, pure, request_data, set_request_data, uv, xfree, ◌>>=◌, ◌>>◌,
}
use async_engine.World.{Event, Request, getaddrinfo_data, send_data, write_data}
use async_engine.Base.{
  List, Option, [], if◌then◌else◌, leb, length, none, not, some, suc, zero, ℕ, ◌&&◌, ◌∷◌,
}
use async_engine.Ruby.{Value, qnil, qtrue, strings, type_error}
use async_engine.HandleCommon.{
  ae_check_status, ae_get_last_uv_error, ae_proc_call_2, ae_raise_last_uv_error, ae_remove_proc,
  ae_store_proc,
}
use async_engine.Release.{ae_take_gvl_and_run_with_error_handler, is_releasing}
use async_engine.Arguments.{
  argument, check_num_args, ensure_block_or_proc, int_arg, is_nil, string_arg, string_value_cstr,
}
use async_engine.Base.Int.{nonzero, pos, pos_part, ℤ}

-- The address family of a result.
pub data Family : Type 0 where
  af_inet af_inet6 af_other : Family

-- struct addrinfo, without the link to the next.
pub record AddrInfo : Type 0 where
  pub ai_addrlen : ℕ
  pub sa_family : Family
  pub sin_addr : List ℕ

-- addrinfo_hints.ai_family: the IP family of the second argument, and AF_UNSPEC without it.
unfoldable pub family_arg : List Value → M ℤ
unfolding int_arg
family_arg argv =
    if leb 2 (length argv) && not (is_nil (argument argv 1))
    then int_arg (argument argv 1) (type_error "IP family must be a Fixnum")
    else pure (pos 0)

-- What uv_ip4_name or uv_ip6_name leaves in `ip`: nothing is written where the conversion fails.
unfoldable pub name_or : List ℕ → Option (List ℕ) → List ℕ
name_or memory none = memory
name_or memory (some ip) = ip

module _ (env : Env) where
  -- DNS.resolve, from the hints on. The id of the proc is stored once libuv has the request.
  unfoldable pub start_request : List ℕ → ℤ → Value → M Value
  unfolding ae_store_proc ae_raise_last_uv_error
  start_request hostname ai_family callee = do
    uv_handle ← alloc
    data' ← alloc
    set_request_data uv_handle (getaddrinfo_data data' (pos_part env.memory_int))
    r ← uv env (Event.getaddrinfo uv_handle hostname ai_family)
    if nonzero r then (xfree data' >> xfree uv_handle >> ae_raise_last_uv_error env) else do
      on_result_proc_id ← ae_store_proc callee
      set_request_data uv_handle (getaddrinfo_data data' on_result_proc_id)
      pure qtrue

  -- DNS.resolve.
  unfoldable pub dns_resolve : List Value → Option Value → M Value
  unfolding ae_check_status check_num_args ensure_block_or_proc string_value_cstr family_arg
      start_request
  dns_resolve argv block = ae_check_status do
    check_num_args 1 3 argv
    callee ← ensure_block_or_proc 3 argv block
    str ← string_arg (argument argv 0) (type_error "hostname must be a String")
    hostname ← string_value_cstr str
    ai_family ← family_arg argv
    start_request hostname ai_family callee

  -- The texts that the loop over the results pushes. `ip` is the buffer that each result overwrites.
  unfoldable pub result_ips : List ℕ → List AddrInfo → List (List ℕ)
  unfolding name_or
  result_ips ip [] = []
  result_ips ip (info ∷ rest) = elim info.ai_addrlen [
    | zero ↦ result_ips ip rest
    | suc n ↦ elim info.sa_family [
      | af_inet ↦
          name_or ip (env.inet_ntop4 info.sin_addr)
          ∷ result_ips (name_or ip (env.inet_ntop4 info.sin_addr)) rest
      | af_inet6 ↦
          name_or ip (env.inet_ntop6 info.sin_addr)
          ∷ result_ips (name_or ip (env.inet_ntop6 info.sin_addr)) rest
      | af_other ↦ result_ips ip rest
    ]
  ]

  -- _ae_getaddrinfo_callback. `res` is the list's pointer, 0 for NULL.
  unfoldable pub ae_getaddrinfo_callback : ℤ → ℕ → List AddrInfo → ℕ → M Value
  unfolding ae_remove_proc ae_proc_call_2 ae_get_last_uv_error
  ae_getaddrinfo_callback status res infos on_result_proc_id = do
    uv env (Event.freeaddrinfo res)
    callee ← ae_remove_proc on_result_proc_id
    w ← get
    if is_releasing w.status
        then pure qnil
        else (if not (nonzero status)
            then ae_proc_call_2 env callee qnil (strings (result_ips (env.memory_address.0) infos))
            else (do e ← ae_get_last_uv_error env; ae_proc_call_2 env callee e qnil))

  -- The two blocks are freed before Ruby is called.
  unfoldable pub free_request : ℕ → Request → ℤ → ℕ → List AddrInfo → M Value
  free_request handle (getaddrinfo_data data' on_result_proc_id) status res infos = do
    xfree data'
    xfree handle
    ae_take_gvl_and_run_with_error_handler env
        (ae_getaddrinfo_callback status res infos on_result_proc_id)
  free_request handle (send_data a b c) status res infos = λ w. crash
  free_request handle (write_data a b c) status res infos = λ w. crash

  -- _uv_getaddrinfo_callback.
  unfoldable pub uv_getaddrinfo_callback : ℕ → ℤ → ℕ → List AddrInfo → M Value
  unfolding free_request
  uv_getaddrinfo_callback handle status res infos = do
    d ← request_data handle
    free_request handle d status res infos
