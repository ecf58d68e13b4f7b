-- ===== src/Examples/Lookups.antt =====
-- The theorems on lookups and on the numbers of AE::Utils at concrete inputs.
use async_engine.Dns.{
  AddrInfo, ae_getaddrinfo_callback, af_inet, af_inet6, result_ips, start_request,
  uv_getaddrinfo_callback,
}
use async_engine.World.Monad.{Env, ok, raised}
use async_engine.World.{Event, World}
use async_engine.Base.{List, [], false, refl, some, true, ◌∷◌, ◌≡◌}
use async_engine.Dns.Results.{Printable, names, result_ips-eq-names}
use async_engine.HandleCommon.{ae_proc_call_2}
use async_engine.Release.{ae_take_gvl_and_run_with_error_handler}
use async_engine.Examples.{calm_env, env_refusing, example_world}
use async_engine.Base.Assoc.{erase, insert, lookup}
use async_engine.Base.Int.{pos, nonzero}
use async_engine.Ruby.{object, qnil, qtrue, standard, strings}
use async_engine.Dns.Lookup.{
  pending_lookup, refused_lookup, start_request_refused, uv_getaddrinfo_callback-start_request,
}

-- libuv refuses lookups.
abbrev refusing_env : Env
refusing_env = env_refusing (λ c. elim c [ Event.getaddrinfo h n f ↦ true | _ ↦ false ])

start_request_refused_example :
    (start_request refusing_env (97 ∷ []) (pos 0) (object 9) example_world
      ≡ raised (standard 3) (refused_lookup refusing_env (97 ∷ []) (pos 0) example_world))
    × ((refused_lookup refusing_env (97 ∷ []) (pos 0) example_world).procs ≡ [])
unfolding nonzero
start_request_refused_example =
    start_request_refused refusing_env (97 ∷ []) (pos 0) (object 9) example_world (standard 3) refl
      refl

-- The addresses are printed as they are.
abbrev printing_env : Env
printing_env = record calm_env { inet_ntop4 = λ a. some a; inet_ntop6 = λ a. some a }

abbrev two_results : List AddrInfo
two_results =
    record { ai_addrlen = 16; sa_family = af_inet; sin_addr = 49 ∷ [] }
    ∷ record { ai_addrlen = 0; sa_family = af_inet; sin_addr = 50 ∷ [] }
    ∷ record { ai_addrlen = 28; sa_family = af_inet6; sin_addr = 51 ∷ [] }
    ∷ []

result_ips-eq-names_example :
    result_ips printing_env [] two_results ≡ names printing_env two_results
unfolding Printable
result_ips-eq-names_example =
    result_ips-eq-names printing_env [] two_results (refl, (tt, (refl, tt)))

abbrev asked : World
asked = pending_lookup printing_env (97 ∷ []) (pos 0) (object 9) example_world

uv_getaddrinfo_callback-start_request_example :
    let freed = record asked { trace = Event.xfree 9 ∷ Event.xfree 10 ∷ asked.trace } in
    let taken =
      λ (u : World). record u { procs = erase 1 u.procs; trace = Event.freeaddrinfo 7 ∷ u.trace } in
    (start_request printing_env (97 ∷ []) (pos 0) (object 9) example_world ≡ ok qtrue asked)
    × (uv_getaddrinfo_callback printing_env 9 (pos 0) 7 two_results asked
        ≡ ae_take_gvl_and_run_with_error_handler printing_env
            (ae_getaddrinfo_callback printing_env (pos 0) 7 two_results 1)
            freed)
    × (ae_getaddrinfo_callback printing_env (pos 0) 7 two_results 1 asked
        ≡ ae_proc_call_2 printing_env
            (object 9)
            qnil
            (strings (result_ips printing_env [] two_results))
            (taken asked))
unfolding nonzero lookup insert
uv_getaddrinfo_callback-start_request_example =
    uv_getaddrinfo_callback-start_request printing_env (97 ∷ []) (pos 0) (object 9) example_world
      (pos 0) 7 two_results asked refl refl refl
