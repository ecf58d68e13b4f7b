-- ===== src/HandleCommon/RoundTrip.antt =====
-- ext/asyncengine/ae_handle_common.c: AE_procs keeps what is stored in it.
use async_engine.Ruby.{Value, qnil}
use async_engine.World.{World}
use async_engine.HandleCommon.{ae_get_proc, ae_remove_proc, ae_store_proc}
use async_engine.Base.{arith, refl, suc, ℕ, ◌≡◌, ◌≢◌}
use async_engine.Base.Assoc.{erase, insert, lookup, lookup-insert, lookup-erase, erase-erase}
use async_engine.World.Monad.{ok, ◌>>=◌}

module _ (callee : Value) (w : World) where
  -- A proc that is stored can be read and removed under the id that storing it returned, once: then
  -- the id is free, and every other entry of AE_procs is as it was.
  pub ae_remove_proc-ae_store_proc :
      let id = suc w.proc_long_id in
      let stored = record w { proc_long_id = id; procs = insert id callee w.procs } in
      let removed = record stored { procs = erase id stored.procs } in
      (ae_store_proc callee w ≡ ok id stored)
      × (ae_get_proc id stored ≡ ok callee stored)
      × (ae_remove_proc id stored ≡ ok callee removed)
      × (ae_remove_proc id removed ≡ ok qnil removed)
      × ((j : ℕ) → j ≢ id → lookup j removed.procs ≡ lookup j w.procs)
  unfolding ae_store_proc ae_get_proc ae_remove_proc ◌>>=◌
  ae_remove_proc-ae_store_proc = (
    refl,
    ground (arith, lookup-insert (suc w.proc_long_id) (suc w.proc_long_id) callee w.procs),
    ground (arith, lookup-insert (suc w.proc_long_id) (suc w.proc_long_id) callee w.procs),
    ground (
      arith,
      erase-erase (suc w.proc_long_id) (insert (suc w.proc_long_id) callee w.procs),
      lookup-erase (suc w.proc_long_id) (suc w.proc_long_id)
          (insert (suc w.proc_long_id) callee w.procs),
    ),
    λ j h. ground (
      arith,
      h,
      lookup-erase (suc w.proc_long_id) j (insert (suc w.proc_long_id) callee w.procs),
      lookup-insert (suc w.proc_long_id) j callee w.procs,
    ),
  )
