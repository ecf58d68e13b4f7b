-- ===== src/Udp/SafeCallbacks.antt =====
-- ext/asyncengine/ae_udp.c: the callbacks keep the handles safe.
use async_engine.World.Monad.{Callback, Env}
use async_engine.World.Keeps.{Keeps-bind, Keeps-get, Keeps-pure, Leads-if}
use async_engine.Base.{List, Option, none, some, suc, zero, ℕ}
use async_engine.World.{Request, Sockaddr, getaddrinfo_data, send_data, write_data}
use async_engine.Handles.Actions.{
  Safe, ae_remove_proc-Safe, handle_data-Safe, request_data-Safe, xfree-Safe,
}
use async_engine.Release.SafeCalls.{ae_get_last_uv_error-Safe, ae_proc_call_1-Safe, guarded}
use async_engine.Udp.Callbacks.{
  ae_recv_callback, deliver, free_send_data, run_on_send, uv_recv_callback, uv_send_callback,
}
use async_engine.Udp.Send.{ae_send_callback}
use async_engine.Udp.Safe.{get_cdata-Holds}
use async_engine.Arguments.Keeps.{get_ip_port-Keeps}
use async_engine.Release.{is_releasing}
use async_engine.Base.Int.{negsuc, nonzero, pos, ℤ}
use async_engine.Ruby.{qnil}
use async_engine.Handles.Cells.{release}

module _ (env : Env) (ruby-Safe : (c : Callback) → Safe (env.ruby c)) where
  ae_send_callback-Safe : (id : ℕ) (status : ℤ) → Safe (ae_send_callback env id status)
  unfolding ae_send_callback
  ae_send_callback-Safe id status = Keeps-bind _ _ (ae_remove_proc-Safe id) λ callee.
      Keeps-bind _ _ Keeps-get λ w.
        Leads-if (is_releasing w.status) _ _ (λ _. Keeps-pure _)
          λ _.
            Leads-if (nonzero status) _ _
              (λ _.
                Keeps-bind _ _ (ae_get_last_uv_error-Safe env)
                  (ae_proc_call_1-Safe env ruby-Safe callee))
              (λ _. ae_proc_call_1-Safe env ruby-Safe callee qnil)

  run_on_send-Safe : (id : Option ℕ) (status : ℤ) → Safe (run_on_send env id status)
  unfolding run_on_send
  run_on_send-Safe none status = Keeps-pure _
  run_on_send-Safe (some id) status = guarded env ruby-Safe _ (ae_send_callback-Safe id status)

  pub uv_send_callback-Safe : (req : ℕ) (status : ℤ) → Safe (uv_send_callback env req status)
  unfolding uv_send_callback free_send_data
  uv_send_callback-Safe req status = Keeps-bind _ _ (request_data-Safe req) freed
    where
      freed : (d : Request) → Safe (free_send_data env req d status)
      freed (send_data a b id) = Keeps-bind _ _ (xfree-Safe req) λ _.
          Keeps-bind _ _ (xfree-Safe b)
            λ _. Keeps-bind _ _ (xfree-Safe a) λ _. run_on_send-Safe id status
      freed (write_data a b c) = record { at = λ w s. tt }
      freed (getaddrinfo_data a b) = record { at = λ w s. tt }

  ae_recv_callback-Safe :
      (self nread : ℕ) (buffer : List ℕ) (addr : Sockaddr)
      → Safe (ae_recv_callback env self nread buffer addr)
  unfolding ae_recv_callback
  ae_recv_callback-Safe self nread buffer addr =
      get_cdata-Holds self _ λ c.
        release self _ _ (Keeps-bind _ _ (get_ip_port-Keeps env addr c.ip_type) λ _. ruby-Safe _)

  deliver-Safe :
      (self : ℕ) (nread : ℤ) (buffer : List ℕ) (addr : Sockaddr)
      → Safe (deliver env self nread buffer addr)
  unfolding deliver
  deliver-Safe self (pos zero) buffer addr = Keeps-pure _
  deliver-Safe self (negsuc n) buffer addr = Keeps-pure _
  deliver-Safe self (pos (suc n)) buffer addr = get_cdata-Holds self _ λ c. release self _ _ (
      Leads-if c.paused _ _ (λ _. Keeps-pure _)
        (λ _. guarded env ruby-Safe _ (ae_recv_callback-Safe self (suc n) buffer addr)))

  pub uv_recv_callback-Safe :
      (handle : ℕ) (nread : ℤ) (buffer : List ℕ) (addr : Sockaddr)
      → Safe (uv_recv_callback env handle nread buffer addr)
  unfolding uv_recv_callback
  uv_recv_callback-Safe handle nread buffer addr = Keeps-bind _ _ (handle_data-Safe handle) λ self.
      Keeps-bind _ _ Keeps-get λ w.
        Leads-if (is_releasing w.status) _ _ (λ _. Keeps-pure _)
          (λ _. deliver-Safe self nread buffer addr)
