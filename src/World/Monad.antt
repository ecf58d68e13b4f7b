-- ===== src/World/Monad.antt =====
-- C functions as actions on the state: a result, a Ruby exception on its way up (rb_raise, a long
-- jump), or the end of the process (a failed AE_ASSERT, a NULL pointer given to libuv).
use async_engine.Base.{ℕ, suc, Bool, true, false, List, Option, none, some, ◌∷◌}
use async_engine.Base.Assoc.{update}
use async_engine.Base.Int.{ℤ}
use async_engine.Ruby.{Exn, Value, Method}
use async_engine.World.{World, Event, Timer, Udp, Tcp, Sockaddr, Request}

pub data Run (A : Type 0) : Type 0 where
  ok : A → World → Run A
  raised : Exn → World → Run A
  crash : Run A

abbrev pub M : Type 0 → Type 0
M A = World → Run A

unfoldable pub pure : {A : Type 0} → A → M A
pure a w = ok a w

unfoldable pub raise : {A : Type 0} → Exn → M A
raise e w = raised e w

unfoldable pub get : M World
get w = ok w w

unfoldable pub modify : (World → World) → M (Unit {0})
modify f w = ok tt (f w)

-- AE_ASSERT.
unfoldable pub assert : Bool → M (Unit {0})
assert true w = ok tt w
assert false w = crash

-- ALLOC of a struct of libuv.
unfoldable pub alloc : M ℕ
alloc w = ok w.next_pointer (record w { next_pointer = suc w.next_pointer })

unfoldable pub xfree : ℕ → M (Unit {0})
xfree p w = ok tt (record w { trace = Event.xfree p ∷ w.trace })

-- `handle->data`, a pointer to the cdata of an object.
unfoldable pub handle_data : ℕ → M ℕ
handle_data p w = elim (w.uv_data p) [ none ↦ crash | some self ↦ ok self w ]

-- `req->data`.
unfoldable pub request_data : ℕ → M Request
request_data r w = elim (w.requests r) [ none ↦ crash | some d ↦ ok d w ]

unfoldable pub set_request_data : ℕ → Request → M (Unit {0})
set_request_data r d w = ok tt (record w { requests = update w.requests r (some d) })

abbrev pub and_then : {A B : Type 0} → Run A → (A → M B) → Run B
and_then (ok a w) k = k a w
and_then (raised e w) k = raised e w
and_then crash k = crash

-- rb_protect: the exception is a value.
pub data Protected (A : Type 0) : Type 0 where
  returned : A → Protected A
  rescued : Exn → Protected A

abbrev pub to_protected : {A : Type 0} → Run A → Run (Protected A)
to_protected (ok a w) = ok (returned a) w
to_protected (raised e w) = ok (rescued e) w
to_protected crash = crash

unfoldable pub protect : {A : Type 0} → M A → M (Protected A)
protect m w = to_protected (m w)

-- A call of a Ruby method, with the receiver and the arguments.
pub data Callback : Type 0 where
  invoke : Value → Method → List Value → Callback

-- What is not the extension's: libuv's answers, which may depend on all that was asked of it
-- before, its table of errors, Ruby code, other threads, the addresses that libuv writes and the C
-- library's conversions of them, and what memory holds that nothing was written to.
pub record Env : Type 0 where
  pub uv : List Event → Event → ℤ
  pub last_error : List Event → ℤ
  pub uv_errors : ℤ → Option Exn
  pub ruby : Callback → M Value
  pub others : World → World
  pub sockaddr : List Event → Event → Sockaddr
  pub inet_pton4 : List ℕ → Option (List ℕ)
  pub inet_pton6 : List ℕ → Option (List ℕ)
  pub inet_ntop4 : List ℕ → Option (List ℕ)
  pub inet_ntop6 : List ℕ → Option (List ℕ)
  pub htons : ℕ → ℕ
  pub memory_int : ℤ
  pub memory_address : List ℕ × ℕ
  pub memory_timer : Timer
  pub memory_udp : Udp
  pub memory_tcp : Tcp

module _ (env : Env) where
  -- A call of libuv, with the answer.
  unfoldable pub uv : Event → M ℤ
  uv c w = ok (env.uv w.trace c) (record w { trace = c ∷ w.trace })

-- Opening this opens the primitive actions too.
infixl 5 ◌>>=◌ ◌>>◌
unfoldable pub ◌>>=◌ : {A B : Type 0} → M A → (A → M B) → M B
unfolding pure raise get modify assert alloc xfree handle_data request_data set_request_data uv
    protect
◌>>=◌ m k w = and_then (m w) k

abbrev pub ◌>>◌ : {A B : Type 0} → M A → M B → M B
m >> n = m >>= λ _. n
