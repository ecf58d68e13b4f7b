-- ===== src/Tcp/Safe.antt =====
-- ext/asyncengine/ae_tcp.c: no method of a TCPSocket closes a handle twice or keeps a closed one.
use async_engine.World.Monad.{M, modify, ◌>>=◌}
use async_engine.World.Keeps.{Ends, Leads, Leads-bind}
use async_engine.Handles.Cells.{From, Holds, check_open, put_same, release}
use async_engine.Handles.{IsSafe}
use async_engine.World.{Object, Tcp, World}
use async_engine.Handles.Actions.{Safe, modify-Safe}
use async_engine.Ruby.{Value}
use async_engine.Base.{refl, some, ℕ, ◌≡◌}
use async_engine.Tcp.{get_cdata, set_cdata, with_open_cdata}
use async_engine.Base.Assoc.{update}

module _ {A : Type 0} {E P Q : World → Type 0} (self : ℕ) (k : Tcp → M A)
    (kk : (c : Tcp) → Leads Unit E (Holds self (Object.tcp c) P) Q (k c)) where
  read_object :
      (w : World) (x : Object) → w.objects self ≡ x → P w → Ends Unit E Q ((get_cdata self >>= k) w)
  unfolding get_cdata ◌>>=◌
  read_object w (Object.tcp c) e s =
      rw (e, get_cdata) ((kk c).at w (record { state = s; object = e }))
  read_object w (Object.timer c) e s = rw (e, get_cdata) tt
  read_object w (Object.udp c) e s = rw (e, get_cdata) tt
  read_object w Object.absent e s = rw (e, get_cdata) tt

  pub get_cdata-Holds : Leads Unit E P Q (get_cdata self >>= k)
  get_cdata-Holds = record { at = λ w s. read_object w (w.objects self) refl s }

pub with_open_cdata-Safe :
    (self : ℕ) (k : Tcp → ℕ → M Value)
    → ((c : Tcp) (p : ℕ) → c.uv_handle ≡ some p → From self (Object.tcp c) IsSafe (k c p))
    → Safe (with_open_cdata self k)
unfolding with_open_cdata
with_open_cdata-Safe self k kk =
    get_cdata-Holds self _ λ c. check_open self (Object.tcp c) c.uv_handle (k c) (kk c)

-- A change of the status or the flags.
pub set_cdata-Safe :
    (self : ℕ) (c d : Tcp) {A : Type 0} (m : M A)
    → d.uv_handle ≡ c.uv_handle
    → d.timer_connect_timeout ≡ c.timer_connect_timeout
    → Safe m
    → From self (Object.tcp c) IsSafe (set_cdata self d >>= λ _. m)
unfolding set_cdata
set_cdata-Safe self c d m e t km =
    Leads-bind _ _ (put_same self (Object.tcp c) (Object.tcp d) e t)
      λ _. release self (Object.tcp d) m km

pub set_data-Safe :
    (p self : ℕ) → Safe (modify (λ w. record w { uv_data = update w.uv_data p (some self) }))
set_data-Safe p self =
    modify-Safe _ (λ w j. refl) (λ w. refl) (λ w. refl) (λ w. refl) (λ w. refl) (λ w. refl)

pub set_cdata_done :
    (self : ℕ) (c d : Tcp)
    → d.uv_handle ≡ c.uv_handle
    → d.timer_connect_timeout ≡ c.timer_connect_timeout
    → From self (Object.tcp c) IsSafe (set_cdata self d)
unfolding set_cdata modify
set_cdata_done self c d e t = record {
  at = λ w h. ((put_same self (Object.tcp c) (Object.tcp d) e t).at w h).state;
}
