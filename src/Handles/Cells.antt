-- ===== src/Handles/Cells.antt =====
-- An object between the reading of its cdata and the writing of it: what each write of the cdata does
-- to the ownership of handles.
use async_engine.World.Monad.{Env, M, modify, ◌>>=◌, alloc, uv, assert}
use async_engine.Handles.{IsSafe, main_pointer, timeout_pointer}
use async_engine.World.Keeps.{Leads, Leads-pure, Leads-raised}
use async_engine.World.{Object, World, Event}
use async_engine.Base.{Option, ap, arith, none, refl, some, sym, ℕ, ◌∙◌, ◌≡◌, false, Bool, true}
use async_engine.Handles.Actions.{Safe, is_close, alloc-Safe, uv-Safe}
use async_engine.Handles.Fresh.{
  Unowned, close_main, close_timeout, take_main, take_timeout, ae_store_handle-Unowned,
  fresh_unowned, uv-Unowned,
}
use async_engine.Ruby.{Value, qfalse}
use async_engine.HandleCommon.{ae_close_uv_handle, check_uv_handle_is_open, ae_store_handle}
use async_engine.Handles.Objects.{replace_quiet}
use async_engine.Base.Assoc.{update}

-- What is known of the object once its cdata is read.
pub record Holds (self : ℕ) (x : Object) (P : World → Type 0) (w : World) : Type 0 where
  pub state : P w
  pub object : w.objects self ≡ x

abbrev pub put : ℕ → Object → M (Unit {0})
put self x = modify (λ w. record w { objects = update w.objects self x })

-- From an object that is known, and where the action raises, to safe states.
abbrev pub From : ℕ → Object → (Q : World → Type 0) → {A : Type 0} → M A → Type 0
From self x Q = Leads Unit IsSafe (Holds self x IsSafe) Q

-- An action that does not look at the object.
pub release_any :
    (self : ℕ) (x : Object) {A : Type 0} {Q : World → Type 0} (m : M A)
    → Leads Unit IsSafe IsSafe Q m
    → From self x Q m
release_any self x m km = record { at = λ w h. km.at w h.state }

pub release : (self : ℕ) (x : Object) {A : Type 0} (m : M A) → Safe m → From self x IsSafe m
release self x m km = release_any self x m km

-- An action that changes nothing of the state, such as the reading of an argument.
pub reads :
    (self : ℕ) (x : Object) {A : Type 0} (m : M A)
    → Leads Unit (Holds self x IsSafe) (Holds self x IsSafe) (Holds self x IsSafe) m
    → From self x (Holds self x IsSafe) m
reads self x m km = Leads-raised m (λ w h. h.state) km

-- A check of the handle before the rest.
pub check_open :
    (self : ℕ) (x : Object) (h : Option ℕ) (k : ℕ → M Value)
    → ((p : ℕ) → h ≡ some p → From self x IsSafe (k p))
    → From self x IsSafe (check_uv_handle_is_open h k)
unfolding check_uv_handle_is_open
check_open self x none k kk = Leads-pure qfalse (λ w h. h.state)
check_open self x (some p) k kk = kk p refl

module _ (self : ℕ) (x y : Object) where
  -- The write keeps the handles.
  pub put_same :
      main_pointer y ≡ main_pointer x
      → timeout_pointer y ≡ timeout_pointer x
      → From self x (Holds self y IsSafe) (put self y)
  unfolding modify
  put_same m t = record {
    at = λ w h. record {
      state =
          replace_quiet w _ self y h.state
            (record { objects = λ j. refl; next_tick = refl; other_thread = refl; ubf = refl })
            (m ∙ ap main_pointer (sym h.object)) (t ∙ ap timeout_pointer (sym h.object)) (λ p. refl)
            (omega arith);
      object = ground arith;
    };
  }

  -- The write takes a handle that nobody holds.
  pub put_main :
      (p : ℕ)
      → main_pointer y ≡ some p
      → timeout_pointer y ≡ timeout_pointer x
      → Leads Unit IsSafe (Holds self x (Unowned p)) (Holds self y IsSafe) (put self y)
  unfolding modify
  put_main p m t = record {
    at = λ w h. record {
      state =
          take_main p w _ self y h.state
            (record { objects = λ j. refl; next_tick = refl; other_thread = refl; ubf = refl }) m
            (t ∙ ap timeout_pointer (sym h.object)) (λ q. refl) (omega arith);
      object = ground arith;
    };
  }

  pub put_timeout :
      (p : ℕ)
      → timeout_pointer y ≡ some p
      → main_pointer y ≡ main_pointer x
      → Leads Unit IsSafe (Holds self x (Unowned p)) (Holds self y IsSafe) (put self y)
  unfolding modify
  put_timeout p t m = record {
    at = λ w h. record {
      state =
          take_timeout p w _ self y h.state
            (record { objects = λ j. refl; next_tick = refl; other_thread = refl; ubf = refl }) t
            (m ∙ ap main_pointer (sym h.object)) (λ q. refl) (omega arith);
      object = ground arith;
    };
  }

-- Calls that do not look at the objects.
module _ (self : ℕ) (x : Object) where
  pub uv_known :
      (env : Env) (c : Event) → is_close c ≡ false → From self x (Holds self x IsSafe) (uv env c)
  unfolding uv
  uv_known env c e = record {
    at = λ w h. record { state = (uv-Safe env c e).at w h.state; object = h.object };
  }

  pub alloc_known : From self x (Holds self x IsSafe) alloc
  unfolding alloc
  alloc_known = record { at = λ w h. record { state = alloc-Safe.at w h.state; object = h.object } }

pub assert_known : {E P : World → Type 0} (b : Bool) → Leads Unit E P P (assert b)
unfolding assert
assert_known true = record { at = λ w s. s }
assert_known false = record { at = λ w s. tt }

-- A handle that nobody holds, next to an object that is known.
abbrev pub Beside : (self : ℕ) (x : Object) (p : ℕ) (Q : World → Type 0) {A : Type 0} → M A → Type 0
Beside self x p Q = Leads Unit IsSafe (Holds self x (Unowned p)) Q

module _ (self : ℕ) (x : Object) where
  pub alloc_beside :
      {A : Type 0} {Q : World → Type 0} (k : ℕ → M A)
      → ((p : ℕ) → Beside self x p Q (k p))
      → From self x Q (alloc >>= k)
  unfolding alloc ◌>>=◌
  alloc_beside k kk = record {
    at = λ w h.
        (kk w.next_pointer).at _ (record { state = fresh_unowned w h.state; object = h.object });
  }

  module _ (p : ℕ) where
    -- From here on the handle and the object do not matter.
    pub drop : {A : Type 0} (m : M A) → Safe m → Beside self x p IsSafe m
    drop m km = record { at = λ w h. km.at w h.state.safe }

    pub uv-Beside :
        (env : Env) (c : Event)
        → is_close c ≡ false
        → Beside self x p (Holds self x (Unowned p)) (uv env c)
    unfolding uv
    uv-Beside env c e = record {
      at = λ w h. record { state = (uv-Unowned p env c e).at w h.state; object = h.object };
    }

    pub store-Beside : (o : ℕ) → Beside self x p (Holds self x (Unowned p)) (ae_store_handle o)
    unfolding ae_store_handle ◌>>=◌
    store-Beside o = record {
      at = λ w h. record { state = (ae_store_handle-Unowned p o).at w h.state; object = h.object };
    }

module _ (env : Env) (self : ℕ) (x y : Object) {A : Type 0} {Q : World → Type 0} (m : M A)
    (km : Leads Unit IsSafe (Holds self y IsSafe) Q m) where
  -- The object's own handle is closed, and forgotten.
  pub close_put :
      (u : Option ℕ)
      → main_pointer x ≡ u
      → main_pointer y ≡ none
      → timeout_pointer y ≡ timeout_pointer x
      → From self x Q (ae_close_uv_handle env u >>= λ _. put self y >>= λ _. m)
  unfolding ae_close_uv_handle modify ◌>>=◌
  close_put none e n t = record { at = λ w h. tt }
  close_put (some p) e n t = record {
    at = λ w h. km.at _ (record {
      state =
          close_main p w _ self y h.state
            (record { objects = λ j. refl; next_tick = refl; other_thread = refl; ubf = refl })
            (omega arith) (λ q. refl) (ap main_pointer h.object ∙ e) n
            (t ∙ ap timeout_pointer (sym h.object));
      object = ground arith;
    });
  }

  -- So for the timer of its connection.
  pub close_put_timeout :
      (u : Option ℕ)
      → timeout_pointer x ≡ u
      → timeout_pointer y ≡ none
      → main_pointer y ≡ main_pointer x
      → From self x Q (ae_close_uv_handle env u >>= λ _. put self y >>= λ _. m)
  unfolding ae_close_uv_handle modify ◌>>=◌
  close_put_timeout none e n t = record { at = λ w h. tt }
  close_put_timeout (some p) e n t = record {
    at = λ w h. km.at _ (record {
      state =
          close_timeout p w _ self y h.state
            (record { objects = λ j. refl; next_tick = refl; other_thread = refl; ubf = refl })
            (omega arith) (λ q. refl) (ap timeout_pointer h.object ∙ e) n
            (t ∙ ap main_pointer (sym h.object));
      object = ground arith;
    });
  }
