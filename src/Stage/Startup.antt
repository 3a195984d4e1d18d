-- ===== src/Stage/Startup.antt =====
-- stage.cpp, init, as far as messages go: setAddr of stage_handler.h with sender::init in sender.cpp, and
-- the start of receiver::run in receiver.cpp. What the calls of ZeroMQ answer is given; `A` are its
-- addresses.
use seda_framework.Base.{
  ◌≡◌, refl, Bool, ◌&&◌, Option, none, some, List, [], ◌∷◌, if◌then◌else◌, Bool-cases, inl, inr,
}
use seda_framework.Base.Memory.{◌>>=◌}

-- Whether contexts and sockets can be made, addresses bound and connected to, and ZMQ_SUBSCRIBE set.
pub record Zmq {ℓ} (A : Type ℓ) : Type ℓ where
  pub makes : Bool
  pub binds : A → Bool
  pub connects : A → Bool
  pub subscribes : Bool

-- A call that may end in an assertion or in exit(-1).
pub data Starting {ℓ} (R : Type ℓ) : Type ℓ where
  aborted exited : Starting R
  done : R → Starting R

abbrev pub then_start {ℓ κ} :
    {R : Type ℓ} {T : Type κ} → Starting R → (R → Option (Starting T)) → Option (Starting T)
then_start aborted f = some aborted
then_start exited f = some exited
then_start (done r) f = f r

module _ {ℓ} {A : Type ℓ} where
  -- sender::init: the address that the publisher is bound to.
  unfoldable pub sender_init : Zmq A → A → Starting A
  sender_init z addr = if z.makes then (if z.binds addr then done addr else exited) else aborted

  -- receiver::run up to its loop: the address that the subscriber hears; `none` within is a return
  -- before the loop. The first resource is read whether there is one or not.
  unfoldable pub receiver_start : Zmq A → List A → Option (Starting (Option A))
  receiver_start z res =
      if z.makes
      then elim res [
        | [] ↦ none
        | r ∷ rs ↦ some (done (if z.connects r && z.subscribes then some r else none))
      ]
      else some aborted

  -- stage::init on the resources and the destination: what the stage publishes on and what it hears.
  -- The publisher is bound by setAddr, before the pool is started.
  unfoldable pub stage_start : Zmq A → List A → A → Option (Starting (A × Option A))
  unfolding sender_init receiver_start
  stage_start z res des =
      then_start (sender_init z des)
        (λ addr. receiver_start z res >>= λ r. then_start r (λ heard. some (done (addr, heard))))

  -- A stage with a resource publishes on its destination if that can be bound, and hears its first
  -- resource if that can be connected to and subscribed; it starts all the same if not, and whatever
  -- its further resources are.
  pub stage_start_lem :
      (z : Zmq A) (r : A) (rs : List A) (des : A)
      → stage_start z (r ∷ rs) des
        ≡ some (
            if z.makes
            then (if z.binds des
                then done (des, if z.connects r && z.subscribes then some r else none)
                else exited)
            else aborted)
  unfolding stage_start
  stage_start_lem z r rs des = elim (Bool-cases z.makes) [
    | inl made ↦ elim (Bool-cases (z.binds des)) [
      | inl bound ↦ rw (made, bound) refl
      | inr fails ↦ rw (made, fails) refl
    ]
    | inr fails ↦ rw fails refl
  ]
