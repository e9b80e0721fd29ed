-- ===== src/Server/Runs.antt =====
-- Concrete runs of the broker: two clients, of which the first has room for one message.
use txmlconnector.Common.{◌≡◌, refl, arith, true, false, [], ◌∷◌, Bytes, All}
use txmlconnector.Server.Broker.{
  Broker, new_broker, subscribe, publish, receive, close, deliver, finish_all,
}
use txmlconnector.Server.Broker.Sound.{Arises, starts, steps, IsSound, Arises-IsSound}
use txmlconnector.Server.Broker.Sound.{subscribes as subscribe_step, publishes as publish_step}
use txmlconnector.Server.Broker.Delivery.{Watched, IsKeptUp, Watched-IsKeptUp}
use txmlconnector.Server.Broker.Delivery.{publishes, takes, begins}

abbrev first : Broker
first = subscribe 0 new_broker

abbrev both : Broker
both = subscribe 2 first

abbrev hello : Bytes
hello = 104 ∷ 105 ∷ []

first_reached : Arises first
first_reached = steps starts (subscribe_step 0 new_broker (omega arith))

Arises-IsSound_example : IsSound (publish hello first)
Arises-IsSound_example = Arises-IsSound (steps first_reached (publish_step hello first))

both-Watched :
    Watched 2 (publish hello (receive 2 (publish hello both))) (hello ∷ hello ∷ []) (hello ∷ [])
unfolding subscribe publish deliver
both-Watched =
    publishes hello (takes hello (publishes hello (begins 2 first_reached (omega arith) refl)) refl)

Watched-IsKeptUp_example :
    All
      (IsKeptUp 2 (hello ∷ hello ∷ []) (hello ∷ []))
      (publish hello (receive 2 (publish hello both))).subscribers
Watched-IsKeptUp_example = Watched-IsKeptUp both-Watched

-- Without a receive the first client is detached by the second message, and the other stays.
slow_detached :
    (publish hello (publish hello both)).others
    ≡ record { id = 1; room = 1; messages = hello ∷ []; done = 1; slow = true } ∷ []
unfolding subscribe publish deliver
slow_detached = refl

-- A close of the broker closes the channel of each client once.
closed_once :
    (close (close first)).others
    ≡ record { id = 1; room = 1; messages = []; done = 1; slow = false } ∷ []
unfolding subscribe close finish_all
closed_once = refl
