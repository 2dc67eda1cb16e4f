-- ===== src/World.antt =====
-- What the threads of the server share: the two registries of connections, the sessions behind their
-- handles, the queue of tasks, the count of messages sent, and the numbers that `rand()` will return.
use bserver.Base.{ℕ, suc, ◌==◌, if◌then◌else◌}
use bserver.Message.{MessageFormat}
use bserver.Session.{Session, write}
use bserver.Peers.{PeerMap}
use bserver.Peers.Client.{ClientMap}
use bserver.Tasks.{TaskBase}

pub record World : Type 0 where
  pub peers : PeerMap
  pub clients : ClientMap
  pub sessions : ℕ → Session
  pub queue : TaskBase
  pub send_count : ℕ
  pub rand : ℕ → ℕ
  pub rand_calls : ℕ

abbrev pub update {ℓ} : {A : Type ℓ} → (ℕ → A) → ℕ → A → ℕ → A
update f i a j = if i == j then a else f j

-- `sb->write(mf)`
unfoldable pub write_to : ℕ → MessageFormat → World → World
write_to h m w = record w { sessions = update w.sessions h (write m (w.sessions h)) }

-- `configwrap::sendcount`, which only the log shows.
unfoldable pub count_send : World → World
count_send w = record w { send_count = suc w.send_count }
