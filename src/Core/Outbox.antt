-- ===== src/Core/Outbox.antt =====
-- What the code of the daemon shares: the counters of src/core/functions.cpp, the set of open
-- sessions, and the messages that were given to sessions, oldest first, each with its recipients.
-- `now` is the clock: the time of its n-th reading.
use xerock.Base.{ℕ, ◌≡◌, ◌+◌, ◌%◌, ◌^◌, List, [], ◌∷◌, ◌++◌}

pub record Outbox (S M : Type 0) : Type 0 where
  -- The static counters `mid` and `userid`, and how often the clock was read.
  pub mid : ℕ
  pub userid : ℕ
  pub readings : ℕ
  pub shares : List S
  pub sent : List (List S × M)

abbrev pub server_user_id : ℕ
server_user_id = 0

module _ {S M : Type 0} where
  -- The same sessions are open, and nothing was sent.
  abbrev pub Quiet : Outbox S M → Outbox S M → Type 0
  Quiet o o' = (o'.sent ≡ o.sent) × (o'.shares ≡ o.shares)

  -- `mid++` of a `long`, returned as a `uint64_t`.
  unfoldable pub get_mid : Outbox S M → ℕ × Outbox S M
  get_mid o = (o.mid, record o { mid = (o.mid + 1) % 2 ^ 64 })

  -- `userid++` of a `long`, returned as a `uint32_t`.
  unfoldable pub user_id : Outbox S M → ℕ × Outbox S M
  user_id o = (o.userid % 2 ^ 32, record o { userid = (o.userid + 1) % 2 ^ 64 })

  unfoldable pub time : (ℕ → ℕ) → Outbox S M → ℕ × Outbox S M
  time now o = (now o.readings % 2 ^ 64, record o { readings = o.readings + 1 })

  -- `ws->write(data)` and `Propagator::write_all(data)`.
  unfoldable pub write : S → M → Outbox S M → Outbox S M
  write s message o = record o { sent = o.sent ++ (s ∷ [], message) ∷ [] }

  unfoldable pub write_all : M → Outbox S M → Outbox S M
  write_all message o = record o { sent = o.sent ++ (o.shares, message) ∷ [] }
