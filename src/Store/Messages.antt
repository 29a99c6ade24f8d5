-- ===== src/Store/Messages.antt =====
-- internal/store/sqlite/sqlite.go, the table `messages`.
use wirechat_server.Common.{
  ℕ, ◌+◌, Bool, true, ◌&&◌, Option, none, some, List, ◌++◌, [], ◌∷◌, reverse, take, select,
  order_desc, ◌==◌, ltb,
}
use wirechat_server.Effect.{ok}
use wirechat_server.Store.Types.{Message}
use wirechat_server.Store.World.{Sql, statement}

-- SaveMessage writes the new id back into the message.
unfoldable pub save_message : Message → Sql Message
save_message msg = statement λ db _.
    ok (record msg { id = db.next_message })
      (record db {
        messages = db.messages ++ record msg { id = db.next_message } ∷ [];
        next_message = db.next_message + 1;
      })

-- `id < ?`, where a cursor is given.
abbrev pub older : Option ℕ → Message → Bool
older none m = true
older (some before) m = ltb m.id before

-- The newest `limit` rows, put back into chronological order.
unfoldable pub list_messages : ℕ → ℕ → Option ℕ → Sql (List Message)
list_messages room limit before = statement λ db _.
    ok
      (reverse (
        take limit
          (order_desc (λ m. m.id) (select (λ m. m.room_id == room && older before m) db.messages))))
      db
