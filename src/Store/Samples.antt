-- ===== src/Store/Samples.antt =====
-- Small databases on which the tests run the services of the repository.
use wirechat_server.Common.{true, ℕ, String, Bool, false, Option, none, some, List, [], ◌∷◌}
use wirechat_server.Store.Types.{
  private_room, Friend, FriendStatus, Call, CallType, CallStatus, livekit, CallParticipant,
  AllowCallsFrom, everyone, friends_only,
}
use wirechat_server.Store.World.{UserRow, Db, Env, World}

abbrev pub user_row : ℕ → String → AllowCallsFrom → UserRow
user_row id name from = record {
  user = record {
    id = id;
    username = name;
    password_hash = "hash";
    is_guest = false;
    session_id = "";
    created_at = 1;
  };
  allow_calls_from = from;
}

abbrev pub friend_row : ℕ → ℕ → ℕ → FriendStatus → Friend
friend_row id u v status = record {
  id = id;
  user_id = u;
  friend_id = v;
  status = status;
  created_at = 5;
  updated_at = 5;
}

abbrev pub call_row_of : String → CallType → ℕ → Option ℕ → CallStatus → Call
call_row_of id type u room status = record {
  id = id;
  type = type;
  mode = livekit;
  initiator_user_id = u;
  room_id = room;
  status = status;
  external_room_id = some "wirechat-room";
  created_at = 7;
  updated_at = 7;
  ended_at = none;
}

abbrev pub participant_row : ℕ → String → ℕ → CallParticipant
participant_row id call u = record {
  id = id;
  call_id = call;
  user_id = u;
  joined_at = none;
  left_at = none;
  reason = none;
}

-- Three users, of whom the third takes calls from friends only, and a room with the first two in it.
abbrev pub sample_db : List Friend → List Call → List CallParticipant → Db
sample_db friends calls participants = record {
  users =
      user_row 1 "ann" everyone ∷ user_row 2 "bob" everyone ∷ user_row 3 "cyd" friends_only ∷ [];
  rooms =
      record {
        id = 4;
        name = "den";
        type = private_room;
        owner_id = some 1;
        direct_key = none;
        created_at = 2;
      }
      ∷ [];
  room_members =
      record { user_id = 1; room_id = 4; joined_at = 2 }
      ∷ record { user_id = 2; room_id = 4; joined_at = 3 }
      ∷ [];
  messages = [];
  friends = friends;
  calls = calls;
  participants = participants;
  next_user = 4;
  next_room = 5;
  next_message = 1;
  next_friend = 9;
  next_participant = 9;
}

-- The driver fails at the statements of which the test says so.
abbrev pub sample_env : (ℕ → Bool) → Env
sample_env faulty = record {
  faulty = faulty;
  now = λ n. 100;
  uuid = λ n. "call-9";
  itoa = λ n. "n";
  like = λ p s. true;
}

abbrev pub sample : (ℕ → Bool) → List Friend → List Call → List CallParticipant → World
sample faulty friends calls participants = record {
  db = sample_db friends calls participants;
  ticks = 0;
  env = sample_env faulty;
}

abbrev pub never : ℕ → Bool
never n = false
