-- ===== src/Chats/Tests.antt =====
-- The rooms of two people.
use veervrat_app.Base.{◌≡◌, refl, none, some, arith}
use veervrat_app.Model.{Text, codes, text_eq}
use veervrat_app.Chats.{split, text_lt, other_participant, derive_room_id}
use veervrat_app.Chats.Rooms.{other_participant-derive_room_id}

abbrev ann : Text
ann = codes "u2"

abbrev bob : Text
bob = codes "u1"

rooms_tests :
    (derive_room_id ann bob ≡ codes "chat:u1:u2")
    × (other_participant (codes "chat:u1") bob ≡ none)
    × (other_participant (codes "blog:u1:u2") bob ≡ none)
unfolding split text_lt text_eq other_participant derive_room_id
rooms_tests = (refl, refl, refl)

other_participant-derive_room_id_example : other_participant (derive_room_id ann bob) ann ≡ some bob
other_participant-derive_room_id_example =
    (other_participant-derive_room_id ann bob (codes "u3") (ground arith, (ground arith, tt))
      (ground arith, (ground arith, tt))).0
