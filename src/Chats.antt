-- ===== src/Chats.antt =====
-- The rooms of apps/api/src/modules/chats/chats.service.ts: a room's id names its two people. An id
-- of a person is a text here.
pub mod Rooms
pub mod Tests
use veervrat_app.Base.{
  ℕ, Bool, true, false, Option, none, some, List, [], ◌∷◌, ◌++◌, ◌==◌, ltb, if◌then◌else◌,
}
use veervrat_app.Model.{Text, codes, text_eq}

-- `s.split(':')`
abbrev pub push : ℕ → List Text → List Text
push c [] = (c ∷ []) ∷ []
push c (w ∷ ws) = (c ∷ w) ∷ ws

unfoldable pub split : Text → List Text
split [] = [] ∷ []
split (c ∷ t) = let rest = split t in if c == 58 then [] ∷ rest else push c rest

-- `a < b` on texts, by their code units
unfoldable pub text_lt : Text → Text → Bool
text_lt [] [] = false
text_lt [] (d ∷ t) = true
text_lt (c ∷ s) [] = false
text_lt (c ∷ s) (d ∷ t) =
    let rest = text_lt s t in if ltb c d then true else if c == d then rest else false

abbrev pub participant : Text → Text → Text → Option Text
participant user_id a b =
    if text_eq user_id a then some b else if text_eq user_id b then some a else none

abbrev pub participant_of : List Text → Text → Option Text
participant_of (kind ∷ a ∷ b ∷ []) user_id =
    if text_eq kind (codes "chat") then participant user_id a b else none
participant_of _ user_id = none

unfoldable pub other_participant : (room_id user_id : Text) → Option Text
other_participant room_id user_id = participant_of (split room_id) user_id

abbrev pub room_of : Text → Text → Text
room_of a b = codes "chat" ++ 58 ∷ a ++ 58 ∷ b

-- the two ids in ascending order
unfoldable pub derive_room_id : Text → Text → Text
derive_room_id user_id1 user_id2 =
    if text_lt user_id2 user_id1 then room_of user_id2 user_id1 else room_of user_id1 user_id2
