-- ===== src/Chats/Rooms.antt =====
-- A room's id and the people it names.
use veervrat_app.Base.{
  ◌≡◌, ◌≢◌, ◌∙◌, refl, ap, inl, inr, true, false, Option, none, some, [], ◌∷◌, ◌++◌, All, arith,
  Bool-cases,
}
use veervrat_app.Model.{Text, codes, text_eq, text_eq_refl, text_eq-eq}
use veervrat_app.Chats.{
  split, text_lt, participant, participant_of, other_participant, room_of, derive_room_id,
}

-- It has no colon.
abbrev pub IsPart : Text → Type 0
IsPart t = All (λ c. c ≢ 58) t

split-IsPart : (w : Text) → IsPart w → split w ≡ w ∷ []
unfolding split
split-IsPart [] h = refl
split-IsPart (c ∷ w) h = ground (arith, split-IsPart w h.1)

split-++ : (w t : Text) → IsPart w → split (w ++ 58 ∷ t) ≡ w ∷ split t
unfolding split
split-++ [] t h = ground arith
split-++ (c ∷ w) t h = ground (arith, split-++ w t h.1)

text_lt_asym : (s t : Text) → text_lt s t ≡ true → text_lt t s ≡ false
unfolding text_lt
text_lt_asym [] [] h = refl
text_lt_asym [] (d ∷ t) h = refl
text_lt_asym (c ∷ s) [] h = absurd (ground arith)
text_lt_asym (c ∷ s) (d ∷ t) h = ground (arith, text_lt_asym s t)

text_lt_total : (s t : Text) → text_lt s t ≡ false → text_lt t s ≡ false → s ≡ t
unfolding text_lt
text_lt_total [] [] h g = refl
text_lt_total [] (d ∷ t) h g = absurd (ground arith)
text_lt_total (c ∷ s) [] h g = absurd (ground arith)
text_lt_total (c ∷ s) (d ∷ t) h g = ground (arith, text_lt_total s t)

split-room_of : (a b : Text) → IsPart a → IsPart b → split (room_of a b) ≡ codes "chat" ∷ a ∷ b ∷ []
split-room_of a b h g =
    split-++ (codes "chat") (a ++ 58 ∷ b)
      (ground arith, (ground arith, (ground arith, (ground arith, tt))))
    ∙ ap (λ x. codes "chat" ∷ x) (split-++ a b h ∙ ap (λ x. a ∷ x) (split-IsPart b g))

room-participant :
    (a b user_id : Text)
    → IsPart a
    → IsPart b
    → other_participant (room_of a b) user_id ≡ participant user_id a b
unfolding other_participant text_eq
room-participant a b user_id h g =
    ap (λ parts. participant_of parts user_id) (split-room_of a b h g)

-- The one of two people who is not the user.
abbrev Finds : Text → Text → Text → Option Text → Option Text → Option Text → Type 0
Finds a b user_id from_a from_b from_user =
    (from_a ≡ some b) × (from_b ≡ some a) × (user_id ≢ a → user_id ≢ b → from_user ≡ none)

participant-pair :
    (a b user_id : Text)
    → Finds a b user_id (participant a a b) (participant b a b) (participant user_id a b)
participant-pair a b user_id = (
  ground (arith, text_eq_refl a),
  ground (arith, text_eq_refl b, text_eq-eq b a),
  λ n m. ground (arith, text_eq-eq user_id a, text_eq-eq user_id b),
)

participant-swapped :
    (a b user_id : Text)
    → Finds a b user_id (participant a b a) (participant b b a) (participant user_id b a)
participant-swapped a b user_id = (
  ground (arith, text_eq_refl a, text_eq-eq a b),
  ground (arith, text_eq_refl b),
  λ n m. ground (arith, text_eq-eq user_id a, text_eq-eq user_id b),
)

-- Two people have one room, whichever of them comes first.
pub derive_room_id_comm : (a b : Text) → derive_room_id a b ≡ derive_room_id b a
unfolding derive_room_id
derive_room_id_comm a b = ground (arith, text_lt_asym a b, text_lt_asym b a, text_lt_total a b)

-- In the room of two people, whose ids have no colon, each of them finds the other, and nobody else
-- finds anyone.
pub other_participant-derive_room_id :
    (a b user_id : Text)
    → IsPart a
    → IsPart b
    → (other_participant (derive_room_id a b) a ≡ some b)
      × (other_participant (derive_room_id a b) b ≡ some a)
      × (user_id ≢ a → user_id ≢ b → other_participant (derive_room_id a b) user_id ≡ none)
unfolding derive_room_id
other_participant-derive_room_id a b user_id h g = elim (Bool-cases (text_lt b a)) [
  | inl e ↦
      rw
        (
          e,
          room-participant b a a g h,
          room-participant b a b g h,
          room-participant b a user_id g h,
        )
        (participant-swapped a b user_id)
  | inr e ↦
      rw
        (
          e,
          room-participant a b a h g,
          room-participant a b b h g,
          room-participant a b user_id h g,
        )
        (participant-pair a b user_id)
]
