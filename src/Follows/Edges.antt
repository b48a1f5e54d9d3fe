-- ===== src/Follows/Edges.antt =====
-- The table of follows: each pair stands in it once, and nobody follows themselves.
use veervrat_app.Base.{
  ℕ, ◌+◌, ◌≡◌, ◌≢◌, refl, Bool, false, ◌&&◌, ◌||◌, not, List, [], ◌∷◌, some_of, filter_by, count_of,
  All, arith, if◌then◌else◌,
}
use veervrat_app.Model.{UserFollow, Db}
use veervrat_app.Follows.{is_edge, exists, follow, unfollow, are_mutual_follows, get_status}

abbrev pub IsTidy : List UserFollow → Type 0
IsTidy [] = Unit
IsTidy (f ∷ fs) =
    (f.follower_id ≢ f.followee_id)
    × All (λ g. is_edge f.follower_id f.followee_id g ≡ false) fs
    × IsTidy fs

count-none :
    (a b : ℕ) (fs : List UserFollow)
    → All (λ g. is_edge a b g ≡ false) fs
    → count_of (is_edge a b) fs ≡ 0
unfolding count_of
count-none a b [] h = refl
count-none a b (g ∷ fs) h = ground (arith, count-none a b fs)

abbrev one_if : Bool → ℕ
one_if b = if b then 1 else 0

count-edge :
    (a b : ℕ) (fs : List UserFollow)
    → IsTidy fs
    → count_of (is_edge a b) fs ≡ one_if (some_of (is_edge a b) fs)
unfolding count_of some_of
count-edge a b [] h = refl
count-edge a b (f ∷ fs) h =
    ground (arith, count-edge a b fs h.2, count-none f.follower_id f.followee_id fs h.1)

count-either :
    (a b : ℕ) (fs : List UserFollow)
    → a ≢ b
    → count_of (λ f. is_edge a b f || is_edge b a f) fs
      ≡ count_of (is_edge a b) fs + count_of (is_edge b a) fs
unfolding count_of
count-either a b [] n = refl
count-either a b (f ∷ fs) n = ground (arith, count-either a b fs n)

-- In a table in good order two different people are mutual follows exactly if each follows the
-- other.
pub are_mutual_follows-get_status :
    (a b : ℕ) (db : Db)
    → IsTidy db.follows
    → a ≢ b
    → are_mutual_follows a b db
      ≡ (let (is_following, follows_you) = get_status a b db in is_following && follows_you)
unfolding are_mutual_follows get_status exists
are_mutual_follows-get_status a b db t n =
    ground (
      arith,
      count-either a b db.follows n,
      count-edge a b db.follows t,
      count-edge b a db.follows t,
    )

filter-All :
    (P : UserFollow → Type 0) (p : UserFollow → Bool) (fs : List UserFollow)
    → All P fs
    → All P (filter_by p fs)
unfolding filter_by
filter-All P p [] h = tt
filter-All P p (f ∷ fs) h = ground (arith, filter-All P p fs)

filter-IsTidy : (p : UserFollow → Bool) (fs : List UserFollow) → IsTidy fs → IsTidy (filter_by p fs)
unfolding filter_by
filter-IsTidy p [] h = tt
filter-IsTidy p (f ∷ fs) h = ground (
  arith,
  filter-IsTidy p fs h.2,
  filter-All (λ g. is_edge f.follower_id f.followee_id g ≡ false) p fs h.1,
)

none-All :
    (a b : ℕ) (fs : List UserFollow)
    → some_of (is_edge a b) fs ≡ false
    → All (λ g. is_edge a b g ≡ false) fs
unfolding some_of
none-All a b [] h = tt
none-All a b (f ∷ fs) h = ground (arith, none-All a b fs)

pub follow-IsTidy : (a b : ℕ) (db : Db) → a ≢ b → IsTidy db.follows → IsTidy (follow a b db).follows
unfolding follow
follow-IsTidy a b db n t = ground (arith, none-All a b db.follows)

pub unfollow-IsTidy : (a b : ℕ) (db : Db) → IsTidy db.follows → IsTidy (unfollow a b db).follows
unfolding unfollow
unfollow-IsTidy a b db t = filter-IsTidy (λ f. not (is_edge a b f)) db.follows t
