-- ===== src/Auth/Names.antt =====
-- The username that a signup by Google ends with.
use veervrat_app.Base.{
  ℕ, ◌+◌, ◌≤◌, ◌≡◌, refl, subst, inl, inr, ◌⊎◌, true, false, none, some, [], ◌∷◌, ◌++◌, take,
  length, length-take-le, arith, Bool-cases, Option-cases,
}
use Prim.Native.Nat.{zero, suc}
use veervrat_app.Model.{Text, Db, Prisma}
use veervrat_app.Auth.{Env}
use veervrat_app.Auth.Operations.Signup.{is_free, variant, decimal, try_variants, claim_username}

length-++ : (s t : Text) → length (s ++ t) ≡ length s + length t
length-++ [] t = omega arith
length-++ (c ∷ s) t = ground (arith, length-++ s t)

length-variant : (chosen : Text) (n : ℕ) → length (variant chosen n) ≤ 28
length-variant chosen n =
    ground (arith, length-++ (take 25 chosen) (95 ∷ decimal n), length-take-le 25 chosen)

module _ (prisma : Prisma) (env : Env) (chosen : Text) (db : Db) where
  try_first :
      (n : ℕ) (name : Text)
      → is_free prisma env (variant chosen n) db ≡ true
      → variant chosen n ≡ name
      → (length name ≤ 28) × (is_free prisma env name db ≡ true)
  try_first n name t e =
      subst (λ x. (length x ≤ 28) × (is_free prisma env x db ≡ true)) e (length-variant chosen n, t)

  try_variants-length :
      (rounds n : ℕ) (name : Text)
      → try_variants prisma env rounds n chosen db ≡ some name
      → (length name ≤ 28) × (is_free prisma env name db ≡ true)
  unfolding try_variants
  try_variants-length zero n name h = absurd (ground arith)
  try_variants-length (suc rounds) n name h =
      elim (Bool-cases (is_free prisma env (variant chosen n) db)) [
        | inl t ↦ try_first n name t (ground (arith, h, t))
        | inr f ↦ try_variants-length rounds (n + 1) name (ground (arith, h, f))
      ]

  -- No variant that the loop tries is free.
  abbrev pub AreTaken : (rounds n : ℕ) → Type 0
  AreTaken zero n = Unit
  AreTaken (suc rounds) n =
      (is_free prisma env (variant chosen n) db ≡ false) × AreTaken rounds (n + 1)

  try_variants-AreTaken :
      (rounds n : ℕ) → try_variants prisma env rounds n chosen db ≡ none → AreTaken rounds n
  unfolding try_variants
  try_variants-AreTaken zero n h = tt
  try_variants-AreTaken (suc rounds) n h = ground (arith, h, try_variants-AreTaken rounds (n + 1))

  -- The claimed username is short enough, if the chosen one was, and free, unless the chosen one
  -- and its 98 variants are all taken; a free choice is kept.
  pub claim_username-is_free :
      (hex : Text)
      → length chosen ≤ 30
      → length hex ≡ 6
      → let name = claim_username prisma env hex chosen db in
        (length name ≤ 30)
        × ((is_free prisma env name db ≡ true)
            ⊎ ((is_free prisma env chosen db ≡ false) × AreTaken 98 2))
        × (is_free prisma env chosen db ≡ true → name ≡ chosen)
  unfolding claim_username
  claim_username-is_free hex short six = elim (Bool-cases (is_free prisma env chosen db)) [
    | inl t ↦ rw t (short, inl t, (λ _. refl))
    | inr f ↦ elim (Option-cases (try_variants prisma env 98 2 chosen db)) [
      | inl e ↦
          rw (f, e)
            (
              ground (arith, six, length-++ (take 22 chosen) (95 ∷ hex), length-take-le 22 chosen),
              inr (refl, try_variants-AreTaken 98 2 e),
              (λ t. absurd (ground (arith, t))),
            )
      | inr (name, e) ↦
          let found = try_variants-length 98 2 name e in
          rw (f, e) (ground (arith, found.0), inl found.1, (λ t. absurd (ground (arith, t))))
    ]
  ]
