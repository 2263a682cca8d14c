-- ===== src/Auth/Session/Grants.antt =====
-- What `Session.Add` and `Session.Granted` promise to one another.
use photogallery.Prelude.{
  ℕ, zero, suc, ◌+◌, ◌-◌, ◌≤◌, ◌<◌, ◌≡◌, ◌≢◌, refl, sym, ap, ◌∙◌, true, false, List, [], ◌∷◌, ◌++◌,
  arith, eqb, if◌then◌else◌, length, drop, length-append, length-drop, Bool-cases, inl, inr, ltb,
}
use photogallery.Prelude.Text.{Text, ◌==◌}
use photogallery.Auth.Session.{
  Grant, Session, max_grants, has_grant, granted, other_grants, newest, add,
}

has_grant-append :
    (xs ys : List Grant) (id : Text) (v : ℕ)
    → has_grant (xs ++ ys) id v ≡ (if has_grant xs id v then true else has_grant ys id v)
unfolding has_grant
has_grant-append [] ys id v = refl
has_grant-append (x ∷ xs) ys id v = ground (arith, has_grant-append xs ys id v)

has_grant-other_self :
    (id : Text) (gs : List Grant) (v : ℕ) → has_grant (other_grants id gs) id v ≡ false
unfolding has_grant other_grants
has_grant-other_self id [] v = refl
has_grant-other_self id (g ∷ gs) v = ground (arith, has_grant-other_self id gs v)

has_grant-other_ne :
    (id id' : Text) (gs : List Grant) (v : ℕ)
    → id' ≢ id
    → has_grant (other_grants id gs) id' v ≡ has_grant gs id' v
unfolding has_grant other_grants
has_grant-other_ne id id' [] v ne = refl
has_grant-other_ne id id' (g ∷ gs) v ne = ground (arith, has_grant-other_ne id id' gs v ne)

has_grant-drop :
    (k : ℕ) (gs : List Grant) (id : Text) (v : ℕ)
    → has_grant (drop k gs) id v ≡ true
    → has_grant gs id v ≡ true
unfolding has_grant
has_grant-drop zero gs id v h = h
has_grant-drop (suc k) [] id v h = h
has_grant-drop (suc k) (g ∷ gs) id v h = ground (arith, has_grant-drop k gs id v)

length-other_grants-le : (id : Text) (gs : List Grant) → length (other_grants id gs) ≤ length gs
unfolding other_grants
length-other_grants-le id [] = omega arith
length-other_grants-le id (g ∷ gs) = ground (arith, length-other_grants-le id gs)

drop-append : (k : ℕ) (xs ys : List Grant) → k ≤ length xs → drop k (xs ++ ys) ≡ drop k xs ++ ys
drop-append zero xs ys h = refl
drop-append (suc k) [] ys h = absurd (omega arith)
drop-append (suc k) (x ∷ xs) ys h = drop-append k xs ys (omega arith)

abbrev grant : Text → ℕ → Grant
grant id v = record { album_id = id; version = v }

-- The new grant comes last, and what goes are the oldest of the other grants.
newest-append :
    (xs : List Grant) (g : Grant)
    → newest (xs ++ g ∷ []) ≡ drop (length xs + 1 - max_grants) xs ++ g ∷ []
unfolding newest
newest-append xs g =
    let e : length (xs ++ g ∷ []) ≡ length xs + 1 = omega (arith, length-append xs (g ∷ [])) in
    elim (Bool-cases (ltb max_grants (length xs + 1))) [
      | inl over ↦
          rw (e, over) (drop-append (length xs + 1 - max_grants) xs (g ∷ []) (ground arith))
      | inr fits ↦ let z : length xs + 1 - max_grants ≡ 0 = ground arith in rw (e, fits, z) refl
    ]

module _ (s : Session) (id : Text) (v : ℕ) where
  abbrev kept : List Grant
  kept = drop (length (other_grants id s.grants) + 1 - max_grants) (other_grants id s.grants)

  grants-add : (add s id v).grants ≡ kept ++ grant id v ∷ []
  unfolding add
  grants-add = newest-append (other_grants id s.grants) (grant id v)

  has_grant-grant :
      (id' : Text) (v' : ℕ)
      → has_grant (grant id v ∷ []) id' v' ≡ (if id == id' then eqb v v' else false)
  unfolding has_grant
  has_grant-grant id' v' = ground arith

  has_grant-kept_self : (v' : ℕ) → has_grant kept id v' ≡ false
  has_grant-kept_self v' = elim (Bool-cases (has_grant kept id v')) [
    | inl h ↦
        cc
          (has_grant-other_self id s.grants v', has_grant-drop _ (other_grants id s.grants) id v' h)
    | inr h ↦ h
  ]

  -- After `Add` the album is granted at the added version and at no other.
  pub granted-add_self : (v' : ℕ) → granted (add s id v) id v' ≡ eqb v v'
  unfolding granted
  granted-add_self v' =
      rw (grants-add, has_grant-append kept (grant id v ∷ []) id v', has_grant-kept_self v')
        (ground (arith, has_grant-grant id v'))

  granted-add-kept :
      (id' : Text) (v' : ℕ) → id' ≢ id → granted (add s id v) id' v' ≡ has_grant kept id' v'
  unfolding granted
  granted-add-kept id' v' ne =
      rw (grants-add, has_grant-append kept (grant id v ∷ []) id' v')
        (ground (arith, has_grant-grant id' v'))

  -- `Add` for one album grants no other album anew.
  pub granted-add_ne :
      (id' : Text) (v' : ℕ)
      → id' ≢ id
      → granted (add s id v) id' v' ≡ true
      → granted s id' v' ≡ true
  granted-add_ne id' v' ne h =
      let others = other_grants id s.grants in
      let k : has_grant kept id' v' ≡ true = sym (granted-add-kept id' v' ne) ∙ h in
      let o : has_grant others id' v' ≡ true = has_grant-drop _ others id' v' k in
      unfold granted in rw (← has_grant-other_ne id id' s.grants v' ne) o

  -- While fewer than `MaxGrants` albums are remembered, `Add` for one album leaves the grants of
  -- every other album as they were.
  pub granted-add_keeps :
      (id' : Text) (v' : ℕ)
      → id' ≢ id
      → length s.grants < max_grants
      → granted (add s id v) id' v' ≡ granted s id' v'
  granted-add_keeps id' v' ne few =
      let others = other_grants id s.grants in
      let none_goes : length others + 1 - max_grants ≡ 0 =
        omega (arith, length-other_grants-le id s.grants) in
      let all : kept ≡ others = rw none_goes refl in
      granted-add-kept id' v' ne
      ∙ ap (λ gs. has_grant gs id' v') all
      ∙ (unfold granted in has_grant-other_ne id id' s.grants v' ne)

  -- A session never holds more than `MaxGrants` grants after `Add`.
  pub length-add-le : length (add s id v).grants ≤ max_grants
  length-add-le =
      let others = other_grants id s.grants in
      omega (
        arith,
        ap (λ gs. length gs) grants-add,
        length-append kept (grant id v ∷ []),
        length-drop (length others + 1 - max_grants) others,
      )
