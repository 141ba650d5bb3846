-- ===== src/Manager/Assignment.antt =====
-- The coordinator that the manager (src/manager/manager.cpp) gives to an application.
use spheromone.Prelude.{
  subst, ℕ, ◌%◌, ◌≡◌, refl, sym, Bool, none, some, List, [], ◌∷◌, arith, length, ◌<◌,
  get_elem?-total, ◌⊎◌, inl, inr, Option-cases,
}
use spheromone.Text.{Text, text_eq, text_beq_iff}
use spheromone.HashMap
use spheromone.HashMap.{find-put}
use spheromone.Common.Result.{Result, ok, crash}
use spheromone.Manager.{
  Manager, CoordIp, CoordQuery, CoordResponse, respond, coord_sync, coord_query, pick_coord,
  address_of,
}

-- The messages of the manager.
pub data Event : Type 0 where
  sync : CoordIp → Event
  ask : CoordQuery → Event

module _ (rand_r : ℕ → ℕ × ℕ) (external_user : Bool) where
  abbrev state_of : Result (CoordResponse × Manager) → Manager → Manager
  state_of crash m = m
  state_of (ok (resp, m')) m = m'

  -- The manager after the messages, as long as it does not crash.
  unfoldable pub after : List Event → Manager → Manager
  after [] m = m
  after (sync x ∷ es) m = after es (coord_sync x m)
  after (ask q ∷ es) m = after es (state_of (coord_query rand_r external_user q m) m)

  answered :
      (q : CoordQuery) (m : Manager) (coord : Text × ℕ)
      → HashMap.find q.application m.app_coord ≡ some coord
      → coord_query rand_r external_user q m ≡ ok (respond q coord, m)
  unfolding coord_query
  answered q m coord h = rw (h, coord_query) refl

  -- The manager that has given a new application its coordinator.
  abbrev assigned : CoordQuery → Manager → Text × ℕ → ℕ → Manager
  assigned q m coord next = record m {
    app_coord = HashMap.put q.application coord m.app_coord;
    seed = next;
  }

  picked :
      (q : CoordQuery) (m : Manager) (coord : Text × ℕ) (next : ℕ)
      → HashMap.find q.application m.app_coord ≡ none
      → pick_coord rand_r external_user m ≡ ok (coord, next)
      → coord_query rand_r external_user q m ≡ ok (respond q coord, assigned q m coord next)
  unfolding coord_query
  picked q m coord next h e = rw (h, coord_query) (rw (e, coord_query) refl)

  lost :
      (q : CoordQuery) (m : Manager)
      → HashMap.find q.application m.app_coord ≡ none
      → pick_coord rand_r external_user m ≡ crash
      → coord_query rand_r external_user q m ≡ crash
  unfolding coord_query
  lost q m h e = rw (h, coord_query) (rw (e, coord_query) refl)

  pick-cases :
      (r : Result ((Text × ℕ) × ℕ))
      → ((coord : Text × ℕ) × (next : ℕ) × (r ≡ ok (coord, next))) ⊎ (r ≡ crash)
  pick-cases (ok (coord, next)) = inl (coord, next, refl)
  pick-cases crash = inr refl

  abbrev Holds : Text → Text × ℕ → CoordQuery → Manager → Result (CoordResponse × Manager) → Type 0
  Holds app coord q m result = HashMap.find app (state_of result m).app_coord ≡ some coord

  query-keeps :
      (q : CoordQuery) (m : Manager) (app : Text) (coord : Text × ℕ)
      → HashMap.find app m.app_coord ≡ some coord
      → Holds app coord q m (coord_query rand_r external_user q m)
  query-keeps q m app coord h = elim (Option-cases (HashMap.find q.application m.app_coord)) [
    | inr (c, e) ↦ subst (Holds app coord q m) (sym (answered q m c e)) h
    | inl e ↦ elim (pick-cases (pick_coord rand_r external_user m)) [
      | inr p ↦ subst (Holds app coord q m) (sym (lost q m e p)) h
      | inl (c, next, p) ↦ subst (Holds app coord q m) (sym (picked q m c next e p)) (other c e)
    ]
  ]
    where
      other :
          (c : Text × ℕ)
          → HashMap.find q.application m.app_coord ≡ none
          → HashMap.find app (HashMap.put q.application c m.app_coord) ≡ some coord
      other c e =
          ground (arith, find-put q.application app c m.app_coord, text_beq_iff q.application app)

  after-keeps :
      (es : List Event) (m : Manager) (app : Text) (coord : Text × ℕ)
      → HashMap.find app m.app_coord ≡ some coord
      → HashMap.find app (after es m).app_coord ≡ some coord
  unfolding after coord_sync
  after-keeps [] m app coord h = h
  after-keeps (sync x ∷ es) m app coord h = after-keeps es (coord_sync x m) app coord h
  after-keeps (ask q ∷ es) m app coord h =
      after-keeps es (state_of (coord_query rand_r external_user q m) m) app coord
        (query-keeps q m app coord h)

  pick-total :
      (m : Manager)
      → 0 < length m.coord_ips
      → (coord : Text × ℕ) × (pick_coord rand_r external_user m ≡ ok (coord, (rand_r m.seed).1))
  unfolding pick_coord
  pick-total m h =
      let (x, e) =
        get_elem?-total m.coord_ips ((rand_r m.seed).0 % length m.coord_ips) (grind arith) in
      (address_of rand_r external_user x, ground arith)

  -- The first answer leaves the coordinator stored.
  first_answer :
      (q : CoordQuery) (m : Manager)
      → 0 < length m.coord_ips
      → (coord : Text × ℕ) × (m' : Manager) × (coord_query rand_r external_user q m
          ≡ ok (respond q coord, m'))
        × (HashMap.find q.application m'.app_coord ≡ some coord)
  first_answer q m h = elim (Option-cases (HashMap.find q.application m.app_coord)) [
    | inr (c, e) ↦ (c, m, answered q m c e, e)
    | inl e ↦
        let (c, p) = pick-total m h in
        (
          c,
          assigned q m c (rand_r m.seed).1,
          picked q m c (rand_r m.seed).1 e p,
          ground (
            arith,
            find-put q.application q.application c m.app_coord,
            text_beq_iff q.application q.application,
          ),
        )
  ]

  -- With a coordinator known, a query is answered; and a later query for the same application is
  -- answered with the same coordinator and thread, whatever messages came in between.
  pub coord_query_sticks :
      (q : CoordQuery) (m : Manager) (es : List Event) (p : CoordQuery)
      → 0 < length m.coord_ips
      → p.application ≡ q.application
      → (coord : Text × ℕ) × (m' : Manager) × (coord_query rand_r external_user q m
          ≡ ok (respond q coord, m'))
        × (coord_query rand_r external_user p (after es m') ≡ ok (respond p coord, after es m'))
  coord_query_sticks q m es p h same =
      let (coord, m', a, b) = first_answer q m h in
      (
        coord,
        m',
        a,
        answered p (after es m') coord (rw same (after-keeps es m' q.application coord b)),
      )
