-- ===== src/Manager.antt =====
-- src/manager/manager.cpp: the manager knows the coordinators and gives each application one of
-- them. rand_r of the C library and the configured external_user are parameters.
pub mod Assignment
use spheromone.Prelude.{
  ℕ, ◌%◌, Bool, none, some, List, [], ◌∷◌, ◌==◌, nat_eq, if◌then◌else◌, ◌&&◌, length, get_elem?,
}
use spheromone.Text.{Text, text_eq}
use spheromone.HashMap
use spheromone.HashMap.{HashMap, find-put}
use spheromone.Common.Result.{Result, ok, crash}

pub record CoordIp : Type 0 where
  pub public_ip : Text
  pub private_ip : Text
  pub thread_id : ℕ

-- CoordSync has the same fields as CoordIp.
pub record CoordQuery : Type 0 where
  pub request_id : Text
  pub application : Text

pub record CoordResponse : Type 0 where
  pub request_id : Text
  pub coord_ip : Text
  pub thread_id : ℕ

pub record Manager : Type 0 where
  pub app_coord : HashMap Text (Text × ℕ)
  pub coord_ips : List CoordIp
  pub seed : ℕ

unfoldable pub same_coord : CoordIp → CoordIp → Bool
same_coord a b =
    (a.public_ip == b.public_ip) && ((a.private_ip == b.private_ip) && (a.thread_id == b.thread_id))

-- coord_ips.insert(coord_ip)
unfoldable pub insert_coord : CoordIp → List CoordIp → List CoordIp
unfolding same_coord
insert_coord x [] = x ∷ []
insert_coord x (y ∷ ys) = if same_coord x y then y ∷ ys else y ∷ insert_coord x ys

unfoldable pub coord_sync : CoordIp → Manager → Manager
unfolding insert_coord
coord_sync x m = record m { coord_ips = insert_coord x m.coord_ips }

abbrev pub respond : CoordQuery → Text × ℕ → CoordResponse
respond q (ip, thread_id) = record {
  request_id = q.request_id;
  coord_ip = ip;
  thread_id = thread_id;
}

module _ (rand_r : ℕ → ℕ × ℕ) (external_user : Bool) where
  abbrev pub address_of : CoordIp → Text × ℕ
  address_of x = (if external_user then x.public_ip else x.private_ip, x.thread_id)

  -- A coordinator at random. With none, the remainder by 0 ends the process.
  unfoldable pub pick_coord : Manager → Result ((Text × ℕ) × ℕ)
  pick_coord m =
      let (r, next) = rand_r m.seed in
      elim (get_elem? m.coord_ips (r % length m.coord_ips)) [
        | none ↦ crash
        | some x ↦ ok (address_of x, next)
      ]

  unfoldable pub coord_query : CoordQuery → Manager → Result (CoordResponse × Manager)
  unfolding pick_coord
  coord_query q m = elim (HashMap.find q.application m.app_coord) [
    | some coord ↦ ok (respond q coord, m)
    | none ↦ elim (pick_coord m) [
      | crash ↦ crash
      | ok (coord, next) ↦ ok (
        respond q coord,
        record m { app_coord = HashMap.put q.application coord m.app_coord; seed = next },
      )
    ]
  ]
