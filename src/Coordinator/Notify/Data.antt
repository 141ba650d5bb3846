-- ===== src/Coordinator/Notify/Data.antt =====
-- What notify_handler stores of an object, and the arguments that it makes of objects
-- (src/coordinator/notify_handler.cpp, 40-62 and 90-148).
use spheromone.Prelude.{
  ℕ, Option, none, some, List, [], ◌∷◌, if◌then◌else◌, nat_eq, leb, length, take, drop,
}
use spheromone.Text.{Text, text_eq, empty, find_char}
use spheromone.HashMap
use spheromone.HashMap.{HashMap}
use spheromone.HashSet
use spheromone.HashSet.{HashSet}
use spheromone.Common.Key.{
  BucketKey, BucketKeyAddress, get_bucket_key_from_addr, shm_key_name, get_local_object_name,
}
use spheromone.Common.Split.{terminated}
use spheromone.Messages.{Argument}
use spheromone.Coordinator.State.{Coordinator, update_address}
use spheromone.Common.Result.{Result, ok, crash, ◌>>=◌}

-- ip.substr(6, ip.find(":", 6) - 6) of "tcp://ip:port". A shorter text throws, and a text with no
-- colon is taken to its end.
unfoldable pub node_ip : Text → Result Text
node_ip address =
    let rest = drop 6 address in
    if leb 6 (length address)
    then elim (find_char b':' rest) [ none ↦ ok rest | some i ↦ ok (take i rest) ]
    else crash

-- bucket_node_map[bucket].insert(node), and update_address.
unfoldable pub locate : BucketKey → Text → Coordinator → Result Coordinator
unfolding node_ip
locate b address c = do
  node ← node_ip address
  ok (record c {
    bucket_node =
        HashMap.put b.bucket (HashSet.insert node (HashMap.get_or b.bucket c.bucket_node []))
          c.bucket_node;
    key_address = update_address b address c.key_address;
  })

-- What is stored of one object. `none` ends the loop: the bucket has not been created.
unfoldable pub store_object : BucketKeyAddress → Coordinator → Result (Option Coordinator)
unfolding locate
store_object a c =
    let b = get_bucket_key_from_addr a in
    elim a.ips [
      | [] ↦ crash
      | address ∷ rest ↦
          let placed = locate b address c in
          if empty a.payload
          then if HashMap.has b.bucket c.bucket_app
            then placed >>= (λ c'. ok (some c'))
            else ok none
          else placed >>= (λ c'.
            ok (some (record c' { key_val = HashMap.put (shm_key_name b) a.payload c'.key_val })))
    ]

-- The values of the objects, if the coordinator has all of them.
unfoldable pub all_values : Text → List (Text × Text) → HashMap Text Text → Option (List Text)
all_values bucket [] vals = some []
all_values bucket ((session, key) ∷ rest) vals =
    let more = all_values bucket rest vals in
    elim (HashMap.find (get_local_object_name bucket key session) vals) [
      | none ↦ none
      | some v ↦ elim more [ none ↦ none | some vs ↦ some (v ∷ vs) ]
    ]

-- Arguments by reference: the first address of each object, and the nodes of these addresses.
-- Looking an address up creates missing entries, and an object without one ends the process.
abbrev pub Arguments : Type 0
Arguments = List Argument × HashSet Text × HashMap Text (HashMap Text (HashSet Text))

unfoldable pub reference_args :
    ℕ
    → Text
    → List (Text × Text)
    → HashMap Text (HashMap Text (HashSet Text))
    → HashSet Text
    → Result Arguments
unfolding node_ip
reference_args arg_flag bucket [] m nodes = ok ([], nodes, m)
reference_args arg_flag bucket ((session, key) ∷ rest) m nodes =
    let keys = HashMap.get_or bucket m [] in
    let m' = HashMap.put bucket (HashMap.touch key keys []) m in
    elim (HashMap.get_or key keys []) [
      | [] ↦ crash
      | address ∷ others ↦ do
        node ← node_ip address
        (args, last, m'') ← reference_args arg_flag bucket rest m' (HashSet.insert node nodes)
        ok (
          record {
            body = get_local_object_name bucket key session;
            arg_flag = arg_flag;
            data_address = address;
          }
              ∷ args,
          last,
          m'',
        )
    ]

-- std::copy to an ostream_iterator writes the delimiter behind each value.
abbrev pub batch_delim : ℕ
batch_delim = b'|'

unfoldable pub build_args :
    ℕ
    → Text
    → List (Text × Text)
    → Coordinator
    → Result (List Argument × HashSet Text × Coordinator)
unfolding all_values reference_args
build_args arg_flag bucket session_keys c = elim (all_values bucket session_keys c.key_val) [
  | some values ↦
      ok (
        record { body = terminated batch_delim values; arg_flag = 0; data_address = [] } ∷ [],
        [],
        c,
      )
  | none ↦ do
    (args, nodes, m) ← reference_args arg_flag bucket session_keys c.key_address []
    ok (args, nodes, record c { key_address = m })
]
